-- ===== src/Tests/Input.antt =====
-- A trace of a request and a response, with a clock that counts its readings.
use dns_collector.Prelude.{ℕ, suc, ◌≡◌, refl, true, false, some, none, List, [], ◌∷◌, arith}
use dns_collector.Packet.{Packet}
use dns_collector.Frame.{create as create_frame}
use dns_collector.Input.{
  parsed, Reader, Input, Event, packet, sleep, terminate, ret_err, Opening, create, advance_time_to,
  finish, process, trace_open,
}
use dns_collector.Input.Frames.{Holds, Reaches, advance_time_to-Reaches}
use dns_collector.Input.Run.{received, Dumps, Closes, Ended, finish-Ended}
use dns_collector.Input.Open.{Succeeds, create-Holds, process-Closes, trace_open-stale_filter}
use dns_collector.Tests.Packets.{request, response}

abbrev pub reader : Reader ℕ Packet
reader = record {
  current_us_time = λ w. (w, suc w);
  wire_length = λ raw. raw.net_size;
  dropped_packets = λ w. 0;
  create_packet = λ raw. parsed raw;
  dump_packet = λ w raw reason. (true, suc w);
  destroy_dump = λ w. some w;
  close_dump = λ w. w;
}

abbrev new_input : Input ℕ
new_input = create 0 1000 2000 500 60 true

new_input-Holds : Holds false 1000 new_input (create_frame none none) []
new_input-Holds = create-Holds 0 1000 2000 500 60 true

advance_time_to-Reaches_example : Reaches false 1000 5000 [] (advance_time_to reader new_input 5000)
advance_time_to-Reaches_example =
    advance_time_to-Reaches reader false 5000 1000 new_input (create_frame none none) []
      (omega arith) new_input-Holds

finish-Ended_example : Ended reader 1000 [] (finish reader new_input)
finish-Ended_example =
    finish-Ended reader 1000 false new_input (create_frame none none) [] new_input-Holds

abbrev pub events : List (Event Packet)
events = packet request ∷ sleep ∷ packet response ∷ terminate false ∷ []

abbrev pub good : Opening
good = record {
  created = true;
  configured = true;
  filter_set = true;
  started = true;
  allocated = true;
}

pub good-Succeeds : Succeeds good
good-Succeeds = record {
  created = refl;
  configured = refl;
  filter_set = refl;
  started = refl;
  allocated = refl;
}

pub reader-Dumps : Dumps reader
reader-Dumps w raw reason = (suc w, refl)

process-Closes_example :
    Closes reader 1000
      (omega arith)
      reader-Dumps
      (received reader events)
      (process reader good events new_input)
unfolding create
process-Closes_example =
    process-Closes reader 1000 (omega arith) reader-Dumps good events new_input
      (create_frame none none) [] good-Succeeds tt refl refl new_input-Holds

-- a file whose filter is refused
abbrev refused : Opening
refused = record {
  created = true;
  configured = true;
  filter_set = false;
  started = true;
  allocated = true;
}

trace_open-stale_filter_example :
    (left : Input ℕ) × (trace_open reader refused new_input ≡ some (ret_err, left))
    × ((next : Opening)
        → next.created ≡ true
        → next.configured ≡ true
        → trace_open reader next left ≡ none)
unfolding create
trace_open-stale_filter_example =
    trace_open-stale_filter reader refused new_input refl refl refl refl refl refl
