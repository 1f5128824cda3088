-- ===== src/Input.antt =====
-- src/input.c: the thread that reads a capture and puts its packets in frames. What it asks of the
-- clock, of libtrace, of the parser of packets and of the dump is an argument. `none` is a failed
-- assertion or `die`. Frames that are handed over stand in a list.
pub mod Frames
pub mod Run
pub mod Open
use dns_collector.Prelude.{
  ℕ, zero, suc, ◌+◌, ◌-◌, ◌^◌, Bool, true, false, not, ◌&&◌, Option, none, some, List, [], ◌∷◌,
  ◌++◌, ◌==◌, ltb, leb, if◌then◌else◌, add64, assert, ◌>>=◌, ◌>>◌,
}
use dns_collector.Packet.{Packet}
use dns_collector.Frame.{Time, Frame, append_packet}
use dns_collector.Frame.{create as create_frame}
use dns_collector.Clock.{next_rotation}
use dns_collector.Output.{later}

-- what `dns_packet_create_from_libtrace` makes of a packet of the trace: a packet, or an error
pub data Parsed : Type 0 where
  parsed : Packet → Parsed
  dropped : ℕ → Parsed

-- The system in a state of type `W`: the clock; libtrace's length of a packet and count of lost
-- packets; the parser; the writing of a packet to the dump, which says if it went well;
-- `dns_dump_destroy` and `dns_dump_close`.
pub record Reader (W Raw : Type 0) : Type 0 where
  pub current_us_time : W → ℕ × W
  pub wire_length : Raw → ℕ
  pub dropped_packets : W → ℕ
  pub create_packet : Raw → Parsed
  pub dump_packet : W → Raw → ℕ → Bool × W
  pub destroy_dump : W → Option W
  pub close_dump : W → W

-- `struct dns_input`; of the pointers `trace`, `bpf_filter` and `dumper` only whether they are set.
-- `frame_max_size` is the C `int` as it is compared, that is converted to a `size_t`.
pub record Input (W : Type 0) : Type 0 where
  pub world : W
  pub online : Bool
  pub frame_max_duration : ℕ
  pub frame_max_size : ℕ
  pub real_time_grace : ℕ
  pub report_period_sec : ℕ
  pub last_report_time : Time
  pub total_packets_dropped : ℕ
  pub total_packets_read : ℕ
  pub total_bytes_read : ℕ
  pub current_packets_dropped : ℕ
  pub current_packets_read : ℕ
  pub current_bytes_read : ℕ
  pub bpf_filter : Bool
  pub trace : Bool
  pub frame : Option Frame
  pub output : List Frame
  pub dumper : Bool

-- `dns_input_create` with the configured times in microseconds
unfoldable pub create : {W : Type 0} → W → (max_duration max_size grace period : ℕ) → Bool → Input W
create world max_duration max_size grace period dumper = record {
  world = world;
  online = false;
  frame_max_duration = max_duration;
  frame_max_size = max_size;
  real_time_grace = grace;
  report_period_sec = period;
  last_report_time = none;
  total_packets_dropped = 0;
  total_packets_read = 0;
  total_bytes_read = 0;
  current_packets_dropped = 0;
  current_packets_read = 0;
  current_bytes_read = 0;
  bpf_filter = false;
  trace = false;
  frame = some (create_frame none none);
  output = [];
  dumper = dumper;
}

-- `t <= u`
unfoldable pub at_most : Time → ℕ → Bool
at_most none u = true
at_most (some t) u = leb t u

-- `time_start` and `time_end` of a frame that has none
unfoldable pub start_frame : Frame → ℕ → Frame
start_frame f time = record f { time_start = some time; time_end = some time }

unfoldable pub start_if_unset : Frame → Time → ℕ → Frame
unfolding start_frame
start_if_unset f none time = start_frame f time
start_if_unset f (some t) time = f

-- how the events of a trace end
pub data Event (Raw : Type 0) : Type 0 where
  stop sleep unknown : Event Raw
  packet : Raw → Event Raw
  terminate iowait : Bool → Event Raw

-- DNS_RET_OK or DNS_RET_ERR
pub data Returned : Type 0 where
  ret_ok ret_err : Returned

-- `now_us > input->frame->time_end + input->real_time_grace`, where DNS_NO_TIME is the least number
unfoldable pub is_behind : Time → ℕ → ℕ → Bool
is_behind none grace now = true
is_behind (some t) grace now = ltb (t + grace) now

-- what the calls of libtrace return when a trace is opened: `true` is a success, and `configured`
-- is about the settings of length and promiscuity together
pub record Opening : Type 0 where
  pub created : Bool
  pub configured : Bool
  pub filter_set : Bool
  pub started : Bool
  pub allocated : Bool

module _ {W Raw : Type 0} (R : Reader W Raw) where
  -- the number of lost packets, where UINT64_MAX is not known
  unfoldable pub lost_packets : Input W → ℕ
  lost_packets input =
      let lost = R.dropped_packets input.world in
      if input.trace then if lost == 2 ^ 64 - 1 then 0 else lost else input.current_packets_dropped

  -- the counters after a report
  unfoldable pub count_up : Input W → ℕ → Input W
  unfolding lost_packets
  count_up input now = record input {
    total_packets_read = add64 input.total_packets_read input.current_packets_read;
    total_bytes_read = add64 input.total_bytes_read input.current_bytes_read;
    total_packets_dropped = add64 input.total_packets_dropped (lost_packets input);
    current_packets_read = 0;
    current_bytes_read = 0;
    current_packets_dropped = 0;
    last_report_time = some now;
  }

  -- `dns_input_report`
  unfoldable pub report : Input W → Bool → Input W
  unfolding count_up
  report input force =
      let (now, w) = R.current_us_time input.world in
      let read : Input W = record input { world = w } in
      if not force
        && not (next_rotation 0 input.report_period_sec input.last_report_time (some now))
      then read
      else count_up read now

  -- `dns_input_output_frame`
  unfoldable pub output_frame : Input W → Option (Input W)
  unfolding report
  output_frame input = do
    f ← input.frame
    some (record (report input false) {
      output = input.output ++ f ∷ [];
      frame = some (create_frame f.time_end f.time_end);
    })

  -- the body of the loop: the frame ends after its longest duration
  unfoldable pub end_frame : Input W → Frame → ℕ → Option (Input W)
  unfolding at_most output_frame
  end_frame input f start = do
    assert (at_most f.time_end (start + input.frame_max_duration))
    output_frame (record input {
      frame = some (record f { time_end = some (start + input.frame_max_duration) });
    })

  -- `while (time >= input->frame->time_start + input->frame_max_duration)`
  unfoldable pub advance_loop : ℕ → ℕ → Input W → Option (Input W)
  unfolding end_frame
  advance_loop zero time input = none
  advance_loop (suc fuel) time input = do
    f ← input.frame
    start ← f.time_start
    let rest = (end_frame input f start >>= advance_loop fuel time)
    if leb (start + input.frame_max_duration) time then rest else some input

  -- `dns_input_advance_time_to`; a time before the frame's start is only reported
  unfoldable pub advance_time_to : Input W → ℕ → Option (Input W)
  unfolding start_if_unset advance_loop later
  advance_time_to input time = do
    f ← input.frame
    input' ←
        advance_loop (time + 2) time
          (record input { frame = some (start_if_unset f f.time_start time) })
    f' ← input'.frame
    some (record input' { frame = some (record f' { time_end = later f'.time_end time }) })

  -- `dns_input_finish`
  unfoldable pub finish : Input W → Option (Input W)
  unfolding output_frame
  finish input = do
    input' ← output_frame input
    f ← input'.frame
    some (record input' {
      world = if input'.dumper then R.close_dump input'.world else input'.world;
      output = input'.output ++ record f { type = 1 } ∷ [];
      frame = none;
    })

  -- a new frame, if the packet would make the present one too large
  unfoldable pub make_space : Input W → Packet → Option (Input W)
  unfolding output_frame
  make_space input pkt = do
    f ← input.frame
    if ltb 0 f.count && ltb input.frame_max_size (add64 f.size pkt.memory_size)
        then output_frame input
        else some input

  unfoldable pub add_packet : Input W → Packet → Option (Input W)
  unfolding advance_time_to make_space
  add_packet input pkt = do
    input' ← advance_time_to input pkt.ts
    input'' ← make_space input' pkt
    f ← input''.frame
    some (record input'' { frame = some (append_packet f pkt) })

  -- what follows the writing to the dump: on an error the dump is given up
  unfoldable pub after_dump : Input W → Bool × W → Option (Input W)
  after_dump input (true, w) = some (record input { world = w })
  after_dump input (false, w) =
      R.destroy_dump w >>= λ w'. some (record input { world = w'; dumper = false })

  unfoldable pub handle_parsed : Input W → Raw → Parsed → Option (Input W)
  unfolding add_packet after_dump
  handle_parsed input raw (parsed pkt) = add_packet input pkt
  handle_parsed input raw (dropped reason) =
      if input.dumper then after_dump input (R.dump_packet input.world raw reason) else some input

  -- `dns_input_process_read_packet`
  unfoldable pub process_read_packet : Input W → Raw → Option (Input W)
  unfolding handle_parsed
  process_read_packet input raw =
      handle_parsed
        (record input {
          current_packets_read = add64 input.current_packets_read 1;
          current_bytes_read = add64 input.current_bytes_read (R.wire_length raw);
        })
        raw (R.create_packet raw)

  unfoldable pub catch_up : Input W → ℕ × W → Option (Input W)
  unfolding is_behind advance_time_to
  catch_up input (now, w) = do
    f ← input.frame
    let read : Input W = record input { world = w }
    if is_behind f.time_end input.real_time_grace now
        then advance_time_to read (now - input.real_time_grace)
        else some read

  -- `dns_input_process_catch_real_time`
  unfoldable pub catch_real_time : Input W → Option (Input W)
  unfolding catch_up
  catch_real_time input =
      if input.online then catch_up input (R.current_us_time input.world) else some input

  -- `dns_input_trace_close`
  unfoldable pub trace_close : Input W → Option (Input W)
  trace_close input = do
    assert input.trace
    f ← input.frame
    some (record input { bpf_filter = false; trace = false })

  unfoldable pub close_with : Input W → Returned → Option (Returned × Input W)
  unfolding trace_close
  close_with input r = trace_close input >>= λ input'. some (r, input')

  -- the loop of `dns_input_process` on the events that come; `iowait true` is an error of `select`
  unfoldable pub process_loop : List (Event Raw) → Input W → Option (Returned × Input W)
  unfolding process_read_packet catch_real_time close_with report
  process_loop [] input = none
  process_loop (stop ∷ evs) input = close_with (report input true) ret_ok
  process_loop (terminate true ∷ evs) input = close_with (report input true) ret_err
  process_loop (terminate false ∷ evs) input = close_with (report input true) ret_ok
  process_loop (packet raw ∷ evs) input = process_read_packet input raw >>= process_loop evs
  process_loop (sleep ∷ evs) input = catch_real_time input >>= process_loop evs
  process_loop (iowait true ∷ evs) input =
      catch_real_time input >>= λ input'. close_with input' ret_err
  process_loop (iowait false ∷ evs) input = catch_real_time input >>= process_loop evs
  process_loop (unknown ∷ evs) input = none

  -- the time of an online trace starts at once
  unfoldable pub advance_online : Input W → Option (Input W)
  unfolding advance_time_to
  advance_online input =
      let (now, w) = R.current_us_time input.world in
      if input.online then advance_time_to (record input { world = w }) now else some input

  -- `trace_start` and the packet
  unfoldable pub start_trace : Opening → Input W → Option (Returned × Input W)
  start_trace o input =
      if o.started
      then (if o.allocated then some (ret_ok, input) else none)
      else some (ret_err, record input { bpf_filter = false; trace = false })

  -- the filter is set, whether or not it is accepted
  unfoldable pub apply_filter : Opening → Input W → Option (Returned × Input W)
  unfolding start_trace
  apply_filter o input = do
    assert (not input.bpf_filter)
    if o.filter_set
        then start_trace o (record input { bpf_filter = true })
        else some (ret_err, record input { bpf_filter = true; trace = false })

  unfoldable pub configure : Opening → Input W → Option (Returned × Input W)
  unfolding apply_filter
  configure o input =
      if o.configured then apply_filter o input else some (ret_err, record input { trace = false })

  -- `dns_input_trace_open`; there is always a filter, which may be empty
  unfoldable pub trace_open : Opening → Input W → Option (Returned × Input W)
  unfolding advance_online configure
  trace_open o input = do
    assert (not input.trace)
    (if o.created
        then advance_online (record input { trace = true }) >>= configure o
        else some (ret_err, input))

  -- `last_report_time` before the loop, so that there is no report at once
  unfoldable pub mark_report : Input W → Time → Input W
  mark_report input none =
      let (now, w) = R.current_us_time input.world in
      record input { world = w; last_report_time = some now }
  mark_report input (some t) = input

  unfoldable pub process_opened :
      List (Event Raw) → Returned × Input W → Option (Returned × Input W)
  unfolding process_loop mark_report
  process_opened evs (ret_err, input) = some (ret_err, input)
  process_opened evs (ret_ok, input) = process_loop evs (mark_report input input.last_report_time)

  -- `dns_input_process`
  unfoldable pub process : Opening → List (Event Raw) → Input W → Option (Returned × Input W)
  unfolding trace_open process_opened
  process o evs input = trace_open o input >>= process_opened evs
