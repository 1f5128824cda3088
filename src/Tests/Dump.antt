-- ===== src/Tests/Dump.antt =====
-- Three packets and a dump with a period of a minute, and a dump whose write fails.
use dns_collector.Prelude.{
  ℕ, suc, ◌+◌, ◌-◌, ◌*◌, ◌/◌, ◌≡◌, ◌≤◌, ◌⊎◌, inr, max, arith, refl, true, false, some, none, List,
  [], ◌∷◌, All, ltb, ◌>>=◌,
}
use dns_collector.Clock.{Timespec, time_from_timespec, time_strftime}
use dns_collector.Config.{pos, negsuc}
use dns_collector.Dump.{
  Double, Tracer, TraceFile, Dump, dump_err, written_count, last_or, create, close, begin_trace,
  dump_all, dump_packet, dump_destroy,
}
use dns_collector.Dump.Spec.{IsReliable, IsFile, packets_in}
use dns_collector.Dump.Files.{dump_all-writes}
use dns_collector.Dump.Unwritten.{dump_packet-unwritten}

-- whole numbers will do
abbrev whole : Double ℕ
whole = record {
  zero_f = 0;
  rate_min = 1;
  of_int = λ n. n;
  add = λ a b. a + b;
  sub = λ a b. a - b;
  mul = λ a b. a * b;
  div = λ a b. a / b;
  lt = ltb;
}

-- a packet is its time; the state counts what is written
abbrev tracer : Tracer ℕ Timespec
tracer = record {
  timespec = λ t. t;
  strftime = λ max fmt time. fmt;
  create_output = λ w uri. (true, w);
  config_output = λ w type level. (true, w);
  write_packet = λ w raw. (pos 60, suc w);
}

abbrev broken : Tracer ℕ Timespec
broken = record tracer { write_packet = λ w raw. (negsuc 0, w) }

abbrev dump_path : List ℕ
dump_path = b'd' ∷ []

tracer-IsReliable : IsReliable tracer dump_path
unfolding time_strftime
tracer-IsReliable = record {
  creates = λ w uri. refl;
  configures = λ w type level. refl;
  writes = λ w raw. (59, suc w, refl);
  names = λ time. refl;
}

abbrev at_second : ℕ → Timespec
at_second s = record { tv_sec = s; tv_nsec = 0 }

abbrev three_packets : List Timespec
three_packets = at_second 1 ∷ at_second 50 ∷ at_second 70 ∷ []

dump_all-writes_example :
    (d : Dump ℕ ℕ Timespec) × ((dump_all whole tracer three_packets
          (create whole tracer 0 60 dump_path 0 0 (pos 0))
        >>= close whole tracer)
      ≡ some d)
    × (d.trace ≡ none)
    × (packets_in d.closed ≡ three_packets)
    × All (IsFile tracer dump_path 60) d.closed
dump_all-writes_example =
    dump_all-writes whole tracer dump_path 60 tracer-IsReliable 0 0 0 (pos 0) three_packets refl

abbrev open_file : TraceFile Timespec
open_file = record { uri = dump_path; opened = 1000000; packets = [] }

abbrev with_file : Dump ℕ ℕ Timespec
with_file =
    begin_trace whole broken (create whole broken 0 60 dump_path 0 0 (pos 0)) dump_path 1000000

with_file-trace : with_file.trace ≡ some open_file
unfolding begin_trace
with_file-trace = refl

with_file-opened : with_file.dump_opened ≡ some 1000000
unfolding begin_trace create
with_file-opened = refl

-- the packet comes within a minute
with_file-soon :
    let event = time_from_timespec (at_second 2) in
    (with_file.period_sec ≡ 0)
    ⊎ (max event (last_or with_file.last_event event) ≤ 1000000 + with_file.period_sec * 1000000)
unfolding begin_trace create time_from_timespec last_or
with_file-soon = inr (omega arith)

with_file-unlimited : ltb 1 with_file.rate ≡ false
unfolding begin_trace create
with_file-unlimited = refl

with_file-fails : written_count (broken.write_packet with_file.world (at_second 2)).0 ≡ none
unfolding written_count
with_file-fails = refl

dump_packet-unwritten_example :
    (d' : Dump ℕ ℕ Timespec) × (dump_packet whole broken with_file (at_second 2)
      ≡ some (dump_err, d'))
    × (d'.trace ≡ some open_file)
    × (dump_destroy whole broken d' ≡ none)
dump_packet-unwritten_example =
    dump_packet-unwritten whole broken with_file (at_second 2) open_file 1000000 with_file-trace
      with_file-opened with_file-soon with_file-unlimited with_file-fails
