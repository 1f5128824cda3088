-- ===== src/Dump.antt =====
-- src/dump.c: the packets that could not be parsed go to trace files, as far as a rate limit allows.
-- libtrace's output and the operations on `double` are parameters. `none` is a failed assertion or
-- `die`. A trace that is written is its name with the packets in it.
pub mod Spec
pub mod Steps
pub mod Files
pub mod Unwritten
use dns_collector.Prelude.{
  ℕ, zero, suc, ◌+◌, ◌-◌, Bool, true, false, not, ◌&&◌, Option, none, some, List, [], ◌∷◌, ◌++◌,
  ◌==◌, ltb, if◌then◌else◌, length, max, add64, is_some, assert, ◌>>=◌, ◌>>◌,
}
use dns_collector.Frame.{Time}
use dns_collector.Clock.{Timespec, time_from_timespec, time_strftime, next_rotation}
use dns_collector.Output.{filename_extra}
use dns_collector.Config.{ℤ, pos, negsuc, above}

-- what the code does with a `double`; `rate_min` is 1e-6
pub record Double (F : Type 0) : Type 0 where
  pub zero_f : F
  pub rate_min : F
  pub of_int : ℕ → F
  pub add : F → F → F
  pub sub : F → F → F
  pub mul : F → F → F
  pub div : F → F → F
  pub lt : F → F → Bool

-- libtrace's output in a state of type `W`: the time of a packet and `strftime`; whether a trace
-- can be created; whether both settings of compression are taken; and what `trace_write_packet`
-- returns.
pub record Tracer (W Raw : Type 0) : Type 0 where
  pub timespec : Raw → Timespec
  pub strftime : ℕ → List ℕ → ℕ → List ℕ
  pub create_output : W → List ℕ → Bool × W
  pub config_output : W → (type : ℕ) → (level : ℤ) → Bool × W
  pub write_packet : W → Raw → ℤ × W

-- a trace file: its name, when it was opened, and its packets
pub record TraceFile (Raw : Type 0) : Type 0 where
  pub uri : List ℕ
  pub opened : ℕ
  pub packets : List Raw

-- `struct dns_dump`; `trace` is the file that is open, and `closed` the files before it
pub record Dump (F W Raw : Type 0) : Type 0 where
  pub world : W
  pub closed : List (TraceFile Raw)
  pub period_sec : ℕ
  pub path_fmt : List ℕ
  pub uri : Option (List ℕ)
  pub trace : Option (TraceFile Raw)
  pub dump_opened : Time
  pub compress_type : ℕ
  pub compress_level : ℤ
  pub rate : F
  pub tokens : F
  pub last_event : Time
  pub current_dumped : ℕ
  pub current_bytes : ℕ
  pub current_skipped : ℕ

-- DNS_RET_OK or DNS_RET_ERR
pub data DumpRet : Type 0 where
  dump_ok dump_err : DumpRet

abbrev pub burst_mult : ℕ
burst_mult = 10

abbrev pub compresstype_none : ℕ
compresstype_none = 0

-- "pcapfile:"
abbrev pub uri_prefix : List ℕ
uri_prefix = b'p' ∷ b'c' ∷ b'a' ∷ b'p' ∷ b'f' ∷ b'i' ∷ b'l' ∷ b'e' ∷ b':' ∷ []

-- a number of packets or bytes more
unfoldable pub written_count : ℤ → Option ℕ
written_count (pos zero) = none
written_count (pos (suc n)) = some (suc n)
written_count (negsuc n) = none

-- `dump->last_event`, or the time of the packet if there is none
unfoldable pub last_or : Time → ℕ → ℕ
last_or none time = time
last_or (some last) time = last

module _ {F W Raw : Type 0} (D : Double F) (T : Tracer W Raw) where
  -- `DUMP_BURST_MULT * rate`
  unfoldable pub burst : F → F
  burst rate = D.mul (D.of_int burst_mult) rate

  -- `MIN(a, b)`
  unfoldable pub min_f : F → F → F
  min_f a b = if D.lt a b then a else b

  -- `dns_us_time_to_fsec`
  unfoldable pub time_to_fsec : ℕ → F
  time_to_fsec t = D.div (D.of_int t) (D.of_int 1000000)

  -- `dns_dump_create` with the configuration's values; `dump_opened` is zero
  unfoldable pub create : W → (period : ℕ) → (path_fmt : List ℕ) → F → ℕ → ℤ → Dump F W Raw
  unfolding burst
  create world period path_fmt rate type level = record {
    world = world;
    closed = [];
    period_sec = period;
    path_fmt = path_fmt;
    uri = none;
    trace = none;
    dump_opened = some 0;
    compress_type = type;
    compress_level = level;
    rate = rate;
    tokens = burst rate;
    last_event = none;
    current_dumped = 0;
    current_bytes = 0;
    current_skipped = 0;
  }

  -- `dns_dump_close`, with the trace that is open
  unfoldable pub close_trace : Dump F W Raw → Option (TraceFile Raw) → Option (Dump F W Raw)
  close_trace d none = some d
  close_trace d (some file) = do
    assert (is_some d.uri)
    some (record d { closed = d.closed ++ file ∷ []; trace = none; uri = none })

  unfoldable pub close : Dump F W Raw → Option (Dump F W Raw)
  unfolding close_trace
  close d = close_trace d d.trace

  -- the name of the file, or `die`
  unfoldable pub expand_uri : Dump F W Raw → ℕ → Option (List ℕ)
  expand_uri d time =
      let max_len = length d.path_fmt + filename_extra + 10 - length uri_prefix in
      let name = time_strftime T.strftime max_len d.path_fmt time in
      if length name == 0 then none else some (uri_prefix ++ name)

  -- the file is open, and the counters start again
  unfoldable pub begin_trace : Dump F W Raw → List ℕ → ℕ → Dump F W Raw
  unfolding burst
  begin_trace d name time =
      let file : TraceFile Raw = record { uri = name; opened = time; packets = [] } in
      record d {
        uri = some name;
        trace = some file;
        tokens = burst d.rate;
        last_event = some time;
        dump_opened = some time;
        current_dumped = 0;
        current_skipped = 0;
        current_bytes = 0;
      }

  -- the settings of compression, then the start
  unfoldable pub set_compression : Dump F W Raw → List ℕ → ℕ → DumpRet × Dump F W Raw
  unfolding begin_trace
  set_compression d name time =
      let (taken, w) = T.config_output d.world d.compress_type d.compress_level in
      if above d.compress_level 0 && not (d.compress_type == compresstype_none)
      then if taken
        then (dump_ok, begin_trace (record d { world = w }) name time)
        else (dump_err, record d { world = w; uri = some name })
      else (dump_ok, begin_trace d name time)

  -- `dns_dump_open`
  unfoldable pub open_dump : Dump F W Raw → ℕ → Option (DumpRet × Dump F W Raw)
  unfolding expand_uri set_compression
  open_dump d time = do
    assert (not (is_some d.trace))
    name ← expand_uri d time
    let (created, w) = T.create_output d.world name
    some (
        if created
        then set_compression (record d { world = w }) name time
        else (dump_err, record d { world = w; uri = some name }))

  -- `dns_dump_destroy`
  unfoldable pub dump_destroy : Dump F W Raw → Option W
  dump_destroy d = assert (not (is_some d.trace)) >> some d.world

  -- the tokens that have come since the last event
  unfoldable pub refill : Dump F W Raw → (last time : ℕ) → Dump F W Raw
  unfolding min_f time_to_fsec burst
  refill d last time = record d {
    tokens = min_f (D.add d.tokens (D.mul d.rate (time_to_fsec (time - last)))) (burst d.rate);
    last_event = some time;
  }

  -- the file is closed if it is time for another one
  unfoldable pub rotate : Dump F W Raw → ℕ → Option (Dump F W Raw)
  unfolding close
  rotate d time =
      if is_some d.trace
        && ltb 0 d.period_sec
        && next_rotation 0 d.period_sec d.dump_opened (some time)
      then close d
      else some d

  -- what `trace_write_packet` has returned
  unfoldable pub after_write :
      Dump F W Raw → TraceFile Raw → Raw → Option ℕ → DumpRet × Dump F W Raw
  after_write d file raw none = (dump_err, d)
  after_write d file raw (some n) = (
    dump_ok,
    record d {
      trace = some (record file { packets = file.packets ++ raw ∷ [] });
      current_dumped = add64 d.current_dumped 1;
      current_bytes = add64 d.current_bytes n;
      tokens = D.sub d.tokens (D.of_int n);
    },
  )

  -- the packet is written to the file that is open
  unfoldable pub write_open : Dump F W Raw → Raw → Option (DumpRet × Dump F W Raw)
  unfolding after_write written_count
  write_open d raw = do
    file ← d.trace
    let (r, w) = T.write_packet d.world raw
    some (after_write (record d { world = w }) file raw (written_count r))

  -- a file is opened if none is open
  unfoldable pub after_open : DumpRet → Dump F W Raw → Raw → Option (DumpRet × Dump F W Raw)
  unfolding write_open
  after_open dump_ok d raw = write_open d raw
  after_open dump_err d raw = some (dump_err, d)

  unfoldable pub write_trace :
      Dump F W Raw → ℕ → Raw → Option (TraceFile Raw) → Option (DumpRet × Dump F W Raw)
  unfolding open_dump after_open
  write_trace d time raw (some file) = write_open d raw
  write_trace d time raw none = open_dump d time >>= λ o. after_open o.0 o.1 raw

  unfoldable pub write_dump : Dump F W Raw → ℕ → Raw → Option (DumpRet × Dump F W Raw)
  unfolding write_trace
  write_dump d time raw = write_trace d time raw d.trace

  -- the rotation and the writing
  unfoldable pub rotate_write : Dump F W Raw → ℕ → Raw → Option (DumpRet × Dump F W Raw)
  unfolding rotate write_dump
  rotate_write d time raw = rotate d time >>= λ d'. write_dump d' time raw

  -- `dns_dump_packet`
  unfoldable pub dump_packet : Dump F W Raw → Raw → Option (DumpRet × Dump F W Raw)
  unfolding refill rotate_write last_or
  dump_packet d raw =
      let event = time_from_timespec (T.timespec raw) in
      let last = last_or d.last_event event in
      let time = max event last in
      let seen : Dump F W Raw = record d { last_event = some last } in
      let filled = refill seen last time in
      let skipped : Dump F W Raw = record filled {
        current_skipped = add64 filled.current_skipped 1;
      } in
      if D.lt D.rate_min d.rate
      then if D.lt filled.tokens D.zero_f
        then some (dump_ok, skipped)
        else rotate_write filled time raw
      else rotate_write seen time raw

  -- a client that goes on as long as there is no error
  unfoldable pub on_ok :
      (Dump F W Raw → Option (Dump F W Raw)) → DumpRet × Dump F W Raw → Option (Dump F W Raw)
  on_ok next (dump_ok, d) = next d
  on_ok next (dump_err, d) = none

  unfoldable pub dump_all : List Raw → Dump F W Raw → Option (Dump F W Raw)
  unfolding dump_packet on_ok
  dump_all [] d = some d
  dump_all (raw ∷ raws) d = dump_packet d raw >>= on_ok (dump_all raws)
