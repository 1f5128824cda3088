-- ===== src/Dump/Unwritten.antt =====
-- `dns_dump_packet` when a packet cannot be written.
use dns_collector.Prelude.{
  ℕ, ◌+◌, ◌*◌, ◌≤◌, ◌≡◌, ◌⊎◌, inl, inr, ◌&&◌, refl, ◌∙◌, ap, true, false, none, some, ltb, is_some,
  max, arith, >>=-some,
}
use dns_collector.Clock.{time_from_timespec, next_rotation, rotation_due, or_current}
use dns_collector.Dump.{
  Double, Tracer, TraceFile, Dump, dump_err, written_count, last_or, rotate, write_trace,
  dump_destroy, after_write, write_open, write_dump, rotate_write, dump_packet,
}

not_due :
    (period_sec opened time : ℕ)
    → (period_sec ≡ 0) ⊎ (time ≤ opened + period_sec * 1000000)
    → (ltb 0 period_sec && next_rotation 0 period_sec (some opened) (some time)) ≡ false
unfolding next_rotation rotation_due or_current
not_due period_sec opened time (inl never) = ground (arith, never)
not_due period_sec opened time (inr soon) = ground (arith, soon)

-- A write that fails while a file is open that is not to be closed yet, without a rate limit: the
-- error is returned with the file still open, and destroying the dump fails an assertion. A file is
-- not to be closed yet if there is no period, or if no more than the period has passed from its
-- opening to the time of the packet or, if that is later, of the last one.
pub dump_packet-unwritten :
    {F W Raw : Type 0} (D : Double F) (T : Tracer W Raw) (d : Dump F W Raw) (raw : Raw)
    (f : TraceFile Raw) (opened : ℕ)
    → d.trace ≡ some f
    → d.dump_opened ≡ some opened
    → let event = time_from_timespec (T.timespec raw) in
      (d.period_sec ≡ 0)
        ⊎ (max event (last_or d.last_event event) ≤ opened + d.period_sec * 1000000)
      → D.lt D.rate_min d.rate ≡ false
      → written_count (T.write_packet d.world raw).0 ≡ none
      → (d' : Dump F W Raw) × (dump_packet D T d raw ≡ some (dump_err, d'))
        × (d'.trace ≡ some f)
        × (dump_destroy D T d' ≡ none)
unfolding dump_packet rotate_write rotate write_dump write_trace write_open after_write dump_destroy
dump_packet-unwritten D T d raw f opened open_now since soon unlimited failed =
    let last = last_or d.last_event (time_from_timespec (T.timespec raw)) in
    let time = max (time_from_timespec (T.timespec raw)) last in
    let w = (T.write_packet d.world raw).1 in
    let d' : Dump _ _ _ = record d { world = w; last_event = some last } in
    let stays : (ltb 0 d.period_sec && next_rotation 0 d.period_sec d.dump_opened (some time))
        ≡ false =
      ap (λ o. ltb 0 d.period_sec && next_rotation 0 d.period_sec o (some time)) since
      ∙ not_due d.period_sec opened time soon in
    let there : is_some d.trace ≡ true = ap is_some open_now in
    (
      d',
      rw unlimited (
          rw (there, stays)
            (ap (write_trace D T (record d { last_event = some last }) time raw) open_now
              ∙ >>=-some open_now _
              ∙ rw failed refl)),
      open_now,
      rw there refl,
    )
