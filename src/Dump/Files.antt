-- ===== src/Dump/Files.antt =====
-- The files that a dump without a rate limit leaves behind.
use mathlib.Core.Option.{some_inj}
use dns_collector.Prelude.{
  ℕ, ◌+◌, ◌*◌, ◌≤◌, ◌≡◌, refl, sym, ◌∙◌, ap, subst, Bool, false, ◌&&◌, Option, none, some, List, [],
  ◌∷◌, ◌++◌, append_assoc, append-nil, ltb, ◌⊎◌, inl, inr, Bool-cases, is_some, max, All, arith,
  ◌>>=◌, >>=-some,
}
use dns_collector.Frame.{Time}
use dns_collector.Clock.{next_rotation, rotation_due, or_current}
use dns_collector.Config.{ℤ}
use dns_collector.Dump.{
  Double, Tracer, TraceFile, Dump, dump_ok, last_or, create, close, rotate, close_trace,
  write_trace, dump_all, on_ok, after_open, write_dump, rotate_write, dump_packet,
}
use dns_collector.Dump.Spec.{
  the_open, packets_in, packets_in-append, event, IsReliable, IsFile, Agrees, IsDumping,
}
use dns_collector.Dump.Steps.{close-IsDumping, open_dump-IsDumping, write_open-IsDumping}

module _ {F W Raw : Type 0} (D : Double F) (T : Tracer W Raw) (path_fmt : List ℕ) (period : ℕ) where
  module _ (r : IsReliable T path_fmt) where
    -- The packets `raws` have come, and stand in the files in this order.
    pub record Dumped (d : Dump F W Raw) (raws : List Raw) : Type 0 where
      pub done : List (TraceFile Raw)
      pub open_file : Option (TraceFile Raw)
      pub dumping : IsDumping D T path_fmt period d done open_file
      pub same : packets_in (done ++ the_open open_file) ≡ raws

    -- a packet more is in the last file
    packets_in-more :
        (done : List (TraceFile Raw)) (f : TraceFile Raw) (raw : Raw)
        → packets_in (done ++ record f { packets = f.packets ++ raw ∷ [] } ∷ [])
          ≡ packets_in (done ++ f ∷ []) ++ raw ∷ []
    unfolding packets_in
    packets_in-more done f raw =
        packets_in-append done (record f { packets = f.packets ++ raw ∷ [] } ∷ [])
        ∙ ap (λ x. packets_in done ++ x) (append-nil (f.packets ++ raw ∷ []))
        ∙ sym (append_assoc (packets_in done) f.packets (raw ∷ []))
        ∙ ap (λ x. x ++ raw ∷ [])
            (ap (λ x. packets_in done ++ x) (sym (append-nil f.packets))
              ∙ sym (packets_in-append done (f ∷ [])))

    no_packets :
        (f : TraceFile Raw) → f.packets ≡ [] → packets_in (f ∷ []) ≡ packets_in {Raw = Raw} []
    unfolding packets_in
    no_packets f empty = append-nil f.packets ∙ empty

    write_trace-Dumped :
        (d : Dump F W Raw) (time : ℕ) (raw : Raw) (done : List (TraceFile Raw))
        (o : Option (TraceFile Raw))
        → IsDumping D T path_fmt period d done o
        → event T raw ≤ time
        → ((f : TraceFile Raw) → o ≡ some f → (period ≡ 0) ⊎ (time ≤ f.opened + period * 1000000))
        → (d' : Dump F W Raw) × (write_dump D T d time raw ≡ some (dump_ok, d'))
          × Dumped d' (packets_in (done ++ the_open o) ++ raw ∷ [])
    unfolding write_dump write_trace after_open the_open
    write_trace-Dumped d time raw done (some f) h soon due =
        let in_time : (period ≡ 0) ⊎ (event T raw ≤ f.opened + period * 1000000) =
          elim (due f refl) [ inl e ↦ inl e | inr e ↦ inr (omega (arith, soon, e)) ] in
        let (d', ran, h') = write_open-IsDumping D T path_fmt period r d done f raw h in_time in
        (
          d',
          ap (write_trace D T d time raw) h.trace ∙ ran,
          record {
            done = done;
            open_file = some (record f { packets = f.packets ++ raw ∷ [] });
            dumping = h';
            same = packets_in-more done f raw;
          },
        )
    write_trace-Dumped d time raw done none h soon due =
        let (d1, f, opened, h1, empty, at_time) =
          open_dump-IsDumping D T path_fmt period r d done time h in
        let (d', ran, h') =
          write_open-IsDumping D T path_fmt period r d1 done f raw h1
            (inr (omega (arith, soon, at_time))) in
        (
          d',
          ap (write_trace D T d time raw) h.trace ∙ >>=-some opened _ ∙ ran,
          record {
            done = done;
            open_file = some (record f { packets = f.packets ++ raw ∷ [] });
            dumping = h';
            same =
                packets_in-more done f raw
                ∙ ap (λ x. x ++ raw ∷ [])
                    (packets_in-append done (f ∷ [])
                      ∙ ap (λ x. packets_in done ++ x) (no_packets f empty)
                      ∙ sym (packets_in-append done []));
          },
        )

    abbrev is_due : ℕ → Option (TraceFile Raw) → ℕ → Time → Bool
    is_due time trace period_sec opened =
        is_some trace && ltb 0 period_sec && next_rotation 0 period_sec opened (some time)

    Agrees-seen :
        (d : Dump F W Raw) (last : ℕ) (o : Option (TraceFile Raw))
        → Agrees D T path_fmt period d o
        → Agrees D T path_fmt period (record d { last_event = some last }) o
    Agrees-seen d last none h = tt
    Agrees-seen d last (some f) h = h

    -- the time has come to close the file, or has not
    rotate-IsDumping :
        (d : Dump F W Raw) (time : ℕ) (done : List (TraceFile Raw)) (o : Option (TraceFile Raw))
        → IsDumping D T path_fmt period d done o
        → (d' : Dump F W Raw) × (done' : List (TraceFile Raw)) × (o' : Option (TraceFile Raw))
          × (rotate D T d time ≡ some d')
          × IsDumping D T path_fmt period d' done' o'
          × (done' ++ the_open o' ≡ done ++ the_open o)
          × ((f : TraceFile Raw)
              → o' ≡ some f
              → (period ≡ 0) ⊎ (time ≤ f.opened + period * 1000000))
    unfolding rotate the_open next_rotation rotation_due or_current
    rotate-IsDumping d time done none h =
        let nothing_open : is_some d.trace ≡ false = ap is_some h.trace in
        (d, done, none, rw nothing_open refl, h, refl, λ f e. cc)
    rotate-IsDumping d time done (some f) h =
        let (d', ran, h') = close-IsDumping D T path_fmt period d done f h in
        elim (Bool-cases (is_due time d.trace d.period_sec d.dump_opened)) [
          | inl e ↦
              (d', done ++ f ∷ [], none, rw e ran, h', append-nil (done ++ f ∷ []), λ g same. cc)
          | inr e ↦ (
            d,
            done,
            some f,
            rw e refl,
            h,
            refl,
            λ g same.
                let now =
                  sym (
                    ap (λ x. is_due time x d.period_sec d.dump_opened) h.trace
                    ∙ ap (λ x. is_due time (some f) x d.dump_opened) h.same_period
                    ∙ ap (is_due time (some f) period) h.agrees.1)
                  ∙ e in
                let is : f.opened ≡ g.opened =
                  ap (λ (x : TraceFile Raw). x.opened) (some_inj.0 same) in
                subst (λ x. (period ≡ 0) ⊎ (time ≤ x + period * 1000000)) is (ground (arith, now)),
          )
        ]

    -- A packet that comes to a dump without a rate limit is written.
    dump_packet-Dumped :
        (d : Dump F W Raw) (raws : List Raw) (raw : Raw)
        → Dumped d raws
        → (d' : Dump F W Raw) × (dump_packet D T d raw ≡ some (dump_ok, d'))
          × Dumped d' (raws ++ raw ∷ [])
    unfolding dump_packet rotate_write
    dump_packet-Dumped d raws raw k =
        let last = last_or d.last_event (event T raw) in
        let time = max (event T raw) last in
        let seen : Dump F W Raw = record d { last_event = some last } in
        let h = k.dumping in
        let h0 : IsDumping D T path_fmt period seen k.done k.open_file = record {
          trace = h.trace;
          closed = h.closed;
          same_fmt = h.same_fmt;
          same_period = h.same_period;
          unlimited = h.unlimited;
          agrees = Agrees-seen d last k.open_file h.agrees;
          files = h.files;
        } in
        let (d1, done, o, rotated, h1, same, due) =
          rotate-IsDumping seen time k.done k.open_file h0 in
        let (d', ran, k') = write_trace-Dumped d1 time raw done o h1 (omega arith) due in
        (
          d',
          rw (h.unlimited) (>>=-some rotated _ ∙ ran),
          subst (Dumped d')
              (ap (λ x. packets_in x ++ raw ∷ []) same ∙ ap (λ x. x ++ raw ∷ []) k.same) k',
        )

    dump_all-Dumped :
        (d : Dump F W Raw) (before raws : List Raw)
        → Dumped d before
        → (d' : Dump F W Raw) × (dump_all D T raws d ≡ some d') × Dumped d' (before ++ raws)
    unfolding dump_all on_ok
    dump_all-Dumped d before [] k = (d, refl, subst (Dumped d) (sym (append-nil before)) k)
    dump_all-Dumped d before (raw ∷ raws) k =
        let (d1, ran, k1) = dump_packet-Dumped d before raw k in
        let (d', rest, k') = dump_all-Dumped d1 (before ++ raw ∷ []) raws k1 in
        (d', >>=-some ran _ ∙ rest, subst (Dumped d') (append_assoc before (raw ∷ []) raws) k')

    close_all :
        (d : Dump F W Raw) (done : List (TraceFile Raw)) (o : Option (TraceFile Raw))
        → IsDumping D T path_fmt period d done o
        → (d' : Dump F W Raw) × (close D T d ≡ some d')
          × IsDumping D T path_fmt period d' (done ++ the_open o) none
    unfolding close close_trace the_open
    close_all d done none h = (
      d,
      ap (close_trace D T d) h.trace,
      subst (λ x. IsDumping D T path_fmt period d x none) (sym (append-nil done)) h,
    )
    close_all d done (some f) h = close-IsDumping D T path_fmt period d done f h

    -- If nothing fails and the limit of the rate is not above 1e-6, then a new dump writes all
    -- packets that come, in their order, to files that are all closed when it is closed. Each file
    -- is named after the time at which it was opened, and with a period has no packet later than
    -- the period after that.
    pub dump_all-writes :
        (w : W) (rate : F) (type : ℕ) (level : ℤ) (raws : List Raw)
        → D.lt D.rate_min rate ≡ false
        → (d : Dump F W Raw) × ((dump_all D T raws (create D T w period path_fmt rate type level)
              >>= close D T)
            ≡ some d)
          × (d.trace ≡ none)
          × (packets_in d.closed ≡ raws)
          × All (IsFile T path_fmt period) d.closed
    unfolding create the_open packets_in
    dump_all-writes w rate type level raws unlimited =
        let start : Dumped (create D T w period path_fmt rate type level) [] = record {
          done = [];
          open_file = none;
          dumping = record {
            trace = refl;
            closed = refl;
            same_fmt = refl;
            same_period = refl;
            unlimited = unlimited;
            agrees = tt;
            files = tt;
          };
          same = refl;
        } in
        let (d', ran, k) =
          dump_all-Dumped (create D T w period path_fmt rate type level) [] raws start in
        let (d, closed, h) = close_all d' k.done k.open_file k.dumping in
        let all_closed : d.closed ≡ k.done ++ the_open k.open_file = h.closed in
        (
          d,
          >>=-some ran _ ∙ closed,
          h.trace,
          ap packets_in all_closed ∙ k.same,
          subst (All (IsFile T path_fmt period)) (append-nil _ ∙ sym all_closed) h.files,
        )
