-- ===== src/Dump/Steps.antt =====
-- The opening, the writing and the closing of a dump's file.
use dns_collector.Prelude.{
  ℕ, suc, ◌+◌, ◌*◌, ◌≤◌, ◌≡◌, refl, sym, ◌∙◌, ap, subst, false, not, ◌&&◌, none, some, List, [],
  ◌∷◌, ◌++◌, append-nil, ◌==◌, ◌⊎◌, inl, inr, Bool-cases, is_some, length-append, add64, All,
  All-append, All-left, All-right, arith, >>=-some,
}
use dns_collector.Config.{above}
use dns_collector.Dump.{
  Double, Tracer, TraceFile, Dump, dump_ok, uri_prefix, compresstype_none, written_count, close,
  expand_uri, begin_trace, set_compression, open_dump, close_trace, after_write, write_open,
}
use dns_collector.Dump.Spec.{the_open, name_at, event, IsReliable, IsFile, IsDumping}

module _ {F W Raw : Type 0} (D : Double F) (T : Tracer W Raw) (path_fmt : List ℕ) (period : ℕ) where
  pub close-IsDumping :
      (d : Dump F W Raw) (done : List (TraceFile Raw)) (f : TraceFile Raw)
      → IsDumping D T path_fmt period d done (some f)
      → (d' : Dump F W Raw) × (close D T d ≡ some d')
        × IsDumping D T path_fmt period d' (done ++ f ∷ []) none
  unfolding close close_trace the_open
  close-IsDumping d done f h = (
    record d { closed = d.closed ++ f ∷ []; trace = none; uri = none },
    ap (close_trace D T d) h.trace ∙ rw h.agrees.0 refl,
    record {
      trace = refl;
      closed = ap (λ x. x ++ f ∷ []) h.closed;
      same_fmt = h.same_fmt;
      same_period = h.same_period;
      unlimited = h.unlimited;
      agrees = tt;
      files = subst (All (IsFile T path_fmt period)) (sym (append-nil (done ++ f ∷ []))) h.files;
    },
  )

  module _ (r : IsReliable T path_fmt) where
    expand_uri-name :
        (d : Dump F W Raw) (time : ℕ)
        → d.path_fmt ≡ path_fmt
        → expand_uri D T d time ≡ some (uri_prefix ++ name_at T path_fmt time)
    unfolding expand_uri
    expand_uri-name d time e = rw (e, r.names time) refl

    set_compression-starts :
        (d : Dump F W Raw) (name : List ℕ) (time : ℕ)
        → (w : W) × (set_compression D T d name time
            ≡ (dump_ok, begin_trace D T (record d { world = w }) name time))
    unfolding set_compression
    set_compression-starts d name time =
        elim (Bool-cases (above d.compress_level 0 && not (d.compress_type == compresstype_none))) [
          | inl e ↦ (
            (T.config_output d.world d.compress_type d.compress_level).1,
            rw (e, r.configures d.world d.compress_type d.compress_level) refl,
          )
          | inr e ↦ (d.world, rw e refl)
        ]

    open_dump-created :
        (d : Dump F W Raw) (time : ℕ)
        → d.trace ≡ none
        → d.path_fmt ≡ path_fmt
        → let name = uri_prefix ++ name_at T path_fmt time in
          let w = (T.create_output d.world name).1 in
          open_dump D T d time ≡ some (set_compression D T (record d { world = w }) name time)
    unfolding open_dump
    open_dump-created d time no_trace fmt =
        let name = uri_prefix ++ name_at T path_fmt time in
        let closed_now : is_some d.trace ≡ false = ap is_some no_trace in
        rw closed_now (>>=-some (expand_uri-name d time fmt) _ ∙ rw (r.creates d.world name) refl)

    pub open_dump-IsDumping :
        (d : Dump F W Raw) (done : List (TraceFile Raw)) (time : ℕ)
        → IsDumping D T path_fmt period d done none
        → (d' : Dump F W Raw) × (f : TraceFile Raw) × (open_dump D T d time ≡ some (dump_ok, d'))
          × IsDumping D T path_fmt period d' done (some f)
          × (f.packets ≡ [])
          × (f.opened ≡ time)
    unfolding begin_trace the_open
    open_dump-IsDumping d done time h =
        let name = uri_prefix ++ name_at T path_fmt time in
        let w = (T.create_output d.world name).1 in
        let (w', started) = set_compression-starts (record d { world = w }) name time in
        let f : TraceFile Raw = record { uri = name; opened = time; packets = [] } in
        (
          begin_trace D T (record d { world = w' }) name time,
          f,
          open_dump-created d time h.trace h.same_fmt ∙ ap some started,
          record {
            trace = refl;
            closed = h.closed;
            same_fmt = h.same_fmt;
            same_period = h.same_period;
            unlimited = h.unlimited;
            agrees = (refl, refl, omega arith);
            files =
                All-append (IsFile T path_fmt period) done (f ∷ [])
                  (subst (All (IsFile T path_fmt period)) (append-nil done) h.files)
                  (record { named = refl; timely = inr tt }, tt);
          },
          refl,
          refl,
        )

    -- a packet more in the open file
    IsFile-more :
        (f : TraceFile Raw) (raw : Raw)
        → IsFile T path_fmt period f
        → (period ≡ 0) ⊎ (event T raw ≤ f.opened + period * 1000000)
        → IsFile T path_fmt period (record f { packets = f.packets ++ raw ∷ [] })
    IsFile-more f raw h soon = record {
      named = h.named;
      timely = elim soon [
        | inl none_set ↦ inl none_set
        | inr now ↦ elim h.timely [
          | inl none_set ↦ inl none_set
          | inr before ↦ inr (All-append _ f.packets (raw ∷ []) before (now, tt))
        ]
      ];
    }

    pub write_open-IsDumping :
        (d : Dump F W Raw) (done : List (TraceFile Raw)) (f : TraceFile Raw) (raw : Raw)
        → IsDumping D T path_fmt period d done (some f)
        → (period ≡ 0) ⊎ (event T raw ≤ f.opened + period * 1000000)
        → (d' : Dump F W Raw) × (write_open D T d raw ≡ some (dump_ok, d'))
          × IsDumping D T path_fmt period d' done
              (some (record f { packets = f.packets ++ raw ∷ [] }))
    unfolding write_open after_write written_count the_open
    write_open-IsDumping d done f raw h soon =
        let (n, w, wrote) = r.writes d.world raw in
        let f' : TraceFile Raw = record f { packets = f.packets ++ raw ∷ [] } in
        let d' : Dump F W Raw = record d {
          world = w;
          trace = some f';
          current_dumped = add64 d.current_dumped 1;
          current_bytes = add64 d.current_bytes (suc n);
          tokens = D.sub d.tokens (D.of_int (suc n));
        } in
        let all_files : All (IsFile T path_fmt period) (done ++ f ∷ []) = h.files in
        (
          d',
          >>=-some h.trace _ ∙ rw wrote refl,
          record {
            trace = refl;
            closed = h.closed;
            same_fmt = h.same_fmt;
            same_period = h.same_period;
            unlimited = h.unlimited;
            agrees = (
              h.agrees.0,
              h.agrees.1,
              omega (arith, h.agrees.2, length-append f.packets (raw ∷ [])),
            );
            files =
                All-append (IsFile T path_fmt period) done (f' ∷ [])
                  (All-left (IsFile T path_fmt period) done (f ∷ []) all_files)
                  (
                    IsFile-more f raw
                        (All-right (IsFile T path_fmt period) done (f ∷ []) all_files).0 soon,
                    tt,
                  );
          },
        )
