-- ===== src/Dump/Spec.antt =====
-- The files of a dump without a rate limit, and what its fields say of them.
use dns_collector.Prelude.{
  ℕ, suc, ◌+◌, ◌-◌, ◌*◌, ◌%◌, ◌^◌, ◌≤◌, ◌≡◌, refl, sym, ◌∙◌, ap, true, false, Option, none, some,
  List, [], ◌∷◌, ◌++◌, append_assoc, ◌==◌, ◌⊎◌, is_some, length, All,
}
use dns_collector.Clock.{time_from_timespec, time_strftime}
use dns_collector.Config.{ℤ, pos}
use dns_collector.Output.{filename_extra}
use dns_collector.Dump.{Double, Tracer, TraceFile, Dump, uri_prefix}

-- the files of a dump, the open one last
unfoldable pub the_open : {Raw : Type 0} → Option (TraceFile Raw) → List (TraceFile Raw)
the_open none = []
the_open (some file) = file ∷ []

unfoldable pub packets_in : {Raw : Type 0} → List (TraceFile Raw) → List Raw
packets_in [] = []
packets_in (f ∷ fs) = f.packets ++ packets_in fs

pub packets_in-append :
    {Raw : Type 0} (fs gs : List (TraceFile Raw))
    → packets_in (fs ++ gs) ≡ packets_in fs ++ packets_in gs
unfolding packets_in
packets_in-append [] gs = refl
packets_in-append (f ∷ fs) gs =
    ap (λ x. f.packets ++ x) (packets_in-append fs gs)
    ∙ sym (append_assoc f.packets (packets_in fs) (packets_in gs))

-- the name of a file that is opened at the time
abbrev pub name_at : {W Raw : Type 0} → Tracer W Raw → List ℕ → ℕ → List ℕ
name_at T path_fmt time =
    time_strftime T.strftime (length path_fmt + filename_extra + 10 - length uri_prefix) path_fmt
      time

abbrev pub event : {W Raw : Type 0} → Tracer W Raw → Raw → ℕ
event T raw = time_from_timespec (T.timespec raw)

-- Nothing fails: traces can be created, set up and written, and names are not too long.
pub record IsReliable {W Raw : Type 0} (T : Tracer W Raw) (path_fmt : List ℕ) : Type 0 where
  pub creates : (w : W) (uri : List ℕ) → (T.create_output w uri).0 ≡ true
  pub configures : (w : W) (type : ℕ) (level : ℤ) → (T.config_output w type level).0 ≡ true
  pub writes : (w : W) (raw : Raw) → (n : ℕ) × (w' : W) × (T.write_packet w raw ≡ (pos (suc n), w'))
  pub names : (time : ℕ) → (length (name_at T path_fmt time) == 0) ≡ false

-- The file is named after the time at which it was opened, and with a period it has no packet that
-- is later than the period after that.
pub record IsFile {W Raw : Type 0} (T : Tracer W Raw) (path_fmt : List ℕ) (period : ℕ)
    (f : TraceFile Raw) : Type 0 where
  pub named : f.uri ≡ uri_prefix ++ name_at T path_fmt f.opened
  pub timely : (period ≡ 0) ⊎ All (λ raw. event T raw ≤ f.opened + period * 1000000) f.packets

module _ {F W Raw : Type 0} (D : Double F) (T : Tracer W Raw) (path_fmt : List ℕ) (period : ℕ) where
  -- what the dump's fields say of the open file
  abbrev pub Agrees : Dump F W Raw → Option (TraceFile Raw) → Type 0
  Agrees d none = Unit
  Agrees d (some f) =
      (is_some d.uri ≡ true)
      × (d.dump_opened ≡ some f.opened)
      × (d.current_dumped ≡ length f.packets % 2 ^ 64)

  -- The dump has closed the files `done` and has the file `o` open, if any.
  pub record IsDumping (d : Dump F W Raw) (done : List (TraceFile Raw)) (o : Option (TraceFile Raw))
      : Type 0 where
    pub trace : d.trace ≡ o
    pub closed : d.closed ≡ done
    pub same_fmt : d.path_fmt ≡ path_fmt
    pub same_period : d.period_sec ≡ period
    pub unlimited : D.lt D.rate_min d.rate ≡ false
    pub agrees : Agrees d o
    pub files : All (IsFile T path_fmt period) (done ++ the_open o)
