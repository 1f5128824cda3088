-- ===== src/Input/Frames.antt =====
-- The frames that the input hands over.
use dns_collector.Prelude.{
  ℕ, zero, suc, ◌+◌, ◌≤◌, ◌<◌, ◌≡◌, refl, sym, ap, subst, ◌∙◌, Bool, true, false, not, ◌&&◌, Option,
  none, some, List, [], ◌∷◌, ◌++◌, append-nil, leb, Bool-cases, inl, inr, All, All-append, All-imp,
  arith, ◌>>=◌, >>=-some, max,
}
use dns_collector.Packet.{Packet}
use dns_collector.Frame.{Time, Frame}
use dns_collector.Frame.{create as create_frame}
use dns_collector.Frame.Packets.{packets_of, packets_of-append}
use dns_collector.Frame.Inv.{NotAfter, IsValid, create-IsValid}
use dns_collector.Clock.{next_rotation}
use dns_collector.Output.{later}
use dns_collector.Input.{
  Reader, Input, at_most, start_frame, start_if_unset, report, count_up, output_frame, end_frame,
  advance_loop, advance_time_to,
}

-- The frame has no times yet and is empty, or it is not longer than the duration.
pub data Lasts (duration : ℕ) (f : Frame) : Type 0 where
  unset : f.time_start ≡ none → f.time_end ≡ none → f.packets ≡ [] → Lasts duration f
  lasts :
      (s e : ℕ)
      → f.time_start ≡ some s
      → f.time_end ≡ some e
      → s ≤ e
      → e ≤ s + duration
      → Lasts duration f

-- a frame as the input makes it
pub record IsRegular (duration : ℕ) (f : Frame) : Type 0 where
  pub kind : f.type ≡ 0
  pub valid : IsValid f
  pub span : Lasts duration f

-- The input fills the frame `f`, and the packets that it has got are those of the frames handed over
-- and of `f`, in order.
pub record Holds {W : Type 0} (opened : Bool) (duration : ℕ) (input : Input W) (f : Frame)
    (ps : List Packet) : Type 0 where
  pub same_duration : input.frame_max_duration ≡ duration
  pub same_trace : input.trace ≡ opened
  pub current : input.frame ≡ some f
  pub regular : IsRegular duration f
  pub handed_over : All (IsRegular duration) input.output
  pub conserved : packets_of input.output ++ f.packets ≡ ps

-- the same, for an input that a function returns; its frame reaches to the time at least
abbrev pub Reaches : {W : Type 0} → Bool → ℕ → ℕ → List Packet → Option (Input W) → Type 0
Reaches {W = W} opened duration time ps o =
    (input : Input W) × (f : Frame) × (e : ℕ) × (o ≡ some input)
    × Holds opened duration input f ps
    × (f.time_end ≡ some e)
    × (time ≤ e)

pub create-IsRegular : (duration : ℕ) (t : Time) → IsRegular duration (create_frame t t)
unfolding create_frame
create-IsRegular duration none = record {
  kind = refl;
  valid = create-IsValid none none;
  span = unset refl refl refl;
}
create-IsRegular duration (some e) = record {
  kind = refl;
  valid = create-IsValid (some e) (some e);
  span = lasts e e refl refl (omega arith) (omega arith);
}

-- a later end of a frame
later-IsValid :
    (f : Frame) (e t : ℕ)
    → f.time_end ≡ some e
    → e ≤ t
    → IsValid f
    → IsValid (record f { time_end = some t })
later-IsValid f e t is le v =
    let earlier : (q : Packet) → NotAfter q.ts f.time_end → NotAfter q.ts (some t) = λ q h.
      let before : q.ts ≤ e = subst (λ x. NotAfter q.ts x) is h in omega (arith, before, le) in
    record { counted = v.counted; sized = v.sized; covered = All-imp earlier f.packets v.covered }

-- a frame from `s` to `e`, not longer than the duration
record Spans (duration : ℕ) (f : Frame) (s e : ℕ) : Type 0 where
  starts : f.time_start ≡ some s
  ends : f.time_end ≡ some e
  ordered : s ≤ e
  bounded : e ≤ s + duration

create-Spans : (duration t : ℕ) → Spans duration (create_frame (some t) (some t)) t t
unfolding create_frame
create-Spans duration t = record {
  starts = refl;
  ends = refl;
  ordered = omega arith;
  bounded = omega arith;
}

-- an empty frame gets its times
start_frame-IsRegular :
    (duration time : ℕ) (f : Frame)
    → f.packets ≡ []
    → IsRegular duration f
    → IsRegular duration (start_frame f time)
unfolding start_frame
start_frame-IsRegular duration time f nothing r = record {
  kind = r.kind;
  valid = record {
    counted = r.valid.counted;
    sized = r.valid.sized;
    covered = subst (λ ps. All (λ p. NotAfter p.ts (some time)) ps) (sym nothing) tt;
  };
  span = lasts time time refl refl (omega arith) (omega arith);
}

module _ {W Raw : Type 0} (R : Reader W Raw) (opened : Bool) where
  -- a report leaves all but the counters and the world
  pub report-frame_max_duration :
      (input : Input W) (force : Bool)
      → (report R input force).frame_max_duration ≡ input.frame_max_duration
  unfolding report count_up
  report-frame_max_duration input force =
      let (now, w) = R.current_us_time input.world in
      elim (Bool-cases (
        not force
        && not (next_rotation 0 input.report_period_sec input.last_report_time (some now)))) [
          | inl e ↦ rw e refl
          | inr e ↦ rw e refl
        ]

  pub report-trace : (input : Input W) (force : Bool) → (report R input force).trace ≡ input.trace
  unfolding report count_up
  report-trace input force =
      let (now, w) = R.current_us_time input.world in
      elim (Bool-cases (
        not force
        && not (next_rotation 0 input.report_period_sec input.last_report_time (some now)))) [
          | inl e ↦ rw e refl
          | inr e ↦ rw e refl
        ]

  pub output_frame-Holds :
      (duration : ℕ) (input : Input W) (f : Frame) (ps : List Packet)
      → Holds opened duration input f ps
      → (input' : Input W) × (output_frame R input ≡ some input')
        × Holds opened duration input' (create_frame f.time_end f.time_end) ps
  unfolding output_frame create_frame packets_of
  output_frame-Holds duration input f ps h = (
    record (report R input false) {
      output = input.output ++ f ∷ [];
      frame = some (create_frame f.time_end f.time_end);
    },
    >>=-some h.current _,
    record {
      same_duration = report-frame_max_duration input false ∙ h.same_duration;
      same_trace = report-trace input false ∙ h.same_trace;
      current = refl;
      regular = create-IsRegular duration f.time_end;
      handed_over = All-append _ input.output (f ∷ []) h.handed_over (h.regular, tt);
      conserved =
          append-nil (packets_of (input.output ++ f ∷ []))
          ∙ packets_of-append input.output (f ∷ [])
          ∙ ap (λ x. packets_of input.output ++ x) (append-nil f.packets)
          ∙ h.conserved;
    },
  )

  end_frame-Holds :
      (input : Input W) (f : Frame) (s e : ℕ) (ps : List Packet)
      → Holds opened input.frame_max_duration input f ps
      → Spans input.frame_max_duration f s e
      → (input' : Input W) × (end_frame R input f s ≡ some input')
        × Holds opened input.frame_max_duration input'
            (create_frame
              (some (s + input.frame_max_duration))
              (some (s + input.frame_max_duration)))
            ps
  unfolding end_frame at_most
  end_frame-Holds input f s e ps h span =
      let end = s + input.frame_max_duration in
      let f1 : Frame = record f { time_end = some end } in
      let input1 : Input W = record input { frame = some f1 } in
      let fits : at_most f.time_end end ≡ true =
        ap (λ t. at_most t end) span.ends ∙ ground (arith, span.bounded) in
      let regular1 : IsRegular input.frame_max_duration f1 = record {
        kind = h.regular.kind;
        valid = later-IsValid f e end span.ends span.bounded h.regular.valid;
        span = lasts s end span.starts refl (omega arith) (omega arith);
      } in
      let h1 : Holds opened input.frame_max_duration input1 f1 ps = record {
        same_duration = refl;
        same_trace = h.same_trace;
        current = refl;
        regular = regular1;
        handed_over = h.handed_over;
        conserved = h.conserved;
      } in
      let (input', ran, h') = output_frame-Holds input.frame_max_duration input1 f1 ps h1 in
      (input', rw fits ran, h')

  abbrev Advanced : ℕ → ℕ → List Packet → Option (Input W) → Type 0
  Advanced duration time ps o =
      (input' : Input W) × (f' : Frame) × (s' : ℕ) × (e' : ℕ) × (o ≡ some input')
      × Holds opened duration input' f' ps
      × Spans duration f' s' e'
      × (time < s' + duration)

  advance_loop-Advanced :
      (fuel time duration : ℕ) (input : Input W) (f : Frame) (s e : ℕ) (ps : List Packet)
      → 0 < duration
      → 0 < fuel
      → time < s + fuel
      → Holds opened duration input f ps
      → Spans duration f s e
      → Advanced duration time ps (advance_loop R fuel time input)
  unfolding advance_loop
  advance_loop-Advanced zero time duration input f s e ps positive some_fuel enough h span =
      absurd (omega arith)
  advance_loop-Advanced (suc fuel) time duration input f s e ps positive some_fuel enough h span =
      elim (Bool-cases (leb (s + input.frame_max_duration) time)) [
        | inr inside ↦ (
          input,
          f,
          s,
          e,
          >>=-some h.current _ ∙ >>=-some span.starts _ ∙ rw inside refl,
          h,
          span,
          ground (arith, inside, h.same_duration),
        )
        | inl over ↦
            let here = subst (λ d. Holds opened d input f ps) (sym h.same_duration) h in
            let span_here = subst (λ d. Spans d f s e) (sym h.same_duration) span in
            let (input1, ran1, h1) = end_frame-Holds input f s e ps here span_here in
            let next =
              create_frame (some (s + input.frame_max_duration))
                (some (s + input.frame_max_duration)) in
            let h1' : Holds opened duration input1 next ps =
              subst (λ d. Holds opened d input1 next ps) h.same_duration h1 in
            let (input', f', s', e', ran, h', span', within) =
              advance_loop-Advanced fuel time duration input1 next (s + input.frame_max_duration)
                (s + input.frame_max_duration) ps positive
                (ground (arith, over, enough, h.same_duration, positive))
                (ground (arith, over, enough, h.same_duration, positive)) h1'
                (create-Spans duration (s + input.frame_max_duration)) in
            (
              input',
              f',
              s',
              e',
              >>=-some h.current _ ∙ >>=-some span.starts _ ∙ rw over (>>=-some ran1 _ ∙ ran),
              h',
              span',
              within,
            )
      ]

  -- a frame that has its times when the loop starts
  abbrev Started : ℕ → ℕ → List Packet → Input W → Frame → Type 0
  Started duration time ps input f =
      (f1 : Frame) × (s : ℕ) × (e : ℕ) × (start_if_unset f f.time_start time ≡ f1)
      × Holds opened duration (record input { frame = some f1 }) f1 ps
      × Spans duration f1 s e

  start_if_unset-Started :
      (time duration : ℕ) (input : Input W) (f : Frame) (ps : List Packet)
      → Holds opened duration input f ps
      → Lasts duration f
      → Started duration time ps input f
  unfolding start_if_unset start_frame
  start_if_unset-Started time duration input f ps h (unset no_start no_end nothing) = (
    start_frame f time,
    time,
    time,
    ap (λ t. start_if_unset f t time) no_start,
    record {
      same_duration = h.same_duration;
      same_trace = h.same_trace;
      current = refl;
      regular = start_frame-IsRegular duration time f nothing h.regular;
      handed_over = h.handed_over;
      conserved = h.conserved;
    },
    record { starts = refl; ends = refl; ordered = omega arith; bounded = omega arith },
  )
  start_if_unset-Started time duration input f ps h (lasts s e starts ends ordered bounded) = (
    f,
    s,
    e,
    ap (λ t. start_if_unset f t time) starts,
    record {
      same_duration = h.same_duration;
      same_trace = h.same_trace;
      current = refl;
      regular = h.regular;
      handed_over = h.handed_over;
      conserved = h.conserved;
    },
    record { starts = starts; ends = ends; ordered = ordered; bounded = bounded },
  )

  -- If the longest duration is not zero, advancing to a time comes to an end, in a frame that reaches
  -- to the time and is not longer than that; each frame that it hands over is not longer either, and
  -- no packet is lost or moved.
  pub advance_time_to-Reaches :
      (time duration : ℕ) (input : Input W) (f : Frame) (ps : List Packet)
      → 0 < duration
      → Holds opened duration input f ps
      → Reaches opened duration time ps (advance_time_to R input time)
  unfolding advance_time_to later
  advance_time_to-Reaches time duration input f ps positive h =
      let (f1, s, e, started, h1, span1) =
        start_if_unset-Started time duration input f ps h h.regular.span in
      let input1 : Input W = record input { frame = some f1 } in
      let (input', f', s', e', ran, h', span', within) =
        advance_loop-Advanced (time + 2) time duration input1 f1 s e ps positive (omega arith)
          (omega arith) h1 span1 in
      let f2 : Frame = record f' { time_end = some (max e' time) } in
      (
        record input' { frame = some f2 },
        f2,
        max e' time,
        >>=-some h.current _
            ∙ ap
                (λ g. advance_loop R (time + 2) time (record input { frame = some g }) >>= λ i.
                  i.frame >>= λ f3.
                  some
                    (record i { frame = some (record f3 { time_end = later f3.time_end time }) }))
                started
            ∙ >>=-some ran _
            ∙ >>=-some h'.current _
            ∙ ap
                (λ t. some (record input' { frame = some (record f' { time_end = later t time }) }))
                span'.ends,
        record {
          same_duration = h'.same_duration;
          same_trace = h'.same_trace;
          current = refl;
          regular = record {
            kind = h'.regular.kind;
            valid = later-IsValid f' e' (max e' time) span'.ends (omega arith) h'.regular.valid;
            span =
                lasts s' (max e' time) span'.starts refl (omega (arith, span'.ordered))
                  (omega (arith, span'.bounded, within));
          };
          handed_over = h'.handed_over;
          conserved = h'.conserved;
        },
        refl,
        omega arith,
      )
