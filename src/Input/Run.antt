-- ===== src/Input/Run.antt =====
-- The loop of the input over the events of a trace.
use dns_collector.Prelude.{
  ℕ, ◌-◌, ◌≤◌, ◌<◌, ◌≡◌, refl, sym, ap, ◌∙◌, Bool, true, false, ◌&&◌, Option, none, some, List, [],
  ◌∷◌, ◌++◌, append_assoc, append-nil, ltb, if◌then◌else◌, Bool-cases, inl, inr, All, add64, arith,
  >>=-some, subst,
}
use dns_collector.Packet.{Packet}
use dns_collector.Frame.{Frame, append_packet, unset_or_before}
use dns_collector.Frame.{create as create_frame}
use dns_collector.Frame.Inv.{append_packet-IsValid}
use dns_collector.Input.{
  Parsed, parsed, dropped, Reader, Input, Event, stop, sleep, unknown, packet, terminate, iowait,
  Returned, ret_ok, ret_err, report, count_up, make_space, add_packet, after_dump, handle_parsed,
  process_read_packet, is_behind, catch_up, catch_real_time, trace_close, close_with, process_loop,
  finish,
}
use dns_collector.Frame.Packets.{packets_of}
use dns_collector.Input.Frames.{
  unset, lasts, IsRegular, Holds, Reaches, output_frame-Holds, advance_time_to-Reaches,
}

-- the packet that an event brings
unfoldable pub packet_in : Parsed → List Packet
packet_in (parsed p) = p ∷ []
packet_in (dropped r) = []

module _ {W Raw : Type 0} (R : Reader W Raw) where
  -- the packets that come before the end, in order
  unfoldable pub received : List (Event Raw) → List Packet
  unfolding packet_in
  received [] = []
  received (packet raw ∷ evs) = packet_in (R.create_packet raw) ++ received evs
  received (sleep ∷ evs) = received evs
  received (iowait false ∷ evs) = received evs
  received (iowait true ∷ evs) = []
  received (stop ∷ evs) = []
  received (terminate b ∷ evs) = []
  received (unknown ∷ evs) = []

  -- The trace comes to an end, and all its events are known.
  abbrev pub Stops : List (Event Raw) → Type 0
  Stops [] = ⊥
  Stops (packet raw ∷ evs) = Stops evs
  Stops (sleep ∷ evs) = Stops evs
  Stops (iowait false ∷ evs) = Stops evs
  Stops (iowait true ∷ evs) = Unit
  Stops (stop ∷ evs) = Unit
  Stops (terminate b ∷ evs) = Unit
  Stops (unknown ∷ evs) = ⊥

  -- Packets that were dropped can be written to the dump.
  abbrev pub Dumps : Type 0
  Dumps = (w : W) (raw : Raw) (reason : ℕ) → (w' : W) × (R.dump_packet w raw reason ≡ (true, w'))

  module _ (opened : Bool) (duration : ℕ) (positive : 0 < duration) where
    -- an input that a function returns, with the packets that it has got
    abbrev Keeps : List Packet → Option (Input W) → Type 0
    Keeps ps o =
        (input : Input W) × (f : Frame) × (o ≡ some input) × Holds opened duration input f ps

    make_space-Reaches :
        (time : ℕ) (input : Input W) (f : Frame) (e : ℕ) (p : Packet) (ps : List Packet)
        → Holds opened duration input f ps
        → f.time_end ≡ some e
        → time ≤ e
        → Reaches opened duration time ps (make_space R input p)
    unfolding make_space create_frame
    make_space-Reaches time input f e p ps h ends reaches =
        elim (Bool-cases (ltb 0 f.count && ltb input.frame_max_size (add64 f.size p.memory_size))) [
          | inl full ↦
              let (input', ran, h') = output_frame-Holds R opened duration input f ps h in
              (
                input',
                create_frame f.time_end f.time_end,
                e,
                >>=-some h.current _ ∙ rw full ran,
                h',
                ends,
                reaches,
              )
          | inr space ↦ (input, f, e, >>=-some h.current _ ∙ rw space refl, h, ends, reaches)
        ]

    append_packet-IsRegular :
        (f : Frame) (p : Packet) (e : ℕ)
        → f.time_end ≡ some e
        → p.ts ≤ e
        → IsRegular duration f
        → IsRegular duration (append_packet f p)
    unfolding append_packet unset_or_before
    append_packet-IsRegular f p e ends reaches r =
        let before : unset_or_before f.time_end p.ts ≡ false =
          ap (λ t. unset_or_before t p.ts) ends ∙ ground (arith, reaches) in
        let same_end : (append_packet f p).time_end ≡ f.time_end = rw before refl in
        elim r.span [
          | unset no_start no_end nothing ↦ absurd cc
          | lasts s e' starts ends' ordered bounded ↦ record {
            kind = r.kind;
            valid = append_packet-IsValid f p r.valid;
            span = lasts s e' starts (same_end ∙ ends') ordered bounded;
          }
        ]

    add_packet-Keeps :
        (input : Input W) (f : Frame) (p : Packet) (ps : List Packet)
        → Holds opened duration input f ps
        → Keeps (ps ++ p ∷ []) (add_packet R input p)
    unfolding add_packet append_packet
    add_packet-Keeps input f p ps h =
        let (input1, f1, e1, ran1, h1, ends1, reaches1) =
          advance_time_to-Reaches R opened p.ts duration input f ps positive h in
        let (input2, f2, e2, ran2, h2, ends2, reaches2) =
          make_space-Reaches p.ts input1 f1 e1 p ps h1 ends1 reaches1 in
        (
          record input2 { frame = some (append_packet f2 p) },
          append_packet f2 p,
          >>=-some ran1 _ ∙ >>=-some ran2 _ ∙ >>=-some h2.current _,
          record {
            same_duration = h2.same_duration;
            same_trace = h2.same_trace;
            current = refl;
            regular = append_packet-IsRegular f2 p e2 ends2 reaches2 h2.regular;
            handed_over = h2.handed_over;
            conserved =
                sym (append_assoc (packets_of input2.output) f2.packets (p ∷ []))
                ∙ ap (λ x. x ++ p ∷ []) h2.conserved;
          },
        )

    -- the clock, the counters and the dump do not matter
    pub Holds-same :
        (a b : Input W) (f : Frame) (ps : List Packet)
        → b.frame_max_duration ≡ a.frame_max_duration
        → b.trace ≡ a.trace
        → b.frame ≡ a.frame
        → b.output ≡ a.output
        → Holds opened duration a f ps
        → Holds opened duration b f ps
    Holds-same a b f ps d t g o h = record {
      same_duration = d ∙ h.same_duration;
      same_trace = t ∙ h.same_trace;
      current = g ∙ h.current;
      regular = h.regular;
      handed_over = subst (All (IsRegular duration)) (sym o) h.handed_over;
      conserved = ap (λ x. packets_of x ++ f.packets) o ∙ h.conserved;
    }

    handle_parsed-Keeps :
        (input : Input W) (f : Frame) (raw : Raw) (o : Parsed) (ps : List Packet)
        → Dumps
        → Holds opened duration input f ps
        → Keeps (ps ++ packet_in o) (handle_parsed R input raw o)
    unfolding handle_parsed packet_in after_dump
    handle_parsed-Keeps input f raw (parsed p) ps dumps h = add_packet-Keeps input f p ps h
    handle_parsed-Keeps input f raw (dropped reason) ps dumps h =
        let h' = subst (λ x. Holds opened duration input f x) (sym (append-nil ps)) h in
        let (w, written) = dumps input.world raw reason in
        elim (Bool-cases input.dumper) [
          | inl on ↦ (
            record input { world = w },
            f,
            rw (on, written) refl,
            Holds-same input (record input { world = w }) f _ refl refl refl refl h',
          )
          | inr off ↦ (input, f, rw off refl, h')
        ]

    process_read_packet-Keeps :
        (input : Input W) (f : Frame) (raw : Raw) (ps : List Packet)
        → Dumps
        → Holds opened duration input f ps
        → Keeps (ps ++ packet_in (R.create_packet raw)) (process_read_packet R input raw)
    unfolding process_read_packet
    process_read_packet-Keeps input f raw ps dumps h =
        let counted : Input W = record input {
          current_packets_read = add64 input.current_packets_read 1;
          current_bytes_read = add64 input.current_bytes_read (R.wire_length raw);
        } in
        handle_parsed-Keeps counted f raw (R.create_packet raw) ps dumps
          (Holds-same input counted f ps refl refl refl refl h)

    catch_up-Keeps :
        (input : Input W) (f : Frame) (now : ℕ) (w : W) (ps : List Packet)
        → Holds opened duration input f ps
        → Keeps ps (catch_up R input (now, w))
    unfolding catch_up
    catch_up-Keeps input f now w ps h =
        let read : Input W = record input { world = w } in
        let h' = Holds-same input read f ps refl refl refl refl h in
        elim (Bool-cases (is_behind f.time_end input.real_time_grace now)) [
          | inr near ↦ (read, f, >>=-some h.current _ ∙ rw near refl, h')
          | inl behind ↦
              let (input', f', e, ran, h'', ends, reaches) =
                advance_time_to-Reaches R opened (now - input.real_time_grace) duration read f ps
                  positive h' in
              (input', f', >>=-some h.current _ ∙ rw behind ran, h'')
        ]

    catch_real_time-Keeps :
        (input : Input W) (f : Frame) (ps : List Packet)
        → Holds opened duration input f ps
        → Keeps ps (catch_real_time R input)
    unfolding catch_real_time
    catch_real_time-Keeps input f ps h =
        let (now, w) = R.current_us_time input.world in
        let test = λ (b : Bool).
          if b then catch_up R input (R.current_us_time input.world) else some input in
        elim (Bool-cases input.online) [
          | inr off ↦ (input, f, ap test off, h)
          | inl on ↦
              let (input', f', ran, h') = catch_up-Keeps input f now w ps h in
              (input', f', ap test on ∙ ran, h')
        ]

  module _ (duration : ℕ) (positive : 0 < duration) (dumps : Dumps) where
    -- a trace that has been read and closed
    abbrev pub Closes : List Packet → Option (Returned × Input W) → Type 0
    Closes ps o =
        (r : Returned) × (input : Input W) × (f : Frame) × (o ≡ some (r, input))
        × Holds false duration input f ps

    close_with-Closes :
        (input : Input W) (f : Frame) (r : Returned) (ps : List Packet)
        → Holds true duration input f ps
        → Closes ps (close_with R input r)
    unfolding close_with trace_close
    close_with-Closes input f r ps h =
        let closed : trace_close R input
            ≡ some (record input { bpf_filter = false; trace = false }) =
          rw h.same_trace (>>=-some h.current _) in
        (
          r,
          record input { bpf_filter = false; trace = false },
          f,
          >>=-some closed _,
          record {
            same_duration = h.same_duration;
            same_trace = refl;
            current = h.current;
            regular = h.regular;
            handed_over = h.handed_over;
            conserved = h.conserved;
          },
        )

    report-Holds :
        (input : Input W) (f : Frame) (ps : List Packet)
        → Holds true duration input f ps
        → Holds true duration (report R input true) f ps
    unfolding report count_up
    report-Holds input f ps h = Holds-same true duration positive input _ f ps refl refl refl refl h

    report_close-Closes :
        (input : Input W) (f : Frame) (r : Returned) (ps : List Packet)
        → Holds true duration input f ps
        → Closes (ps ++ []) (close_with R (report R input true) r)
    report_close-Closes input f r ps h =
        subst (λ x. Closes x (close_with R (report R input true) r)) (sym (append-nil ps))
          (close_with-Closes (report R input true) f r ps (report-Holds input f ps h))

    -- For a trace that comes to an end, with a longest duration that is not zero and a dump that
    -- can be written, the loop returns and closes the trace; the frames handed over and the present
    -- one have all packets that were parsed, in order, and each frame is not longer than the
    -- duration and agrees with its counters.
    pub process_loop-Closes :
        (evs : List (Event Raw)) (input : Input W) (f : Frame) (ps : List Packet)
        → Stops evs
        → Holds true duration input f ps
        → Closes (ps ++ received evs) (process_loop R evs input)
    unfolding process_loop received
    process_loop-Closes [] input f ps stops h = absurd stops
    process_loop-Closes (stop ∷ evs) input f ps stops h = report_close-Closes input f ret_ok ps h
    process_loop-Closes (terminate true ∷ evs) input f ps stops h =
        report_close-Closes input f ret_err ps h
    process_loop-Closes (terminate false ∷ evs) input f ps stops h =
        report_close-Closes input f ret_ok ps h
    process_loop-Closes (packet raw ∷ evs) input f ps stops h =
        let (input', f', ran, h') =
          process_read_packet-Keeps true duration positive input f raw ps dumps h in
        let (r, input'', f'', ran', h'') = process_loop-Closes evs input' f' _ stops h' in
        (
          r,
          input'',
          f'',
          >>=-some ran _ ∙ ran',
          subst (λ x. Holds false duration input'' f'' x)
              (append_assoc ps (packet_in (R.create_packet raw)) (received evs)) h'',
        )
    process_loop-Closes (sleep ∷ evs) input f ps stops h =
        let (input', f', ran, h') = catch_real_time-Keeps true duration positive input f ps h in
        let (r, input'', f'', ran', h'') = process_loop-Closes evs input' f' ps stops h' in
        (r, input'', f'', >>=-some ran _ ∙ ran', h'')
    process_loop-Closes (iowait true ∷ evs) input f ps stops h =
        let (input', f', ran, h') = catch_real_time-Keeps true duration positive input f ps h in
        let (r, input'', f'', ran', h'') = close_with-Closes input' f' ret_err ps h' in
        (
          r,
          input'',
          f'',
          >>=-some ran _ ∙ ran',
          subst (λ x. Holds false duration input'' f'' x) (sym (append-nil ps)) h'',
        )
    process_loop-Closes (iowait false ∷ evs) input f ps stops h =
        let (input', f', ran, h') = catch_real_time-Keeps true duration positive input f ps h in
        let (r, input'', f'', ran', h'') = process_loop-Closes evs input' f' ps stops h' in
        (r, input'', f'', >>=-some ran _ ∙ ran', h'')
    process_loop-Closes (unknown ∷ evs) input f ps stops h = absurd stops

  -- what is handed over in the end: regular frames with all the packets, and a final frame
  abbrev pub Ended : ℕ → List Packet → Option (Input W) → Type 0
  Ended duration ps o =
      (input : Input W) × (frames : List Frame) × (last : Frame) × (o ≡ some input)
      × (input.output ≡ frames ++ last ∷ [])
      × All (IsRegular duration) frames
      × (packets_of frames ≡ ps)
      × (last.type ≡ 1)
      × (last.count ≡ 0)
      × (last.packets ≡ [])

  -- At the end the frame that was filled is handed over and then a final empty frame: the frames
  -- before it have all the packets, in order, and none is longer than the duration.
  pub finish-Ended :
      (duration : ℕ) (opened : Bool) (input : Input W) (f : Frame) (ps : List Packet)
      → Holds opened duration input f ps
      → Ended duration ps (finish R input)
  unfolding finish create_frame
  finish-Ended duration opened input f ps h =
      let (input1, ran, h1) = output_frame-Holds R opened duration input f ps h in
      let last : Frame = record (create_frame f.time_end f.time_end) { type = 1 } in
      (
        record input1 {
          world = if input1.dumper then R.close_dump input1.world else input1.world;
          output = input1.output ++ last ∷ [];
          frame = none;
        },
        input1.output,
        last,
        >>=-some ran _ ∙ >>=-some h1.current _,
        refl,
        h1.handed_over,
        sym (append-nil (packets_of input1.output)) ∙ h1.conserved,
        refl,
        refl,
        refl,
      )
