-- ===== src/Output/Files.antt =====
-- The files that the thread of `dns_output_main` leaves behind.
use dns_collector.Prelude.{
  ℕ, ◌+◌, ◌*◌, ◌≤◌, ◌≡◌, refl, sym, ◌∙◌, ap, subst, false, ◌&&◌, Option, none, some, List, [], ◌∷◌,
  ◌++◌, append_assoc, append-nil, ◌==◌, ltb, if◌then◌else◌, ◌⊎◌, inl, inr, Bool-cases, Option-cases,
  is_some, All, arith, ◌>>=◌, >>=-some,
}
use dns_collector.Packet.{Packet}
use dns_collector.Frame.Packets.{packets_of}
use dns_collector.Frame.{Frame}
use dns_collector.Clock.{next_rotation, rotation_due, or_current}
use dns_collector.Output.{
  System, Output, Format, init, later, open_output, close_output, must_close, open_if_closed,
  check_rotation, write_packets, handle_frame, write_frame, close_if_open, main,
}
use dns_collector.Output.Spec.{
  Group, IsReliable, Layout, Writes, bytes_in, count_if, packets_in, packets_in-append,
  packets_in-snoc, the_open, IsWriting,
}
use dns_collector.Output.Steps.{
  later-is_some, wait_lem, open_output-IsWriting, close_output-IsWriting, write_packet-IsWriting,
}

module _ {W : Type 0} (S : System W) (path_fmt : List ℕ) (r : IsReliable S path_fmt) (F : Format W)
    (L : Layout) (fw : Writes F L) (period_sec : ℕ) where
  abbrev Is : Output W → List Group → Option Group → Type 0
  Is = IsWriting S L path_fmt period_sec

  -- the clock and the system's state do not matter
  IsWriting-clock :
      (out : Output W) (done : List Group) (now : Option Group) (time : ℕ)
      → Is out done now
      → Is (record out { current_time = later out.current_time time }) done now
  IsWriting-clock out done now time v = record {
    same_fmt = v.same_fmt;
    same_period = v.same_period;
    files = v.files;
    file = v.file;
    named = v.named;
    opened = v.opened;
    clock = λ h. later-is_some out.current_time time;
    items = v.items;
    items_now = v.items_now;
    requests = v.requests;
    requests_now = v.requests_now;
    responses = v.responses;
    responses_now = v.responses_now;
    bytes = v.bytes;
    bytes_now = v.bytes_now;
    timely = v.timely;
  }

  IsWriting-world :
      (out : Output W) (done : List Group) (now : Option Group) (w : W)
      → Is out done now
      → Is (record out { world = w }) done now
  IsWriting-world out done now w v = record {
    same_fmt = v.same_fmt;
    same_period = v.same_period;
    files = v.files;
    file = v.file;
    named = v.named;
    opened = v.opened;
    clock = v.clock;
    items = v.items;
    items_now = v.items_now;
    requests = v.requests;
    requests_now = v.requests_now;
    responses = v.responses;
    responses_now = v.responses_now;
    bytes = v.bytes;
    bytes_now = v.bytes_now;
    timely = v.timely;
  }

  -- a state of the thread with an open file, in which a packet of the time `time` may be written
  abbrev Ready : List Packet → ℕ → Option (Output W) → Type 0
  Ready ps time o =
      (out' : Output W) × (done' : List Group) × (g : Group) × (o ≡ some out')
      × Is out' done' (some g)
      × (packets_in (done' ++ g ∷ []) ≡ ps)
      × ((period_sec ≡ 0) ⊎ (time ≤ g.opened + period_sec * 1000000))

  file-is_some :
      (out : Output W) (done : List Group) (now : Option Group)
      → Is out done now
      → is_some out.out_file ≡ is_some now
  file-is_some out done none v = ap is_some v.file
  file-is_some out done (some g) v = ap is_some v.file

  abbrev settle : ℕ → Output W → Option (Output W)
  settle time out = some (record out { current_time = later out.current_time time })

  opened_new :
      (out : Output W) (done : List Group) (time : ℕ)
      → Is out done none
      → Ready (packets_in (done ++ [])) time (open_if_closed S F out time >>= settle time)
  unfolding open_if_closed packets_in
  opened_new out done time v =
      let (out', ran, v') = open_output-IsWriting S path_fmt r F L fw period_sec out done time v in
      let missing = file-is_some out done none v in
      (
        record out' { current_time = later out'.current_time time },
        done,
        record { opened = time; packets = [] },
        >>=-some (ap (λ b. if b then some out else open_output S F out time) missing ∙ ran)
            (settle time),
        IsWriting-clock out' done _ time v',
        packets_in-append done _ ∙ sym (packets_in-append done []),
        inr (omega arith),
      )

  must_close-none :
      (out : Output W) (done : List Group) (time : ℕ)
      → Is out done none
      → must_close S out time ≡ false
  unfolding must_close
  must_close-none out done time v = rw (file-is_some out done none v) refl

  must_close-some :
      (out : Output W) (done : List Group) (g : Group) (time : ℕ)
      → Is out done (some g)
      → must_close S out time ≡ (ltb 0 period_sec && ltb (g.opened + period_sec * 1000000) time)
  unfolding must_close next_rotation rotation_due or_current
  must_close-some out done g time v =
      rw (file-is_some out done (some g) v, v.same_period, v.opened) refl

  -- After the check a file is open, which was opened no longer than a period ago.
  check_rotation-Ready :
      (out : Output W) (done : List Group) (now : Option Group) (time : ℕ)
      → Is out done now
      → Ready (packets_in (done ++ the_open now)) time (check_rotation S F out time)
  unfolding check_rotation open_if_closed
  check_rotation-Ready out done none time v =
      let (out', done', g, ran, v', same, soon) = opened_new out done time v in
      (out', done', g, rw (must_close-none out done time v) ran, v', same, soon)
  check_rotation-Ready out done (some g) time v =
      let due = must_close-some out done g time v in
      elim (Bool-cases (ltb 0 period_sec && ltb (g.opened + period_sec * 1000000) time)) [
        | inl e ↦
            let (out1, closed, v1) =
              close_output-IsWriting S path_fmt r F L fw period_sec out done g time v in
            let (out', done', g', ran, v', same, soon) = opened_new out1 (done ++ g ∷ []) time v1 in
            (
              out',
              done',
              g',
              ap
                    (λ b. (if b then close_output S out time else some out) >>= λ o.
                      open_if_closed S F o time >>= settle time)
                    (due ∙ e)
                  ∙ >>=-some closed _
                  ∙ ran,
              v',
              same ∙ ap packets_in (append-nil (done ++ g ∷ [])),
              soon,
            )
        | inr e ↦ (
          record out { current_time = later out.current_time time },
          done,
          g,
          ap
                (λ b. (if b then close_output S out time else some out) >>= λ o.
                  open_if_closed S F o time >>= settle time)
                (due ∙ e)
              ∙ >>=-some
                  (ap (λ b. if b then some out else open_output S F out time)
                    (file-is_some out done (some g) v))
                  _,
          IsWriting-clock out done (some g) time v,
          refl,
          ground (arith, e),
        )
      ]

  -- all the packets of a frame
  write_packets-Ready :
      (ps : List Packet) (out : Output W) (done : List Group) (g : Group)
      → Is out done (some g)
      → All L.Accepts ps
      → (out' : Output W) × (done' : List Group) × (g' : Group) × (write_packets S F ps out
          ≡ some out')
        × Is out' done' (some g')
        × (packets_in (done' ++ g' ∷ []) ≡ packets_in (done ++ g ∷ []) ++ ps)
  unfolding write_packets
  write_packets-Ready [] out done g v ok = (out, done, g, refl, v, sym (append-nil _))
  write_packets-Ready (p ∷ ps) out done g v (ok, oks) =
      let (out1, done1, g1, ran1, v1, same1, soon) =
        check_rotation-Ready out done (some g) p.ts v in
      let (out2, ran2, v2) =
        write_packet-IsWriting S path_fmt r F L fw period_sec out1 done1 g1 p v1 ok soon in
      let (out3, done3, g3, ran3, v3, same3) = write_packets-Ready ps out2 done1 _ v2 oks in
      (
        out3,
        done3,
        g3,
        >>=-some ran1 _ ∙ >>=-some ran2 _ ∙ ran3,
        v3,
        same3
            ∙ ap (λ x. x ++ ps) (packets_in-snoc done1 g1 p ∙ ap (λ x. x ++ p ∷ []) same1)
            ∙ append_assoc _ (p ∷ []) ps,
      )

  write_frame-Ready :
      (f : Frame) (start : ℕ) (out : Output W) (done : List Group) (now : Option Group)
      → Is out done now
      → All L.Accepts f.packets
      → (out' : Output W) × (done' : List Group) × (g' : Group) × (write_frame S F f start out
          ≡ some out')
        × Is out' done' (some g')
        × (packets_in (done' ++ g' ∷ []) ≡ packets_in (done ++ the_open now) ++ f.packets)
  unfolding write_frame
  write_frame-Ready f start out done now v ok =
      let (w, waited) = wait_lem S path_fmt r out in
      let (out1, done1, g1, ran1, v1, same1, soon) =
        check_rotation-Ready (record out { world = w }) done now start
          (IsWriting-world out done now w v) in
      let (out2, done2, g2, ran2, v2, same2) = write_packets-Ready f.packets out1 done1 g1 v1 ok in
      (
        out2,
        done2,
        g2,
        >>=-some waited _ ∙ >>=-some ran1 _ ∙ ran2,
        v2,
        same2 ∙ ap (λ x. x ++ f.packets) same1,
      )

  close_if_open-IsWriting :
      (out : Output W) (done : List Group) (now : Option Group)
      → Is out done now
      → (out' : Output W) × (close_if_open S F out out.out_file ≡ some out')
        × Is out' (done ++ the_open now) none
  unfolding close_if_open
  close_if_open-IsWriting out done none v =
      (out, ap (close_if_open S F out) v.file, subst (λ d. Is out d none) (sym (append-nil done)) v)
  close_if_open-IsWriting out done (some g) v = elim (Option-cases out.current_time) [
    | inl never ↦ let known = v.clock refl in absurd (ground (arith, never, known))
    | inr (t, known) ↦
        let (out', ran, v') =
          close_output-IsWriting S path_fmt r F L fw period_sec out done g t v in
        (out', ap (close_if_open S F out) v.file ∙ >>=-some known _ ∙ ran, v')
  ]

  -- a frame before the final one: with its times and packets that can be written, or with nothing
  pub data IsRegular (f : Frame) : Type 0 where
    regular :
        (start : ℕ)
        → (f.type == 1) ≡ false
        → f.time_start ≡ some start
        → All L.Accepts f.packets
        → IsRegular f
    empty : (f.type == 1) ≡ false → f.time_start ≡ none → f.count ≡ 0 → f.packets ≡ [] → IsRegular f

  pub record IsFinal (f : Frame) : Type 0 where
    pub last : f.type ≡ 1
    pub nothing : f.count ≡ 0

  -- what is left when the thread has ended
  abbrev pub Ends : List Packet → Option (Output W) → Type 0
  Ends ps o =
      (out' : Output W) × (groups : List Group) × (o ≡ some out')
      × Is out' groups none
      × (packets_in groups ≡ ps)

  main-Ends :
      (fs : List Frame) (f : Frame) (out : Output W) (done : List Group) (now : Option Group)
      → All IsRegular fs
      → IsFinal f
      → Is out done now
      → Ends (packets_in (done ++ the_open now) ++ packets_of fs) (main S F (fs ++ f ∷ []) out)
  unfolding main handle_frame packets_of
  main-Ends [] f out done now ok final v =
      let (out', ran, v') = close_if_open-IsWriting out done now v in
      (out', done ++ the_open now, rw (final.last, final.nothing) ran, v', sym (append-nil _))
  main-Ends (g ∷ fs) f out done now (empty e none_set zero nothing, oks) final v =
      let (out', groups, ran, v', same) = main-Ends fs f out done now oks final v in
      let skip : handle_frame S F g g.time_start out ≡ some out =
        ap (λ t. handle_frame S F g t out) none_set ∙ rw zero refl in
      (
        out',
        groups,
        rw e (>>=-some skip _ ∙ ran),
        v',
        same ∙ ap (λ x. packets_in (done ++ the_open now) ++ (x ++ packets_of fs)) (sym nothing),
      )
  main-Ends (g ∷ fs) f out done now (regular start e set accepted, oks) final v =
      let (out1, done1, g1, ran1, v1, same1) = write_frame-Ready g start out done now v accepted in
      let (out2, groups, ran2, v2, same2) = main-Ends fs f out1 done1 (some g1) oks final v1 in
      let write = ap (λ t. handle_frame S F g t out) set ∙ ran1 in
      (
        out2,
        groups,
        rw e (>>=-some write _ ∙ ran2),
        v2,
        same2 ∙ ap (λ x. x ++ packets_of fs) same1 ∙ append_assoc _ g.packets _,
      )

  -- On a system that is reliable, and for frames whose packets can be written, the output thread
  -- comes to its end. It leaves no file open; the files that it has closed are those of a division
  -- of all packets of the frames, in order, each the header and the lines of its packets; with a
  -- period, no packet stands in a file opened more than the period before it; and, modulo 2^64,
  -- `total_items` is the number of all packets, `total_request_only` and `total_response_only` those
  -- of the packets of these kinds, and `total_bytes` that of all bytes in the closed files, the
  -- headers included; the four current counters are 0 again. (A file here is one opening of a stream:
  -- what an earlier file of the same name held is not considered.)
  pub main-writes :
      (w : W) (pipe_cmd : List ℕ) (fs : List Frame) (f : Frame)
      → All IsRegular fs
      → IsFinal f
      → Ends (packets_of fs) (main S F (fs ++ f ∷ []) (init w path_fmt pipe_cmd period_sec))
  unfolding init packets_of packets_in bytes_in count_if
  main-writes w pipe_cmd fs f ok final =
      let start : Is (init w path_fmt pipe_cmd period_sec) [] none = record {
        same_fmt = refl;
        same_period = refl;
        files = refl;
        file = refl;
        named = refl;
        opened = tt;
        clock = λ h. cc;
        items = refl;
        items_now = refl;
        requests = refl;
        requests_now = refl;
        responses = refl;
        responses_now = refl;
        bytes = refl;
        bytes_now = refl;
        timely = inr tt;
      } in
      main-Ends fs f _ [] none ok final start
