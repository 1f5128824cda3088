-- ===== src/Matcher/Run.antt =====
-- The whole run of `dns_worker_packet_matcher_main`.
use dns_collector.Prelude.{
  ℕ, zero, suc, ◌+◌, ◌<◌, ◌^◌, ◌≡◌, ◌≢◌, refl, sym, ◌∙◌, ap, subst, Bool, true, Option, none, some,
  List, [], ◌∷◌, ◌++◌, append_assoc, append-nil, length, length-append, All, All-append, All-imp,
  All-right, arith, inl, inr, ◌>>=◌, >>=-some, ltb, lt→ltb,
}
use dns_collector.Packet.{Packet}
use dns_collector.Frame.{Time, Frame, create_final}
use dns_collector.Frame.{create as create_frame}
use dns_collector.Frame.Packets.{packets_of, packets_of-append}
use dns_collector.PacketHash.{create as create_hash}
use dns_collector.PacketHash.Valid.{create-IsValid}
use dns_collector.PacketHash.Remove.{nonempty}
use dns_collector.Input.Frames.{IsRegular}
use dns_collector.Matcher.{
  Matcher, create, flush, advance_time_to, handle_packet, next_packet, main,
}
use dns_collector.Matcher.Waiting.{Distinct, waiting}
use dns_collector.Matcher.Advance.{IsShort}
use dns_collector.Matcher.Loop.{advance_time_to-Advances}
use dns_collector.Matcher.Spec.{Runs, idle}
use dns_collector.Matcher.Live.{Moved, Fresh, Live, Ready, Comes-Live, handle_packet-Live}
use dns_collector.Matcher.Stream.{Coming, unloaded, loaded, Gives, gives, ends, next_packet-Gives}

pub Distinct-apart :
    (p : Packet) (left ins : List Packet)
    → Distinct (ins ++ p ∷ left)
    → All (λ q. q.address ≢ p.address) ins
Distinct-apart p left [] d = tt
Distinct-apart p left (q ∷ ins) d =
    ((λ e. (All-right _ ins (p ∷ left) d.0).0 (sym e)), Distinct-apart p left ins d.1)

-- packets without a response, no two at the same address
abbrev pub AllNew : List Packet → Type 0
AllNew ps = All (λ p. p.response ≡ none) ps × Distinct ps

-- the end of the thread, with the frame that was filled
abbrev closed : Matcher → Option Frame → Matcher
closed m o =
    let last : List Frame = elim o [ none ↦ [] | some f ↦ f ∷ [] ] in
    record m { output = m.output ++ (last ++ create_final m.current_time ∷ []); outframe = none }

abbrev catch_up : Matcher → Time → Option Matcher
catch_up m none = some m
catch_up m (some t) = advance_time_to m (t + m.matching_duration + 1)

flush-closed :
    (m m' : Matcher) (o : Option Frame)
    → catch_up m m.current_time ≡ some m'
    → m'.outframe ≡ o
    → flush m ≡ some (closed m' o)
unfolding flush
flush-closed m m' o ran e = >>=-some ran _ ∙ ap (λ o. some (closed m' o)) e

module _ (equal : List ℕ → List ℕ → Bool) (match_qname : Bool) (window limit : ℕ) where
  -- The thread has ended: it has handed over frames that are not longer than `limit`, and a final
  -- empty frame, and the packets of the frames are what has left in a run in which `ins` have come
  -- and nothing waits any more.
  abbrev pub Finished : List Packet → Option Matcher → Type 0
  Finished ins o =
      (m : Matcher) × (frames : List Frame) × (last : Frame) × (now : ℕ) × (o ≡ some m)
      × (m.output ≡ frames ++ last ∷ [])
      × All (IsShort limit) frames
      × (last.type ≡ 1)
      × (last.count ≡ 0)
      × Runs equal match_qname window ins (packets_of frames) [] now

  flush-Fresh : (m : Matcher) → Fresh equal match_qname window limit m → Finished [] (flush m)
  unfolding packets_of create_final create_frame
  flush-Fresh m r = (
    closed m none,
    [],
    create_final m.current_time,
    0,
    flush-closed m m none (ap (catch_up m) r.no_time) r.no_frame,
    ap (λ x. x ++ create_final m.current_time ∷ []) r.no_output,
    tt,
    refl,
    refl,
    idle 0,
  )

  flush-Live :
      (m : Matcher) (ins : List Packet)
      → Live equal match_qname window limit m ins
      → Finished ins (flush m)
  unfolding create_final create_frame packets_of
  flush-Live m ins l =
      let until = l.now + m.matching_duration + 1 in
      let (m', ran, c) = advance_time_to-Advances m l.frame l.start l.end l.now until l.running in
      let (l', clock) = Comes-Live equal match_qname window limit m ins l until m' c in
      let empty : m'.packet_queue ≡ [] =
        c.drains (omega arith) (All-imp (λ p h. omega (arith, h)) m.packet_queue l.heard) in
      let last : Frame = create_final m'.current_time in
      let all_short : All (IsShort limit) m'.output =
        subst (λ x. All (IsShort x) m'.output) l'.config.longest l'.running.all_short in
      let short : IsShort limit l'.frame =
        subst (λ x. IsShort x l'.frame) l'.config.longest (l'.start, l'.end, l'.running.lasts) in
      let all : packets_of m'.output ++ l'.frame.packets ≡ packets_of (m'.output ++ l'.frame ∷ []) =
        sym (
          packets_of-append m'.output (l'.frame ∷ [])
          ∙ ap (λ x. packets_of m'.output ++ x) (append-nil l'.frame.packets)) in
      (
        closed m' (some l'.frame),
        m'.output ++ l'.frame ∷ [],
        last,
        l'.now,
        flush-closed m m' (some l'.frame) (ap (catch_up m) l.running.clock ∙ ran) l'.running.frame,
        sym (append_assoc m'.output (l'.frame ∷ []) (last ∷ [])),
        All-append _ m'.output (l'.frame ∷ []) all_short (short, tt),
        refl,
        refl,
        subst (λ x. Runs equal match_qname window ins x [] l'.now) all
            (subst
              (λ x.
                Runs equal match_qname window ins (packets_of m'.output ++ l'.frame.packets) x
                  l'.now)
              empty l'.runs),
      )

  flush-Ready :
      (m : Matcher) (ins : List Packet)
      → Ready equal match_qname window limit m ins
      → Finished ins (flush m)
  flush-Ready m ins (inl (r, e)) = rw e (flush-Fresh m r)
  flush-Ready m ins (inr l) = flush-Live m ins l

  main-end :
      (fuel : ℕ) (m m1 : Matcher)
      → next_packet m ≡ some (none, m1)
      → main equal (suc fuel) m ≡ flush m1
  unfolding main
  main-end fuel m m1 next = >>=-some next _

  main-next :
      (fuel : ℕ) (m m1 : Matcher) (pkt : Packet)
      → next_packet m ≡ some (some pkt, m1)
      → main equal (suc fuel) m ≡ (handle_packet equal m1 pkt >>= main equal fuel)
  unfolding main
  main-next fuel m m1 pkt next = >>=-some next _

  create-Fresh :
      (r r' max_size : ℕ) (input : List Frame)
      → 0 < window
      → 0 < limit
      → 0x100 < (create_hash r r' 1024 0).seed
      → (m : Matcher) × (create r r' input window limit max_size match_qname ≡ some m)
        × Fresh equal match_qname window limit m
        × ((m.inframe ≡ none) × (m.input ≡ input))
  unfolding create waiting nonempty create_hash
  create-Fresh r r' max_size input positive progress seeded =
      let (valid, reads) = create-IsValid r r' 1024 0 (omega arith) (omega arith) seeded in
      let window_set : ltb 0 window ≡ true = lt→ltb _ _ positive in
      let m : Matcher = record {
        input = input;
        output = [];
        hash_table = create_hash r r' 1024 0;
        packet_queue = [];
        matching_duration = window;
        frame_max_duration = limit;
        match_qname = match_qname;
        frame_max_size = max_size;
        inframe = none;
        outframe = none;
        current_time = none;
      } in
      (
        m,
        rw window_set refl,
        record {
          config = record { qname = refl; duration = refl; longest = refl; progress = progress };
          not_loaded = refl;
          no_frame = refl;
          no_time = refl;
          no_output = refl;
          no_packets = refl;
          table = record { valid = valid; agrees = λ q. reads q; distinct = tt };
          no_buckets = refl;
        },
        (refl, refl),
      )

  -- after a packet has been handled, the same packets are to come
  Coming-Moved :
      (longest : ℕ) (last : Frame) (m m' : Matcher) (left : List Packet)
      → Moved m m'
      → Coming longest last m left
      → Coming longest last m' left
  Coming-Moved longest last m m' _ k (unloaded fs no_frame input ok) =
      unloaded fs (k.same_inframe ∙ no_frame) (k.same_input ∙ input) ok
  Coming-Moved longest last m m' _ k (loaded f time fs frame ended input ok) =
      loaded f time fs (k.same_inframe ∙ frame) ended (k.same_input ∙ input) ok

  module _ (longest : ℕ) (last : Frame) (final : last.type ≡ 1) where
    -- with this much fuel, the run ends from each state that has come to be
    abbrev Ending : ℕ → Type 0
    Ending fuel =
        (m : Matcher) (ins left : List Packet)
        → Ready equal match_qname window limit m ins
        → Coming longest last m left
        → length left < fuel
        → AllNew (ins ++ left)
        → length (ins ++ left) < 2 ^ 50
        → Finished (ins ++ left) (main equal fuel m)

    main-Gives :
        (fuel : ℕ) (m : Matcher) (ins left : List Packet) (o : Option (Option Packet × Matcher))
        → Ending fuel
        → next_packet m ≡ o
        → Gives equal match_qname window limit longest last final ins left o
        → length left < suc fuel
        → AllNew (ins ++ left)
        → length (ins ++ left) < 2 ^ 50
        → Finished (ins ++ left) (main equal (suc fuel) m)
    main-Gives fuel m ins _ _ again next (ends m1 ready) enough new few =
        rw (append-nil ins)
          (subst (Finished ins) (sym (main-end fuel m m1 next)) (flush-Ready m1 ins ready))
    main-Gives fuel m ins _ _ again next (gives pkt left m1 l soon coming) enough new few =
        let bare = (All-right _ ins (pkt ∷ left) new.0).0 in
        let (m2, ran, moved, l2) =
          handle_packet-Live equal match_qname window limit m1 ins pkt l soon bare
            (Distinct-apart pkt left ins new.1)
            (omega (arith, few, length-append ins (pkt ∷ left))) in
        let whole = append_assoc ins (pkt ∷ []) left in
        let rest =
          again m2 (ins ++ pkt ∷ []) left (inr l2)
            (Coming-Moved longest last m1 m2 left moved coming) (omega (arith, enough))
            (subst AllNew (sym whole) new) (subst (λ x. length x < 2 ^ 50) (sym whole) few) in
        subst (λ x. Finished x (main equal (suc fuel) m)) whole
          (subst (Finished ((ins ++ pkt ∷ []) ++ left))
            (sym (main-next fuel m m1 pkt next ∙ >>=-some ran _)) rest)

    main-Finished : (fuel : ℕ) → Ending fuel
    main-Finished zero m ins left ready coming enough new few = absurd (omega (arith, enough))
    main-Finished (suc fuel) m ins left ready coming enough new few =
        main-Gives fuel m ins left (next_packet m) (main-Finished fuel) refl
          (next_packet-Gives equal match_qname window limit longest last final ins m left ready
            coming)
          enough new few

  -- Let the input hold regular frames, as the input thread makes them, and a final one, with fewer
  -- than 2^50 packets in all, no two with the same address and none with a response yet. Then the
  -- thread of a new matcher, whose durations are positive and whose table's seed is above 256, as the
  -- code asserts, runs to its end with as much fuel as
  -- there are packets and one round more. It hands over frames that last no longer than the maximum
  -- and then a final empty frame. The packets of its frames are those that leave in a run of the
  -- specification in which the packets of the input come, in order: each request and each response
  -- without a request once, in the order of the input, and every other response on the request that
  -- it was paired with; nothing waits in the end. (A response looks at 33 requests at most, where 32
  -- is documented.)
  pub main-Runs :
      (r r' max_size longest : ℕ) (fs : List Frame) (last : Frame)
      → 0 < window
      → 0 < limit
      → 0x100 < (create_hash r r' 1024 0).seed
      → last.type ≡ 1
      → All (IsRegular longest) fs
      → AllNew (packets_of fs)
      → length (packets_of fs) < 2 ^ 50
      → (m : Matcher) × (create r r' (fs ++ last ∷ []) window limit max_size match_qname ≡ some m)
        × Finished (packets_of fs) (main equal (length (packets_of fs) + 1) m)
  main-Runs r r' max_size longest fs last positive progress seeded final ok new few =
      let (m, made, r, (no_frame, input)) =
        create-Fresh r r' max_size (fs ++ last ∷ []) positive progress seeded in
      (
        m,
        made,
        main-Finished longest last final (length (packets_of fs) + 1) m [] (packets_of fs)
            (inl (r, refl)) (unloaded fs no_frame input ok) (omega arith) new few,
      )
