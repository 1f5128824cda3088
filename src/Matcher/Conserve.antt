-- ===== src/Matcher/Conserve.antt =====
-- What becomes of the packets in a run of `dns_worker_packet_matcher_main`.
use mathlib.Core.List.{Perm}
use mathlib.Core.List.Perm
use mathlib.Core.Option.{some_inj}
use dns_collector.Prelude.{
  ℕ, ◌+◌, ◌<◌, ◌^◌, ◌≡◌, ◌≢◌, refl, sym, ap, subst, Bool, true, ◌&&◌, none, some, List, [], ◌∷◌,
  ◌++◌, map, append_assoc, append-nil, length, take, drop, take-append-drop, All, All-append,
  All-left, All-right, arith, is_some, Option-cases, inl, inr,
}
use dns_collector.Packet.{Packet, PacketData, is_request, is_response}
use dns_collector.Packet.Match.{primary_match}
use dns_collector.Frame.{Frame}
use dns_collector.Frame.Packets.{packets_of}
use dns_collector.PacketHash.{accepts}
use dns_collector.PacketHash.{create as create_hash}
use dns_collector.Input.Frames.{IsRegular}
use dns_collector.Matcher.{Matcher, is_waiting, set_response, create, main}
use dns_collector.Matcher.Waiting.{Distinct, Distinct-snoc, waiting}
use dns_collector.Matcher.Pairing.{Distinct-set_response}
use dns_collector.Matcher.Spec.{
  All-set_response, Takes, request, alone, pairs, Runs, idle, waits, takes, All-waits,
}
use dns_collector.Matcher.Messages.{
  hung, messages, bare, Within, waiting-Within, Picks-holds, set_response-at, messages-set_response,
  bare-body, Distinct-left, Distinct-right, one_more, messages-snoc,
}
use dns_collector.Matcher.Run.{AllNew, Distinct-apart, main-Runs}

module _ (equal : List ℕ → List ℕ → Bool) (match_qname : Bool) where
  -- The response belongs to the request: it goes back the way the request came, under the same ID,
  -- and it is accepted for the request's name.
  pub record FitsTo (req resp : Packet) : Type 0 where
    pub asks : is_request req ≡ true
    pub responds : is_response resp ≡ true
    pub matches : primary_match resp req ≡ true
    pub accepted : accepts equal match_qname resp req ≡ some true

  abbrev pub Paired : Packet → Type 0
  Paired p = (b : PacketData) → p.response ≡ some b → FitsTo (bare p.body) (bare b)

  Paired-bare : (p : Packet) → p.response ≡ none → Paired p
  Paired-bare p none_yet b e = cc

  -- what is true of a run at all times
  pub record Fine (ins outs queue : List Packet) : Type 0 where
    pub distinct : Distinct queue
    pub paired : All Paired (outs ++ queue)
    pub same : Perm (messages (outs ++ queue)) (map (λ p. p.body) ins)

  end-Fine :
      (pkt : Packet) (ins outs queue : List Packet)
      → pkt.response ≡ none
      → All (λ q. q.address ≢ pkt.address) queue
      → Fine ins outs queue
      → Fine (ins ++ pkt ∷ []) outs (queue ++ pkt ∷ [])
  end-Fine pkt ins outs queue none_yet apart f =
      let whole = append_assoc outs queue (pkt ∷ []) in
      record {
        distinct = Distinct-snoc pkt queue f.distinct apart;
        paired =
            subst (All Paired) whole (
              All-append Paired (outs ++ queue) (pkt ∷ []) f.paired (Paired-bare pkt none_yet, tt));
        same =
            subst (λ x. Perm (messages x) (map (λ p. p.body) (ins ++ pkt ∷ []))) whole
              (one_more pkt ins _ _ (messages-snoc (outs ++ queue) pkt none_yet) f.same);
      }

  waiting-facts :
      (r q : Packet)
      → is_waiting r && primary_match q r ≡ true
      → (is_request r ≡ true) × (r.response ≡ none) × (primary_match q r ≡ true)
  unfolding is_waiting
  waiting-facts r q w = elim (Option-cases r.response) [
    | inl e ↦ (ground (arith, w), e, ground (arith, w))
    | inr (b, e) ↦
        let there : is_some r.response ≡ true = ap is_some e in absurd (ground (arith, w, there))
  ]

  pairs-Fine :
      (pkt req : Packet) (ins outs front back : List Packet)
      → is_response pkt ≡ true
      → pkt.response ≡ none
      → is_waiting req && primary_match pkt req ≡ true
      → accepts equal match_qname pkt req ≡ some true
      → Fine ins outs (front ++ (req ∷ back))
      → Fine (ins ++ pkt ∷ []) outs (set_response req.address pkt.body (front ++ (req ∷ back)))
  pairs-Fine pkt req ins outs front back resp none_yet w fit f =
      let (asks, waits_still, matches) = waiting-facts req pkt w in
      let answered : Packet = record req { response = some pkt.body } in
      let hung_on = set_response-at req.address pkt.body front back req refl f.distinct in
      let front_fine : All Paired (outs ++ front) =
        All-left Paired (outs ++ front) (req ∷ back)
          (subst (All Paired) (sym (append_assoc outs front (req ∷ back))) f.paired) in
      let back_fine : All Paired (req ∷ back) =
        All-right Paired (outs ++ front) (req ∷ back)
          (subst (All Paired) (sym (append_assoc outs front (req ∷ back))) f.paired) in
      let fits : FitsTo (bare req.body) (bare pkt.body) =
        subst (λ x. FitsTo x (bare pkt.body)) (bare-body req waits_still)
          (subst (FitsTo req) (bare-body pkt none_yet)
            (record { asks = asks; responds = resp; matches = matches; accepted = fit })) in
      let done : Fine (ins ++ pkt ∷ []) outs (front ++ (answered ∷ back)) = record {
        distinct =
            subst Distinct hung_on
              (Distinct-set_response req.address pkt.body (front ++ (req ∷ back)) f.distinct);
        paired = subst (All Paired) (append_assoc outs front (answered ∷ back)) (
            All-append Paired (outs ++ front) (answered ∷ back) front_fine (
              (λ b e. subst (λ x. FitsTo (bare req.body) (bare x)) (some_inj.0 e) fits),
              back_fine.1,
            ));
        same =
            one_more pkt ins _ _
              (subst
                (λ x. Perm (messages x) (pkt.body ∷ messages (outs ++ (front ++ (req ∷ back)))))
                (append_assoc outs front (answered ∷ back))
                (subst
                  (λ x.
                    Perm (messages ((outs ++ front) ++ (answered ∷ back))) (pkt.body ∷ messages x))
                  (append_assoc outs front (req ∷ back))
                  (messages-set_response pkt.body (outs ++ front) back req waits_still)))
              f.same;
      } in
      subst (Fine (ins ++ pkt ∷ []) outs) (sym hung_on) done

  Takes-Fine :
      (pkt : Packet) (ins outs queue queue' : List Packet)
      → Takes equal match_qname pkt queue queue'
      → pkt.response ≡ none
      → All (λ q. q.address ≢ pkt.address) queue
      → Fine ins outs queue
      → Fine (ins ++ pkt ∷ []) outs queue'
  Takes-Fine pkt ins outs _ _ (request queue req) none_yet apart f =
      end-Fine pkt ins outs queue none_yet apart f
  Takes-Fine pkt ins outs _ _ (alone queue resp k) none_yet apart f =
      end-Fine pkt ins outs queue none_yet apart f
  Takes-Fine pkt ins outs _ _ (pairs queue req resp k) none_yet apart f =
      let asked : All (Within pkt queue) (take 33 (waiting pkt queue)) =
        All-left _ (take 33 (waiting pkt queue)) (drop 33 (waiting pkt queue))
          (rw (take-append-drop 33 (waiting pkt queue)) (waiting-Within pkt queue)) in
      let ((front, back, split, w), fit) =
        Picks-holds equal match_qname pkt (Within pkt queue) _ _ req k refl asked in
      subst (λ x. Fine (ins ++ pkt ∷ []) outs (set_response req.address pkt.body x)) (sym split)
        (pairs-Fine pkt req ins outs front back resp none_yet w fit (subst (Fine ins outs) split f))

  pub Runs-Fine :
      (window : ℕ) (ins outs queue : List Packet) (now : ℕ)
      → Runs equal match_qname window ins outs queue now
      → AllNew ins
      → Fine ins outs queue
  unfolding messages
  Runs-Fine window _ _ _ _ (idle now) new = record { distinct = tt; paired = tt; same = Perm.nil }
  Runs-Fine window _ _ _ _ (waits ins outs gone queue now time r later due) new =
      let f = Runs-Fine window ins outs (gone ++ queue) now r new in
      let whole = append_assoc outs gone queue in
      record {
        distinct = Distinct-right gone queue f.distinct;
        paired = subst (All Paired) (sym whole) f.paired;
        same = subst (λ x. Perm (messages x) (map (λ p. p.body) ins)) (sym whole) f.same;
      }
  Runs-Fine window _ _ _ _ (takes ins outs queue queue' now pkt r soon t) new =
      let apart = Distinct-apart pkt [] ins new.1 in
      Takes-Fine pkt ins outs queue queue' t (All-right _ ins (pkt ∷ []) new.0).0
        (All-waits equal match_qname (λ q. q.address ≢ pkt.address) (λ p b h. h) window ins outs
          queue now r apart)
        (Runs-Fine window ins outs queue now r
          (All-left _ ins (pkt ∷ []) new.0, Distinct-left ins (pkt ∷ []) new.1))

  module _ (G : PacketData → Type 0) where
    -- what is true of each message of a packet
    abbrev pub AllMessages : Packet → Type 0
    AllMessages p = All G (messages (p ∷ []))

    AllMessages-bare : (p : Packet) → p.response ≡ none → G p.body → AllMessages p
    unfolding messages hung
    AllMessages-bare p none_yet g = (g, rw none_yet tt)

    AllMessages-answered :
        (p : Packet) (b : PacketData)
        → G b
        → AllMessages p
        → AllMessages (record p { response = some b })
    unfolding messages hung
    AllMessages-answered p b g h = (h.0, (g, tt))

    AllMessages-Takes :
        (pkt : Packet) (outs queue queue' : List Packet)
        → Takes equal match_qname pkt queue queue'
        → pkt.response ≡ none
        → G pkt.body
        → All AllMessages (outs ++ queue)
        → All AllMessages (outs ++ queue')
    AllMessages-Takes pkt outs _ _ (request queue req) none_yet g h =
        subst (All AllMessages) (append_assoc outs queue (pkt ∷ [])) (
          All-append AllMessages (outs ++ queue) (pkt ∷ []) h (AllMessages-bare pkt none_yet g, tt))
    AllMessages-Takes pkt outs _ _ (alone queue resp k) none_yet g h =
        subst (All AllMessages) (append_assoc outs queue (pkt ∷ [])) (
          All-append AllMessages (outs ++ queue) (pkt ∷ []) h (AllMessages-bare pkt none_yet g, tt))
    AllMessages-Takes pkt outs _ _ (pairs queue req resp k) none_yet g h =
        All-append AllMessages outs (set_response req.address pkt.body queue)
          (All-left AllMessages outs queue h)
          (All-set_response equal match_qname AllMessages req.address pkt.body queue
            (λ p. AllMessages-answered p pkt.body g) (All-right AllMessages outs queue h))

    -- What is true of all messages that come is true of those of all packets.
    pub Runs-AllMessages :
        (window : ℕ) (ins outs queue : List Packet) (now : ℕ)
        → Runs equal match_qname window ins outs queue now
        → All (λ p. p.response ≡ none) ins
        → All (λ p. G p.body) ins
        → All AllMessages (outs ++ queue)
    Runs-AllMessages window _ _ _ _ (idle now) new g = tt
    Runs-AllMessages window _ _ _ _ (waits ins outs gone queue now time r later due) new g =
        subst (All AllMessages) (sym (append_assoc outs gone queue))
          (Runs-AllMessages window ins outs (gone ++ queue) now r new g)
    Runs-AllMessages window _ _ _ _ (takes ins outs queue queue' now pkt r soon t) new g =
        AllMessages-Takes pkt outs queue queue' t (All-right _ ins (pkt ∷ []) new).0
          (All-right _ ins (pkt ∷ []) g).0
          (Runs-AllMessages window ins outs queue now r (All-left _ ins (pkt ∷ []) new)
            (All-left _ ins (pkt ∷ []) g))

  -- Under the conditions of `main-Runs`, a seed of the hash above 256 among them, the messages of the packets that the thread hands over,
  -- those of the packets themselves and of the responses hung on them, are the messages that have
  -- come, each as often as it came; and every packet that has a response is a request, to which the
  -- response fits: the addresses, ports, protocol and ID agree, and the name does if names are
  -- compared.
  pub main-conserves :
      (window limit r r' max_size longest : ℕ) (fs : List Frame) (last : Frame)
      → 0 < window
      → 0 < limit
      → 0x100 < (create_hash r r' 1024 0).seed
      → last.type ≡ 1
      → All (IsRegular longest) fs
      → AllNew (packets_of fs)
      → length (packets_of fs) < 2 ^ 50
      → (start : Matcher) × (end : Matcher) × (frames : List Frame) × (final : Frame) × (create r r'
            (fs ++ last ∷ [])
            window
            limit
            max_size
            match_qname
          ≡ some start)
        × (main equal (length (packets_of fs) + 1) start ≡ some end)
        × (end.output ≡ frames ++ final ∷ [])
        × Perm (messages (packets_of frames)) (map (λ p. p.body) (packets_of fs))
        × All Paired (packets_of frames)
  main-conserves window limit r r' max_size longest fs last positive progress seeded final ok new
        few =
      let (start, made, (end, frames, last', now, ran, output, short, kind, zero, runs)) =
        main-Runs equal match_qname window limit r r' max_size longest fs last positive progress
          seeded final ok new few in
      let f = Runs-Fine window (packets_of fs) (packets_of frames) [] now runs new in
      let none_left = append-nil (packets_of frames) in
      (
        start,
        end,
        frames,
        last',
        made,
        ran,
        output,
        subst (λ x. Perm (messages x) (map (λ p. p.body) (packets_of fs))) none_left f.same,
        subst (All Paired) none_left f.paired,
      )
