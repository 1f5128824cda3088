-- ===== src/Matcher/Messages.antt =====
-- The messages of the packets in the matcher's queue, and what a response hung on a request adds.
use mathlib.Core.List.{Perm, perm_middle, perm_append_singleton, map-append}
use mathlib.Core.List.Perm
use mathlib.Core.Option.{some_inj}
use dns_collector.Prelude.{
  ℕ, ◌≡◌, refl, sym, ◌∙◌, ap, subst, Bool, true, false, ◌&&◌, Option, none, some, List, [], ◌∷◌,
  ◌++◌, map, append_assoc, ◌==◌, All, All-append, All-imp, All-left, All-right, arith, Bool-cases,
  inl, inr,
}
use dns_collector.Packet.{Packet, PacketData}
use dns_collector.Packet.Match.{primary_match}
use dns_collector.PacketHash.{accepts}
use dns_collector.PacketHash.Match.{Picks, picks, passes}
use dns_collector.Matcher.{is_waiting, set_response}
use dns_collector.Matcher.Waiting.{Distinct, waiting}
use dns_collector.Matcher.Pairing.{Lacks, set_response-lacking}

-- the messages of packets: each packet's own and the response that hangs on it
unfoldable pub hung : Option PacketData → List PacketData
hung none = []
hung (some b) = b ∷ []

unfoldable pub messages : List Packet → List PacketData
unfolding hung
messages [] = []
messages (p ∷ ps) = p.body ∷ (hung p.response ++ messages ps)

pub messages-append : (ps qs : List Packet) → messages (ps ++ qs) ≡ messages ps ++ messages qs
unfolding messages
messages-append [] qs = refl
messages-append (p ∷ ps) qs =
    ap (λ x. p.body ∷ (hung p.response ++ x)) (messages-append ps qs)
    ∙ ap (λ x. p.body ∷ x) (sym (append_assoc (hung p.response) (messages ps) (messages qs)))

-- a request that waits has a place in the queue
abbrev pub Within : Packet → List Packet → Packet → Type 0
Within q ps r =
    (front : List Packet) × (back : List Packet) × (ps ≡ front ++ (r ∷ back))
    × (is_waiting r && primary_match q r ≡ true)

pub waiting-Within : (q : Packet) (ps : List Packet) → All (Within q ps) (waiting q ps)
unfolding waiting
waiting-Within q [] = tt
waiting-Within q (p ∷ ps) =
    let later : All (Within q (p ∷ ps)) (waiting q ps) =
      All-imp (λ r (front, back, e, w). (p ∷ front, back, ap (λ x. p ∷ x) e, w)) (waiting q ps)
        (waiting-Within q ps) in
    elim (Bool-cases (is_waiting p && primary_match q p)) [
      | inl e ↦ rw e (All-append _ (waiting q ps) (p ∷ []) later (([], ps, refl, e), tt))
      | inr e ↦ rw e later
    ]

pub Picks-holds :
    (equal : List ℕ → List ℕ → Bool) (m : Bool) (p : Packet) (P : Packet → Type 0)
    (reqs : List Packet) (o : Option Packet) (req : Packet)
    → Picks equal m p reqs o
    → o ≡ some req
    → All P reqs
    → P req × (accepts equal m p req ≡ some true)
Picks-holds equal m p P _ _ req (picks before r after no_fit fit) e h =
    let both : P r × (accepts equal m p r ≡ some true) =
      ((All-right P before (r ∷ after) h).0, fit) in
    subst (λ x. P x × (accepts equal m p x ≡ some true)) (some_inj.0 e) both
Picks-holds equal m p P _ _ req (passes reqs no_fit) e h = cc

-- hanging a response on a packet of the queue adds one message
pub set_response-at :
    (a : ℕ) (b : PacketData) (front back : List Packet) (req : Packet)
    → req.address ≡ a
    → Distinct (front ++ (req ∷ back))
    → set_response a b (front ++ (req ∷ back)) ≡ front ++ (record req { response = some b } ∷ back)
unfolding set_response
set_response-at a b [] back req e d =
    let here : (req.address == a) ≡ true = ground (arith, e) in
    rw (here, set_response-lacking a b back (subst (λ x. Lacks x back) e d.0)) refl
set_response-at a b (p ∷ front) back req e d =
    let there : (p.address == a) ≡ false =
      ground (arith, (All-right _ front (req ∷ back) d.0).0, e) in
    rw (there, set_response-at a b front back req e d.1) refl

pub messages-set_response :
    (b : PacketData) (front back : List Packet) (req : Packet)
    → req.response ≡ none
    → Perm
        (messages (front ++ (record req { response = some b } ∷ back)))
        (b ∷ messages (front ++ (req ∷ back)))
unfolding messages hung
messages-set_response b front back req bare =
    let F = messages front in
    let B = messages back in
    rw
      (
        messages-append front (record req { response = some b } ∷ back),
        messages-append front (req ∷ back),
        bare,
      )
      (subst (λ x. Perm x (b ∷ (F ++ (req.body ∷ B)))) (append_assoc F (req.body ∷ []) (b ∷ B))
        (subst (λ x. Perm ((F ++ req.body ∷ []) ++ (b ∷ B)) (b ∷ x))
          (append_assoc F (req.body ∷ []) B) (perm_middle (F ++ req.body ∷ []) B)))

-- a packet as it came
abbrev pub bare : PacketData → Packet
bare b = record { body = b; response = none }

pub bare-body : (p : Packet) → p.response ≡ none → p ≡ bare p.body
bare-body p e =
    let with : Option PacketData → Packet = λ x. record { body = p.body; response = x } in ap with e

pub Distinct-left : (xs ys : List Packet) → Distinct (xs ++ ys) → Distinct xs
Distinct-left [] ys d = tt
Distinct-left (x ∷ xs) ys d = (All-left _ xs ys d.0, Distinct-left xs ys d.1)

pub Distinct-right : (xs ys : List Packet) → Distinct (xs ++ ys) → Distinct ys
Distinct-right [] ys d = d
Distinct-right (x ∷ xs) ys d = Distinct-right xs ys d.1

-- a message more on both sides
pub one_more :
    (pkt : Packet) (ins : List Packet) (now before : List PacketData)
    → Perm now (pkt.body ∷ before)
    → Perm before (map (λ p. p.body) ins)
    → Perm now (map (λ p. p.body) (ins ++ pkt ∷ []))
one_more pkt ins now before h same =
    let behind : Perm (pkt.body ∷ before) (pkt.body ∷ map (λ p. p.body) ins) =
      Perm.cons pkt.body same in
    let at_end : Perm (map (λ p. p.body) ins ++ pkt.body ∷ []) (pkt.body ∷ map (λ p. p.body) ins) =
      perm_append_singleton pkt.body (map (λ p. p.body) ins) in
    subst (Perm now) (sym (map-append (λ (p : Packet). p.body) ins (pkt ∷ [])))
      (Perm.trans h (Perm.trans behind (Perm.symm at_end)))

pub messages-snoc :
    (ps : List Packet) (pkt : Packet)
    → pkt.response ≡ none
    → Perm (messages (ps ++ pkt ∷ [])) (pkt.body ∷ messages ps)
unfolding messages hung
messages-snoc ps pkt e =
    rw (messages-append ps (pkt ∷ []), e) (perm_append_singleton pkt.body (messages ps))
