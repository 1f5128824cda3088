-- ===== src/Matcher/Pairing.antt =====
-- A response is hung on its request, or goes to the queue by itself.
use mathlib.Core.Option.{some_inj}
use dns_collector.Prelude.{
  ℕ, ◌≡◌, ◌≢◌, refl, sym, ◌∙◌, ap, true, false, ◌&&◌, Option, none, some, List, [], ◌∷◌, ◌++◌, ◌==◌,
  All, All-imp, arith, Bool-cases, inl, inr, ◌>>=◌, >>=-eq-some,
}
use dns_collector.Packet.{Packet, PacketData, is_request}
use dns_collector.Packet.Match.{primary_match}
use dns_collector.PacketHash.{unlink}
use dns_collector.Matcher.{is_waiting, set_response}
use dns_collector.Matcher.Waiting.{Distinct, waiting, All-waiting, unlink-last}

-- no packet has the address
abbrev pub Lacks : ℕ → List Packet → Type 0
Lacks a ps = All (λ q. q.address ≢ a) ps

pub set_response-lacking :
    (a : ℕ) (b : PacketData) (ps : List Packet) → Lacks a ps → set_response a b ps ≡ ps
unfolding set_response
set_response-lacking a b [] h = refl
set_response-lacking a b (p ∷ ps) h =
    let other : (p.address == a) ≡ false = ground (arith, h.0) in
    rw (other, set_response-lacking a b ps h.1) refl

unlink-lacking : (a : ℕ) (ps : List Packet) → Lacks a ps → unlink a ps ≡ none
unfolding unlink
unlink-lacking a [] h = refl
unlink-lacking a (p ∷ ps) h =
    let other : (p.address == a) ≡ false = ground (arith, h.0) in
    rw (other, unlink-lacking a ps h.1) refl

-- the packet at the end stays if it has another address
unlink-snoc :
    (a : ℕ) (ps : List Packet) (p : Packet)
    → p.address ≢ a
    → unlink a (ps ++ p ∷ []) ≡ (unlink a ps >>= λ r. some (r ++ p ∷ []))
unfolding unlink
unlink-snoc a [] p h = let other : (p.address == a) ≡ false = ground (arith, h) in rw other refl
unlink-snoc a (x ∷ xs) p h = elim (Bool-cases (x.address == a)) [
  | inl e ↦ rw e refl
  | inr e ↦ rw (e, unlink-snoc a xs p h) (after (unlink a xs))
]
  where
    after :
        (o : Option (List Packet))
        → ((o >>= λ r. some (r ++ p ∷ [])) >>= λ r. some (x ∷ r))
          ≡ ((o >>= λ r. some (x ∷ r)) >>= λ r. some (r ++ p ∷ []))
    after none = refl
    after (some r) = refl

module _ (q : Packet) (p : Packet) (ps : List Packet) where
  waiting-cons_yes :
      is_waiting p && primary_match q p ≡ true → waiting q (p ∷ ps) ≡ waiting q ps ++ p ∷ []
  unfolding waiting
  waiting-cons_yes e = rw e refl

  waiting-cons_no : is_waiting p && primary_match q p ≡ false → waiting q (p ∷ ps) ≡ waiting q ps
  unfolding waiting
  waiting-cons_no e = rw e refl

answered :
    (p q : Packet) (b : PacketData)
    → let p' = record p { response = some b } in is_waiting p' && primary_match q p' ≡ false
unfolding is_waiting is_request
answered p q b = elim (Bool-cases (is_request p)) [ inl e ↦ rw e refl | inr e ↦ rw e refl ]

module _ (a : ℕ) (b : PacketData) (p : Packet) (ps : List Packet) where
  set_response-here :
      (p.address == a) ≡ true
      → Lacks a ps
      → set_response a b (p ∷ ps) ≡ record p { response = some b } ∷ ps
  unfolding set_response
  set_response-here e lacks = rw (e, set_response-lacking a b ps lacks) refl

  set_response-there :
      (p.address == a) ≡ false → set_response a b (p ∷ ps) ≡ p ∷ set_response a b ps
  unfolding set_response
  set_response-there e = rw e refl

unlink-end :
    (a : ℕ) (xs : List Packet) (p : Packet)
    → p.address ≡ a
    → Lacks a xs
    → unlink a (xs ++ p ∷ []) ≡ some xs
unlink-end a xs p e h = rw (sym e) (unlink-last p xs (rw (sym e) at h))

-- Hanging the response on a request takes the request off the list of those that wait, and each
-- packet with its address is one that matches.
pub waiting-set_response :
    (q : Packet) (a : ℕ) (b : PacketData) (ps rest : List Packet)
    → Distinct ps
    → unlink a (waiting q ps) ≡ some rest
    → (waiting q (set_response a b ps) ≡ rest)
      × All (λ p. p.address ≡ a → primary_match q p ≡ true) ps
unfolding waiting unlink
waiting-set_response q a b [] rest d u = cc
waiting-set_response q a b (p ∷ ps) rest d u = elim (Bool-cases (p.address == a)) [
  | inl here ↦
      let same : p.address ≡ a = ground (arith, here) in
      let lacks : Lacks a ps = rw same at d.0 in
      let none_left = unlink-lacking a (waiting q ps) (All-waiting _ q ps lacks) in
      let hung =
        ap (waiting q) (set_response-here a b p ps here lacks)
        ∙ waiting-cons_no q _ ps (answered p q b) in
      let others : All (λ r. r.address ≡ a → primary_match q r ≡ true) ps =
        All-imp (λ r ne e. absurd (ne e)) ps lacks in
      elim (Bool-cases (is_waiting p && primary_match q p)) [
        | inl w ↦
            let gone = unlink-end a (waiting q ps) p same (All-waiting _ q ps lacks) in
            let u' = ap (unlink a) (sym (waiting-cons_yes q p ps w)) ∙ u in
            (hung ∙ some_inj.0 (sym gone ∙ u'), (λ e. ground (arith, w), others))
        | inr w ↦ let u' = ap (unlink a) (sym (waiting-cons_no q p ps w)) ∙ u in cc
      ]
  | inr there ↦
      let other : p.address ≢ a = ground (arith, there) in
      let kept = ap (waiting q) (set_response-there a b p ps there) in
      elim (Bool-cases (is_waiting p && primary_match q p)) [
        | inl w ↦
            let u' =
              sym (unlink-snoc a (waiting q ps) p other)
              ∙ ap (unlink a) (sym (waiting-cons_yes q p ps w))
              ∙ u in
            let (r, ran, last) = >>=-eq-some (unlink a (waiting q ps)) _ u' in
            let (now, all) = waiting-set_response q a b ps r d.1 ran in
            (
              kept
                  ∙ waiting-cons_yes q p (set_response a b ps) w
                  ∙ ap (λ x. x ++ p ∷ []) now
                  ∙ some_inj.0 last,
              (λ e. absurd (other e), all),
            )
        | inr w ↦
            let u' = ap (unlink a) (sym (waiting-cons_no q p ps w)) ∙ u in
            let (now, all) = waiting-set_response q a b ps rest d.1 u' in
            (kept ∙ waiting-cons_no q p (set_response a b ps) w ∙ now, (λ e. absurd (other e), all))
      ]
]

-- Nothing changes for a packet that those with the address do not match.
pub waiting-set_response_ne :
    (q : Packet) (a : ℕ) (b : PacketData) (ps : List Packet)
    → All (λ p. p.address ≡ a → primary_match q p ≡ false) ps
    → waiting q (set_response a b ps) ≡ waiting q ps
unfolding waiting set_response
waiting-set_response_ne q a b [] h = refl
waiting-set_response_ne q a b (p ∷ ps) h = elim (Bool-cases (p.address == a)) [
  | inl e ↦
      let away : primary_match q p ≡ false = h.0 (ground (arith, e)) in
      rw (e, answered p q b, waiting-set_response_ne q a b ps h.1, away) (ground arith)
  | inr e ↦ rw (e, waiting-set_response_ne q a b ps h.1) refl
]

Lacks-set_response :
    (c a : ℕ) (b : PacketData) (ps : List Packet) → Lacks c ps → Lacks c (set_response a b ps)
unfolding set_response
Lacks-set_response c a b [] h = tt
Lacks-set_response c a b (p ∷ ps) h = elim (Bool-cases (p.address == a)) [
  | inl e ↦ rw e (h.0, Lacks-set_response c a b ps h.1)
  | inr e ↦ rw e (h.0, Lacks-set_response c a b ps h.1)
]

pub Distinct-set_response :
    (a : ℕ) (b : PacketData) (ps : List Packet) → Distinct ps → Distinct (set_response a b ps)
unfolding set_response
Distinct-set_response a b [] d = tt
Distinct-set_response a b (p ∷ ps) d = elim (Bool-cases (p.address == a)) [
  | inl e ↦ rw e (Lacks-set_response p.address a b ps d.0, Distinct-set_response a b ps d.1)
  | inr e ↦ rw e (Lacks-set_response p.address a b ps d.0, Distinct-set_response a b ps d.1)
]
