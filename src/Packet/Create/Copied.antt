-- ===== src/Packet/Create/Copied.antt =====
-- The copy that `dns_packet_create` makes of the data, and the ID at its start.
use mathlib.Core.Option.{some_inj}
use dns_collector.Prelude.{
  ℕ, ◌≡◌, refl, sym, ◌∙◌, ap, true, Option, none, some, List, [], ◌∷◌, ◌++◌, leb, length,
  length-append, length-take, take, drop, take-append-drop, arith, inl, inr, Bool-cases,
}
use dns_collector.Packet.Create.{Payload, copy_data, read16}
use dns_collector.Packet.Create.Spec.{Shows, StartsWith}

take-length-append : (xs ys : List ℕ) → take (length xs) (xs ++ ys) ≡ xs
take-length-append [] ys = refl
take-length-append (x ∷ xs) ys = ap (λ zs. x ∷ zs) (take-length-append xs ys)

copy_data-Shows_at :
    (p : Payload) (wire : List ℕ) (o : Option (List ℕ))
    → p.pointer ≡ o
    → copy_data p ≡ some wire
    → Shows p wire
unfolding copy_data
copy_data-Shows_at p wire none e h = inl (e, sym (some_inj.0 (rw e at h)))
copy_data-Shows_at p wire (some bytes) e h' =
    let h = rw e at h' in
    elim (Bool-cases (leb p.remaining (length bytes))) [
      | inr over ↦ let away = rw over at h in cc
      | inl fits ↦
          let is : take p.remaining bytes ≡ wire = some_inj.0 (rw fits at h) in
          let all = take-append-drop p.remaining bytes in
          let size = length-take p.remaining bytes in
          inr (
            drop p.remaining bytes,
            e ∙ ap some (sym all ∙ ap (λ x. x ++ drop p.remaining bytes) is),
            ground (arith, ap length is, size, fits),
          )
    ]

pub copy_data-Shows : (p : Payload) (wire : List ℕ) → copy_data p ≡ some wire → Shows p wire
copy_data-Shows p wire h = copy_data-Shows_at p wire p.pointer refl h

pub Shows-copy_data : (p : Payload) (wire : List ℕ) → Shows p wire → copy_data p ≡ some wire
unfolding copy_data
Shows-copy_data p wire (inl (e, zeros)) = rw e (ap some (sym zeros))
Shows-copy_data p wire (inr (behind, e, size)) =
    let fits : leb p.remaining (length (wire ++ behind)) ≡ true =
      ground (arith, size, length-append wire behind) in
    rw e (
      rw fits (
        ap (λ n. some (take n (wire ++ behind))) (sym size)
        ∙ ap some (take-length-append wire behind)))

pub read16-StartsWith : (wire : List ℕ) (id : ℕ) → read16 wire ≡ some id → StartsWith id wire
unfolding read16
read16-StartsWith [] id h = absurd cc
read16-StartsWith (hi ∷ []) id h = absurd cc
read16-StartsWith (hi ∷ lo ∷ rest) id h = (hi, lo, rest, refl, sym (some_inj.0 h))

pub StartsWith-read16 : (wire : List ℕ) (id : ℕ) → StartsWith id wire → read16 wire ≡ some id
unfolding read16
StartsWith-read16 wire id (hi, lo, rest, e, is) = ap read16 e ∙ ap some (sym is)
