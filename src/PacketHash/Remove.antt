-- ===== src/PacketHash/Remove.antt =====
-- `dns_packet_hash_remove_from_bucket` and `dns_packet_hash_remove_packet`.
use mathlib.Core.Option.{some_inj}
use dns_collector.Prelude.{
  ℕ, ◌+◌, ◌≤◌, ◌≡◌, refl, sym, ◌∙◌, true, Option, none, some, List, [], ◌∷◌, All, All-imp, ◌==◌,
  if◌then◌else◌, length, arith, Bool-cases, inl, inr, >>=-eq-some, sub64,
}
use dns_collector.Packet.{Packet}
use dns_collector.Packet.Match.{primary_match}
use dns_collector.PacketHash.{
  Bucket, PacketHash, Place, unlink, drop_or_keep, remove_from_bucket, remove_packet,
}
use dns_collector.PacketHash.Chain.{
  hash_of-eq, primary_hash-hash_of, hits, find, count, AllMatch, hits_first, match_congr_left,
}
use dns_collector.PacketHash.Inv.{home, home_chain}
use dns_collector.PacketHash.Valid.{IsValid, lookup, shrink_lem}
use dns_collector.PacketHash.Spot.{
  IsSpot, find_bucket-IsSpot, found-IsBucket, write_place_lem, lookup-missing, lookup-bucket,
  some_bucket, count-own, find-own, IsOwn-own_bucket,
}

-- what the table has under a key whose packets are `ps`
unfoldable pub nonempty : List Packet → Option (List Packet)
nonempty [] = none
nonempty (p ∷ ps) = some (p ∷ ps)

-- `h'` is a valid table that has `rest` under the key of `p`, and else what `h` has
pub record Removed (h : PacketHash) (p : Packet) (rest : List Packet) (h' : PacketHash)
    : Type 0 where
  pub valid : IsValid h'
  pub same_seed : h'.seed ≡ h.seed
  pub no_more : h'.buckets ≤ h.buckets
  pub reads : (q : Packet) → lookup h' q ≡ (if primary_match q p then nonempty rest else lookup h q)

-- `rest` is the list without one packet that has the address
pub data Without (a : ℕ) : List Packet → List Packet → Type 0 where
  here : (p : Packet) (ps : List Packet) → p.address ≡ a → Without a (p ∷ ps) ps
  there : (p : Packet) (ps rest : List Packet) → Without a ps rest → Without a (p ∷ ps) (p ∷ rest)

unlink-Without : (a : ℕ) (ps rest : List Packet) → unlink a ps ≡ some rest → Without a ps rest
unfolding unlink
unlink-Without a [] rest e = cc
unlink-Without a (p ∷ ps) rest e = elim (Bool-cases (p.address == a)) [
  | inl c ↦
      let same : ps ≡ rest = some_inj.0 (rw c at e) in rw (sym same) (here p ps (ground (arith, c)))
  | inr c ↦
      let (r, ran, last) = >>=-eq-some (unlink a ps) _ (rw c at e) in
      let same : p ∷ r ≡ rest = some_inj.0 last in
      rw (sym same) (there p ps r (unlink-Without a ps r ran))
]

Without-All :
    (P : Packet → Type 0) (a : ℕ) (ps rest : List Packet)
    → Without a ps rest
    → All P ps
    → All P rest
Without-All P a _ rest (here p ps e) h = h.1
Without-All P a _ _ (there p ps r w) h = (h.0, Without-All P a ps r w h.1)

Without-AllMatch :
    (seed hash a : ℕ) (ps : List Packet) (f : Packet) (fs : List Packet)
    → Without a ps (f ∷ fs)
    → AllMatch seed hash ps
    → AllMatch seed hash (f ∷ fs)
Without-AllMatch seed hash a _ f fs (here p _ e) ok =
    let m = ok.1.0 in
    (ok.0 ∙ hash_of-eq seed p f m, All-imp (λ r k. sym (match_congr_left p f r m) ∙ k) fs ok.1.1)
Without-AllMatch seed hash a _ f _ (there _ ps r w) ok = (ok.0, Without-All _ a ps r w ok.1)

-- all packets of the bucket that `p` hits match `p`
Without-hits :
    (seed hash a : ℕ) (p : Packet) (ps : List Packet) (f : Packet) (fs : List Packet)
    → Without a ps (f ∷ fs)
    → AllMatch seed hash ps
    → hits seed p (record { hash_value = hash; packets = ps }) ≡ true
    → primary_match p f ≡ true
Without-hits seed hash a p _ f fs (here g _ e) ok hit =
    let m : primary_match p g ≡ true = sym (hits_first seed p g (f ∷ fs) hash ok.0) ∙ hit in
    match_congr_left p g f m ∙ ok.1.0
Without-hits seed hash a p _ f _ (there _ ps r w) ok hit =
    sym (hits_first seed p f ps hash ok.0) ∙ hit

find-nil : (seed : ℕ) (p : Packet) → find seed p [] ≡ none
unfolding find
find-nil seed p = refl

count-nil : (seed : ℕ) (p : Packet) → count seed p [] ≤ 1
unfolding count
count-nil seed p = omega arith

count-eq_nil : (seed : ℕ) (q : Packet) → count seed q [] ≡ 0
unfolding count
count-eq_nil seed q = refl

module _ (h : PacketHash) (p : Packet) (place : Place) (b : Bucket) (v : IsValid h)
    (spot : IsSpot h.seed p (home_chain h.seed h.table p) place) (e : place.found ≡ some b) where
  found_ok : AllMatch h.seed b.hash_value b.packets
  found_ok = (rw e at (found-IsBucket h.seed h.table p place spot v.0.placed [])).0

  drop_or_keep-Removed :
      (a : ℕ) (rest : List Packet)
      → Without a b.packets rest
      → (h' : PacketHash) × (drop_or_keep h (home h.seed (length h.table) p) place b rest ≡ some h')
        × Removed h p rest h'
  unfolding drop_or_keep nonempty
  drop_or_keep-Removed a [] w =
      let fewer : sub64 h.buckets 1 + 1 ≡ h.buckets =
        omega (arith, v.1.few, some_bucket h p place v.0 spot b e) in
      let (s, reads) =
        write_place_lem h p place [] (sub64 h.buckets 1) v.0 spot tt (count-nil h.seed p)
          (λ q ne. count-eq_nil h.seed q) (rw e (omega (arith, fewer))) in
      let (h', ran, k) =
        shrink_lem _ s v.1.small (omega (arith, v.1.few, fewer)) (omega (arith, v.1.load, fewer))
          (ground (arith, v.1.dense, fewer)) in
      (
        h',
        ran,
        record {
          valid = k.valid;
          same_seed = k.same_seed;
          no_more = omega (arith, k.same_buckets, fewer);
          reads = λ q. k.same_lookup q ∙ reads q ∙ rw (find-nil h.seed p) refl;
        },
      )
  drop_or_keep-Removed a (f ∷ fs) w =
      let ok = Without-AllMatch h.seed b.hash_value a b.packets f fs w found_ok in
      let m =
        Without-hits h.seed b.hash_value a p b.packets f fs w found_ok ((rw e at spot.hit).0) in
      let (s, reads) =
        write_place_lem h p place _ h.buckets v.0 spot (ok, tt) (count-own h.seed p f fs _ ok m)
          (IsOwn-own_bucket h.seed p f fs _ ok m) (rw e (omega arith)) in
      (
        _,
        refl,
        record {
          valid =
              (s, record { load = v.1.load; dense = v.1.dense; small = v.1.small; few = v.1.few });
          same_seed = refl;
          no_more = omega arith;
          reads = λ q. reads q ∙ rw (find-own h.seed p f fs _ ok m) refl;
        },
      )

  pub remove_from_bucket-Removed :
      (req : Packet) (rest : List Packet)
      → unlink req.address b.packets ≡ some rest
      → (h' : PacketHash) × (remove_from_bucket h req (home h.seed (length h.table) p) place
          ≡ some h')
        × Removed h p rest h'
  unfolding remove_from_bucket
  remove_from_bucket-Removed req rest u =
      let (h', ran, k) =
        drop_or_keep-Removed req.address rest (unlink-Without req.address b.packets rest u) in
      (h', rw (e, u) ran, k)

-- Removing a packet that the table has runs to its end: the table is valid again, the packet is off
-- the list of its key, the key is free if it was the only one, and nothing changes under another key.
pub remove_packet-Removed :
    (h : PacketHash) (p : Packet) (ps rest : List Packet)
    → IsValid h
    → lookup h p ≡ some ps
    → unlink p.address ps ≡ some rest
    → (h' : PacketHash) × (remove_packet h p ≡ some h') × Removed h p rest h'
unfolding remove_packet
remove_packet-Removed h p ps rest v has u =
    let (place, ran, spot) = find_bucket-IsSpot h p v.0 in
    rw (primary_hash-hash_of h.seed p v.0.seeded, ran) (go place spot place.found refl)
  where
    go :
        (place : Place)
        → IsSpot h.seed p (home_chain h.seed h.table p) place
        → (o : Option Bucket) → place.found ≡ o
        → (h' : PacketHash) × (remove_from_bucket h p (home h.seed (length h.table) p) place
            ≡ some h')
          × Removed h p rest h'
    go place spot none e = let away = lookup-missing h p place v.0 spot e in cc
    go place spot (some b) e =
        let same = some_inj.0 (sym has ∙ lookup-bucket h p place v.0 spot b e) in
        remove_from_bucket-Removed h p place b v spot e p rest (rw same at u)
