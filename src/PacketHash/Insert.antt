-- ===== src/PacketHash/Insert.antt =====
-- `dns_packet_hash_insert_packet` puts a packet in front of those that it matches.
use mathlib.Core.Option
use dns_collector.Prelude.{
  ℕ, ◌+◌, ◌^◌, ◌≤◌, ◌<◌, ◌≡◌, refl, ◌∙◌, true, Option, none, some, List, [], ◌∷◌, All-imp,
  if◌then◌else◌, length, arith, add64,
}
use dns_collector.Packet.{Packet}
use dns_collector.Packet.Match.{primary_match}
use dns_collector.PacketHash.{Bucket, PacketHash, Place, insert_at, insert_packet}
use dns_collector.PacketHash.Chain.{
  hash_of, hash_of-eq, primary_hash-hash_of, hits, AllMatch, match_refl, match_congr_left,
}
use dns_collector.PacketHash.Inv.{home, home_chain}
use dns_collector.PacketHash.Valid.{IsValid, lookup, grow_lem}
use dns_collector.PacketHash.Spot.{
  IsSpot, find_bucket-IsSpot, found-IsBucket, write_place_lem, lookup-missing, lookup-bucket,
  count-own, find-own, IsOwn-own_bucket,
}

-- `h'` is a valid table that has `p` in front of the packets of its key, and else what `h` has
pub record Inserted (h : PacketHash) (p : Packet) (h' : PacketHash) : Type 0 where
  pub valid : IsValid h'
  pub same_seed : h'.seed ≡ h.seed
  pub at_most : h'.buckets ≤ h.buckets + 1
  pub reads :
      (q : Packet)
      → lookup h' q
        ≡ (if primary_match q p then some (p ∷ Option.get_or (lookup h p) []) else lookup h q)

-- a packet that belongs in a bucket may stand in front there
AllMatch-front :
    (seed hash : ℕ) (p : Packet) (ps : List Packet)
    → AllMatch seed hash ps
    → hits seed p (record { hash_value = hash; packets = ps }) ≡ true
    → AllMatch seed hash (p ∷ ps)
unfolding hits
AllMatch-front seed hash p [] ok hit = absurd ok
AllMatch-front seed hash p (f ∷ fs) ok hit =
    let m : primary_match p f ≡ true = ground (arith, hit) in
    (
      ground (arith, hash_of-eq seed p f m, ok.0),
      (m, All-imp (λ r e. match_congr_left p f r m ∙ e) fs ok.1),
    )

insert_at-Inserted :
    (h : PacketHash) (p : Packet) (place : Place) (o : Option Bucket)
    → place.found ≡ o
    → IsValid h
    → h.buckets < 2 ^ 50
    → IsSpot h.seed p (home_chain h.seed h.table p) place
    → (h' : PacketHash) × (insert_at h p (hash_of h.seed p) (home h.seed (length h.table) p) place o
        ≡ some h')
      × Inserted h p h'
unfolding insert_at
insert_at-Inserted h p place none e v few spot =
    let ps : List Packet = [] in
    let ok : AllMatch h.seed (hash_of h.seed p) (p ∷ ps) = (refl, tt) in
    let (s, reads) =
      write_place_lem h p place _ (add64 h.buckets 1) v.0 spot (ok, tt)
        (count-own h.seed p p ps _ ok (match_refl p))
        (IsOwn-own_bucket h.seed p p ps _ ok (match_refl p)) (rw e (omega arith)) in
    let (h', ran, k) = grow_lem _ s v.1.small (omega arith) (ground (arith, v.1.dense, few)) in
    let before : lookup h p ≡ none = lookup-missing h p place v.0 spot e in
    (
      h',
      ran,
      record {
        valid = k.valid;
        same_seed = k.same_seed;
        at_most = omega (arith, k.same_buckets);
        reads = λ q.
            k.same_lookup q
            ∙ reads q
            ∙ rw (find-own h.seed p p ps _ ok (match_refl p), before) (ground arith);
      },
    )
insert_at-Inserted h p place (some b) e v few spot =
    let hit = rw e at spot.hit in
    let bucket = rw e at (found-IsBucket h.seed h.table p place spot v.0.placed []) in
    let ok = AllMatch-front h.seed b.hash_value p b.packets bucket.0 hit.0 in
    let (s, reads) =
      write_place_lem h p place _ h.buckets v.0 spot (ok, tt)
        (count-own h.seed p p b.packets _ ok (match_refl p))
        (IsOwn-own_bucket h.seed p p b.packets _ ok (match_refl p)) (rw e (omega arith)) in
    let before : lookup h p ≡ some b.packets = lookup-bucket h p place v.0 spot b e in
    (
      _,
      refl,
      record {
        valid =
            (s, record { load = v.1.load; dense = v.1.dense; small = v.1.small; few = v.1.few });
        same_seed = refl;
        at_most = omega arith;
        reads = λ q.
            reads q ∙ rw (find-own h.seed p p b.packets _ ok (match_refl p), before) (ground arith);
      },
    )

-- Putting a packet into a valid table of fewer than 2^50 buckets runs to its end. The table is valid
-- again; the packet is the first of those under its key, the others are still there in their order,
-- and nothing changes under another key.
pub insert_packet-Inserted :
    (h : PacketHash) (p : Packet)
    → IsValid h
    → h.buckets < 2 ^ 50
    → (h' : PacketHash) × (insert_packet h p ≡ some h') × Inserted h p h'
unfolding insert_packet
insert_packet-Inserted h p v few =
    let (place, ran, spot) = find_bucket-IsSpot h p v.0 in
    rw (primary_hash-hash_of h.seed p v.0.seeded, ran)
      (insert_at-Inserted h p place place.found refl v few spot)
