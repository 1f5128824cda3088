-- ===== src/PacketHash/Chain.antt =====
-- The buckets of one chain, seen from a packet: which one is its own, and what is in it.
use mathlib.Core.Option
use dns_collector.Prelude.{
  ℕ, ◌+◌, ◌<◌, ◌≡◌, refl, sym, ap, Bool, true, false, ◌&&◌, Option, none, some, List, [], ◌∷◌, ◌++◌,
  All, ◌==◌, if◌then◌else◌, arith, Bool-cases, inl, inr, lt→ltb, ◌>>=◌,
}
use dns_collector.Packet.{Packet}
use dns_collector.Packet.HashValue.{primary_hash}
use dns_collector.Packet.Key.{primary_match_iff}
use dns_collector.Packet.Match.{primary_match}
use dns_collector.Packet.SameHash.{primary_hash-eq_of_match}
use dns_collector.PacketHash.{Bucket, Chain, is_bucket_of, find_in, Place}

pub match_refl : (p : Packet) → primary_match p p ≡ true
match_refl p = (primary_match_iff p p).1 refl

pub match_symm : (p q : Packet) → primary_match p q ≡ true → primary_match q p ≡ true
match_symm p q h = (primary_match_iff q p).1 (sym ((primary_match_iff p q).0 h))

-- packets that match each other match the same packets
pub match_congr :
    (p q r : Packet) → primary_match p q ≡ true → primary_match r p ≡ primary_match r q
match_congr p q r h =
    let e = (primary_match_iff p q).0 h in
    ground (arith, e, primary_match_iff r p, primary_match_iff r q)

pub match_congr_left :
    (p q r : Packet) → primary_match p q ≡ true → primary_match p r ≡ primary_match q r
match_congr_left p q r h =
    let e = (primary_match_iff p q).0 h in
    ground (arith, e, primary_match_iff p r, primary_match_iff q r)

pub hash_of : ℕ → Packet → ℕ
hash_of seed p = Option.get_or (primary_hash p seed) 0

pub primary_hash-hash_of :
    (seed : ℕ) (p : Packet) → 0x100 < seed → primary_hash p seed ≡ some (hash_of seed p)
unfolding primary_hash hash_of
primary_hash-hash_of seed p h = rw (lt→ltb _ _ h)

module _ (seed : ℕ) where
  pub hash_of-eq : (p q : Packet) → primary_match p q ≡ true → hash_of seed p ≡ hash_of seed q
  unfolding hash_of
  hash_of-eq p q h = ap (λ o. Option.get_or o 0) (primary_hash-eq_of_match p q seed h)

  abbrev pub first_matches : Packet → List Packet → Bool
  first_matches p [] = false
  first_matches p (f ∷ fs) = primary_match p f

  -- the bucket is the one that the packet belongs in
  unfoldable pub hits : Packet → Bucket → Bool
  hits p b = b.hash_value == hash_of seed p && first_matches p b.packets

  unfoldable pub find : Packet → Chain → Option (List Packet)
  find p [] = none
  find p (b ∷ bs) = if hits p b then some b.packets else find p bs

  unfoldable pub count : Packet → Chain → ℕ
  count p [] = 0
  count p (b ∷ bs) = (if hits p b then 1 else 0) + count p bs

  -- A bucket is not empty, has the hash of its packets, and its packets match one another.
  abbrev pub AllMatch : ℕ → List Packet → Type 0
  AllMatch hash [] = ⊥
  AllMatch hash (f ∷ fs) = (hash ≡ hash_of seed f) × All (λ r. primary_match f r ≡ true) fs

  abbrev pub IsBucket : Bucket → Type 0
  IsBucket b = AllMatch b.hash_value b.packets

  first_matches_congr :
      (p q : Packet) (ps : List Packet)
      → primary_match p q ≡ true
      → first_matches p ps ≡ first_matches q ps
  first_matches_congr p q [] h = refl
  first_matches_congr p q (f ∷ fs) h = match_congr_left p q f h

  -- Packets that match each other belong in the same bucket.
  pub hits_congr : (p q : Packet) (b : Bucket) → primary_match p q ≡ true → hits p b ≡ hits q b
  unfolding hits
  hits_congr p q b h = rw (hash_of-eq p q h, first_matches_congr p q b.packets h)

  pub find_congr : (p q : Packet) (c : Chain) → primary_match p q ≡ true → find p c ≡ find q c
  unfolding find
  find_congr p q [] h = refl
  find_congr p q (b ∷ bs) h = rw (hits_congr p q b h, find_congr p q bs h)

  pub count_congr : (p q : Packet) (c : Chain) → primary_match p q ≡ true → count p c ≡ count q c
  unfolding count
  count_congr p q [] h = refl
  count_congr p q (b ∷ bs) h = rw (hits_congr p q b h, count_congr p q bs h)

  -- Two packets that belong in one bucket match.
  pub match_of_hits :
      (p q : Packet) (b : Bucket) → hits p b ≡ true → hits q b ≡ true → primary_match q p ≡ true
  unfolding hits
  match_of_hits p q b h k = both b.packets (ground (arith, h)) (ground (arith, k))
    where
      both :
          (ps : List Packet)
          → first_matches p ps ≡ true
          → first_matches q ps ≡ true
          → primary_match q p ≡ true
      both [] h k = cc
      both (f ∷ fs) h k = rw (match_congr p f q h) k

  -- A packet belongs in a bucket in order if it matches the first packet there.
  pub hits_first :
      (q f : Packet) (fs : List Packet) (hash : ℕ)
      → hash ≡ hash_of seed f
      → hits q (record { hash_value = hash; packets = f ∷ fs }) ≡ primary_match q f
  unfolding hits
  hits_first q f fs hash e = elim (Bool-cases (primary_match q f)) [
    | inl m ↦ rw (e, m, hash_of-eq q f m) (ground arith)
    | inr m ↦ rw m (ground arith)
  ]

  pub find-append :
      (p : Packet) (a b : Chain) → find p (a ++ b) ≡ Option.or_else (find p a) (find p b)
  unfolding find Option.or_else
  find-append p [] b = refl
  find-append p (x ∷ a) b = rw (find-append p a b) (ground arith)

  pub count-append : (p : Packet) (a b : Chain) → count p (a ++ b) ≡ count p a + count p b
  unfolding count
  count-append p [] b = omega arith
  count-append p (x ∷ a) b = omega (arith, count-append p a b)

  pub find-eq-none : (p : Packet) (c : Chain) → count p c ≡ 0 → find p c ≡ none
  unfolding find count
  find-eq-none p [] h = refl
  find-eq-none p (b ∷ bs) h = ground (arith, find-eq-none p bs)

  pub count-eq_zero : (p : Packet) (c : Chain) → find p c ≡ none → count p c ≡ 0
  unfolding find count
  count-eq_zero p [] h = refl
  count-eq_zero p (b ∷ bs) h = ground (arith, count-eq_zero p bs)

  -- What `dns_packet_hash_find_bucket` finds in the chain of a packet.
  pub data Finds (p : Packet) (c : Chain) : Option Place → Type 0 where
    finds :
        (before after : Chain) (b : Bucket)
        → c ≡ before ++ (b ∷ after)
        → hits p b ≡ true
        → count p before ≡ 0
        → Finds p c (some (record { before = before; found = some b; after = after }))
    misses : count p c ≡ 0 → Finds p c (some (record { before = c; found = none; after = [] }))

  is_bucket_of-list :
      (p : Packet) (hash : ℕ) (ps : List Packet)
      → AllMatch hash ps
      → let b : Bucket = record { hash_value = hash; packets = ps } in
        is_bucket_of p (hash_of seed p) b ≡ some (hits p b)
  unfolding is_bucket_of hits
  is_bucket_of-list p hash [] h = absurd h
  is_bucket_of-list p hash (f ∷ fs) h = refl

  is_bucket_of-hits :
      (p : Packet) (b : Bucket) → IsBucket b → is_bucket_of p (hash_of seed p) b ≡ some (hits p b)
  is_bucket_of-hits p b h = is_bucket_of-list p b.hash_value b.packets h

  -- the chain has one more bucket in front, which is not the packet's
  Finds-later :
      (p : Packet) (b : Bucket) (bs : Chain) (o : Option Place)
      → hits p b ≡ false
      → Finds p bs o
      → Finds p
          (b ∷ bs)
          (o >>= λ l. some (record { before = b ∷ l.before; found = l.found; after = l.after }))
  unfolding count
  Finds-later p b bs _ miss (finds before after b' shape hit none_before) =
      finds (b ∷ before) after b' (ap (λ x. b ∷ x) shape) hit (ground (arith, miss, none_before))
  Finds-later p b bs _ miss (misses nowhere) = misses (ground (arith, miss, nowhere))

  -- The search of a chain of buckets never reads an empty bucket; it finds the first bucket that the
  -- packet belongs in, or comes to the end of a chain that has none.
  pub find_in-Finds :
      (p : Packet) (c : Chain) → All IsBucket c → Finds p c (find_in p (hash_of seed p) c)
  unfolding find_in count
  find_in-Finds p [] h = misses refl
  find_in-Finds p (b ∷ bs) h = elim (Bool-cases (hits p b)) [
    | inl here ↦ rw (is_bucket_of-hits p b h.0, here) (finds [] bs b refl here refl)
    | inr later ↦
        rw (is_bucket_of-hits p b h.0, later) (Finds-later p b bs _ later (find_in-Finds p bs h.1))
  ]
