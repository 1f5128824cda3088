-- ===== src/PacketHash/Spot.antt =====
-- The place that `dns_packet_hash_find_bucket` returns, and a write there.
use mathlib.Core.Option
use dns_collector.Prelude.{
  ℕ, ◌+◌, ◌%◌, ◌≤◌, ◌<◌, ◌≡◌, refl, sym, ◌∙◌, ap, true, false, Option, none, some, List, [], ◌∷◌,
  ◌++◌, All, All-append, All-left, All-right, if◌then◌else◌, length, length-append, length-set,
  get_elem?-eq-get_or, arith, Bool-cases, inl, inr,
}
use dns_collector.Packet.{Packet}
use dns_collector.Packet.Match.{primary_match}
use dns_collector.PacketHash.{Bucket, Chain, PacketHash, Place, find_bucket, write_place}
use dns_collector.PacketHash.Chain.{
  hash_of, AllMatch, hits_first, match_congr, hits, find, count, IsBucket, match_of_hits,
  find-append, count-append, find-eq-none, Finds, finds, misses, find_in-Finds,
}
use dns_collector.PacketHash.Inv.{
  total, home, home_chain, view, IsPlaced, Changes, written, view-written, written-IsPlaced,
  total-written,
}
use dns_collector.PacketHash.Valid.{IsSound, lookup}

abbrev pub as_chain : Option Bucket → Chain
as_chain none = []
as_chain (some b) = b ∷ []

append-nil : (c : Chain) → c ++ [] ≡ c
append-nil [] = refl
append-nil (x ∷ c) = ap (λ y. x ∷ y) (append-nil c)

-- buckets that no packet but those that match `p` belongs in
abbrev pub IsOwn : ℕ → Packet → Chain → Type 0
IsOwn seed p c = (q : Packet) → primary_match q p ≡ false → count seed q c ≡ 0

-- The place splits the chain at what belongs to `p`.
pub record IsSpot (seed : ℕ) (p : Packet) (c : Chain) (place : Place) : Type 0 where
  pub shape : c ≡ place.before ++ (as_chain place.found ++ place.after)
  pub before_none : count seed p place.before ≡ 0
  pub after_none : count seed p place.after ≡ 0
  pub own : IsOwn seed p (as_chain place.found)
  pub hit : All (λ b. hits seed p b ≡ true) (as_chain place.found)

Finds-IsSpot :
    (seed : ℕ) (p : Packet) (c : Chain) (place : Place)
    → count seed p c ≤ 1
    → Finds seed p c (some place)
    → IsSpot seed p c place
unfolding count
Finds-IsSpot seed p c place once (finds before after b shape hit none_before) = record {
  shape = shape;
  before_none = none_before;
  after_none = ground (arith, rw shape at once, count-append seed p before (b ∷ after), hit);
  own = λ q ne. elim (Bool-cases (hits seed q b)) [
    | inl there ↦ absurd (ground (arith, match_of_hits seed p q b hit there, ne))
    | inr away ↦ rw away refl
  ];
  hit = (hit, tt);
}
Finds-IsSpot seed p c place once (misses nowhere) = record {
  shape = sym (append-nil c);
  before_none = nowhere;
  after_none = refl;
  own = λ q ne. refl;
  hit = tt;
}

Finds-some :
    (seed : ℕ) (p : Packet) (c : Chain) (o : Option Place)
    → Finds seed p c o
    → (place : Place) × (o ≡ some place) × Finds seed p c (some place)
Finds-some seed p c _ (finds before after b shape hit none_before) =
    (_, refl, finds before after b shape hit none_before)
Finds-some seed p c _ (misses nowhere) = (_, refl, misses nowhere)

-- `find_bucket` runs to its end, and returns the home chain of the packet and its spot there.
pub find_bucket-IsSpot :
    (h : PacketHash) (p : Packet)
    → IsSound h
    → (place : Place) × (find_bucket h p (hash_of h.seed p)
        ≡ some (home h.seed (length h.table) p, place))
      × IsSpot h.seed p (home_chain h.seed h.table p) place
unfolding find_bucket
find_bucket-IsSpot h p s =
    let c = home_chain h.seed h.table p in
    let inside : hash_of h.seed p % h.capacity < length h.table =
      omega (arith, s.width, s.positive, s.at_least) in
    let (place, ran, f) =
      Finds-some h.seed p c _ (find_in-Finds h.seed p c (s.placed.in_order _)) in
    (
      place,
      rw (sym s.width) (
          rw
            (
              get_elem?-eq-get_or h.table (home h.seed (length h.table) p) []
                  (omega (arith, inside, s.width)),
              ran,
            )
            refl),
      Finds-IsSpot h.seed p c place (s.placed.once p _) f,
    )

-- other buckets of `p` in the place of those found
module _ (seed : ℕ) (t : List Chain) (p : Packet) (place : Place)
    (spot : IsSpot seed p (home_chain seed t p) place) (w : IsPlaced seed t) (bs : Chain) where
  abbrev replaced : Chain
  replaced = place.before ++ (bs ++ place.after)

  count-three :
      (q : Packet) (xs : Chain)
      → count seed q (place.before ++ (xs ++ place.after))
        ≡ count seed q place.before + (count seed q xs + count seed q place.after)
  count-three q xs = omega (
    arith,
    count-append seed q place.before (xs ++ place.after),
    count-append seed q xs place.after,
  )

  find-three :
      (q : Packet) (xs : Chain)
      → find seed q (place.before ++ (xs ++ place.after))
        ≡ Option.or_else
            (find seed q place.before)
            (Option.or_else (find seed q xs) (find seed q place.after))
  find-three q xs =
      rw (find-append seed q place.before (xs ++ place.after), find-append seed q xs place.after)

  or_else-none : (o : Option (List Packet)) → Option.or_else o none ≡ o
  unfolding Option.or_else
  or_else-none none = refl
  or_else-none (some x) = refl

  find-middle : (xs : Chain) → find seed p (place.before ++ (xs ++ place.after)) ≡ find seed p xs
  unfolding Option.or_else
  find-middle xs =
      find-three p xs
      ∙ rw
          (
            find-eq-none seed p place.before spot.before_none,
            find-eq-none seed p place.after spot.after_none,
          )
          (or_else-none (find seed p xs))

  -- what the place had for `p` is what the table has
  pub view-found : view seed t p ≡ find seed p (as_chain place.found)
  unfolding view
  view-found = rw spot.shape (find-middle (as_chain place.found))

  pub found-IsBucket : All (IsBucket seed) (as_chain place.found)
  found-IsBucket =
      All-left _ (as_chain place.found) place.after
        (All-right _ place.before _ (rw spot.shape at (w.in_order (home seed (length t) p))))

  find-outside :
      (q : Packet) (xs : Chain)
      → count seed q xs ≡ 0
      → find seed q (place.before ++ (xs ++ place.after))
        ≡ Option.or_else (find seed q place.before) (find seed q place.after)
  unfolding Option.or_else
  find-outside q xs h = find-three q xs ∙ rw (find-eq-none seed q xs h)

  replaced-Changes :
      All (IsBucket seed) bs → count seed p bs ≤ 1 → IsOwn seed p bs → Changes seed t p replaced
  replaced-Changes ok single own =
      let whole = rw spot.shape at (w.in_order (home seed (length t) p)) in
      record {
        ordered = All-append _ place.before (bs ++ place.after) (All-left _ place.before _ whole) (
            All-append _ bs place.after ok
              (All-right _ (as_chain place.found) place.after (All-right _ place.before _ whole)));
        single = omega (arith, count-three p bs, spot.before_none, spot.after_none);
        same_count = λ q ne. rw spot.shape (
            omega (
              arith,
              count-three q bs,
              count-three q (as_chain place.found),
              own q ne,
              spot.own q ne,
            ));
        same_find = λ q ne. rw spot.shape (
            find-outside q bs (own q ne)
            ∙ sym (find-outside q (as_chain place.found) (spot.own q ne)));
      }

  module _ (pos : 0 < length t) (ok : All (IsBucket seed) bs) (single : count seed p bs ≤ 1)
      (own : IsOwn seed p bs) where
    abbrev rewritten : List Chain
    rewritten = written seed t p replaced pos

    pub rewritten-IsPlaced : IsPlaced seed rewritten
    rewritten-IsPlaced = written-IsPlaced seed t p replaced pos w (replaced-Changes ok single own)

    pub total-rewritten : total rewritten + length (as_chain place.found) ≡ total t + length bs
    total-rewritten =
        let old = ap length spot.shape in
        omega (
          arith,
          total-written seed t p replaced pos,
          old,
          length-append place.before (bs ++ place.after),
          length-append bs place.after,
          length-append place.before (as_chain place.found ++ place.after),
          length-append (as_chain place.found) place.after,
        )

    pub view-rewritten :
        (q : Packet)
        → view seed rewritten q ≡ (if primary_match q p then find seed p bs else view seed t q)
    view-rewritten q =
        view-written seed t p replaced pos (replaced-Changes ok single own) q ∙ rw (find-middle bs)

-- A table in order with the buckets `bs` of `p` at the place of `p`, when `n` buckets are counted.
pub write_place_lem :
    (h : PacketHash) (p : Packet) (place : Place) (bs : Chain) (n : ℕ)
    → IsSound h
    → IsSpot h.seed p (home_chain h.seed h.table p) place
    → All (IsBucket h.seed) bs
    → count h.seed p bs ≤ 1
    → IsOwn h.seed p bs
    → n + length (as_chain place.found) ≡ h.buckets + length bs
    → let h' = record (write_place h (home h.seed (length h.table) p) place bs) { buckets = n } in
      IsSound h'
      × ((q : Packet) → lookup h' q ≡ (if primary_match q p then find h.seed p bs else lookup h q))
unfolding write_place lookup
write_place_lem h p place bs n s spot ok single own counted =
    let pos : 0 < length h.table = omega (arith, s.width, s.positive, s.at_least) in
    (
      record {
        width = length-set h.table (home h.seed (length h.table) p) _ ∙ s.width;
        seeded = s.seeded;
        positive = s.positive;
        at_least = s.at_least;
        counted = omega (
          arith,
          total-rewritten h.seed h.table p place spot s.placed bs pos ok single own,
          counted,
          s.counted,
        );
        placed = rewritten-IsPlaced h.seed h.table p place spot s.placed bs pos ok single own;
      },
      view-rewritten h.seed h.table p place spot s.placed bs pos ok single own,
    )

module _ (h : PacketHash) (p : Packet) (place : Place) (s : IsSound h)
    (spot : IsSpot h.seed p (home_chain h.seed h.table p) place) where
  lookup-found : lookup h p ≡ find h.seed p (as_chain place.found)
  unfolding lookup
  lookup-found = view-found h.seed h.table p place spot s.placed []

  pub lookup-missing : place.found ≡ none → lookup h p ≡ none
  unfolding find
  lookup-missing e = lookup-found ∙ rw e refl

  pub lookup-bucket : (b : Bucket) → place.found ≡ some b → lookup h p ≡ some b.packets
  unfolding find
  lookup-bucket b e = lookup-found ∙ rw e (rw ((rw e at spot.hit).0) refl)

  -- a table that has a bucket counts one
  pub some_bucket : (b : Bucket) → place.found ≡ some b → 0 < h.buckets
  unfolding count
  some_bucket b e =
      let pos : 0 < length h.table = omega (arith, s.width, s.positive, s.at_least) in
      let n =
        total-rewritten h.seed h.table p place spot s.placed [] pos tt (omega arith)
          (λ q ne. refl) in
      omega (arith, s.counted, rw e at n)

-- a bucket that begins with a packet which `p` matches
module _ (seed : ℕ) (p f : Packet) (fs : List Packet) (hash : ℕ) (ok : AllMatch seed hash (f ∷ fs))
    (m : primary_match p f ≡ true) where
  abbrev pub own_bucket : Bucket
  own_bucket = record { hash_value = hash; packets = f ∷ fs }

  pub count-own : count seed p (own_bucket ∷ []) ≤ 1
  unfolding count
  count-own = ground arith

  pub find-own : find seed p (own_bucket ∷ []) ≡ some (f ∷ fs)
  unfolding find
  find-own = rw (hits_first seed p f fs hash ok.0, m)

  pub IsOwn-own_bucket : IsOwn seed p (own_bucket ∷ [])
  unfolding count
  IsOwn-own_bucket =
      λ q ne. rw (hits_first seed q f fs hash ok.0, sym (match_congr p f q m), ne) refl
