-- ===== src/PacketHash/Valid.antt =====
-- What holds of a table between two calls, and that resizing keeps it.
use mathlib.Core.Option
use dns_collector.Prelude.{
  ℕ, zero, suc, ◌+◌, ◌*◌, ◌/◌, ◌^◌, ◌≤◌, ◌<◌, ◌≡◌, refl, sym, ◌∙◌, Option, none, some, List, [],
  ◌==◌, ltb, if◌then◌else◌, length, length-replicate, get_or-replicate, replicate, arith,
  Bool-cases, inl, inr, ◌⊎◌, mul64,
}
use dns_collector.Packet.{Packet}
use dns_collector.PacketHash.{
  Chain, PacketHash, move_all, clamp_capacity, resize, create, grow, shrink,
}
use dns_collector.PacketHash.Chain.{find, count}
use dns_collector.PacketHash.Inv.{total, home, view, IsPlaced}
use dns_collector.PacketHash.Resize.{
  flat, length-flat, move_all-flat, flat-view, All-flat, Moved, move_chain-Moves,
}

-- The chains hold what the fields of the table say.
pub record IsSound (h : PacketHash) : Type 0 where
  pub width : length h.table ≡ h.capacity
  pub seeded : 0x100 < h.seed
  pub positive : 0 < h.min_capacity
  pub at_least : h.min_capacity ≤ h.capacity
  pub counted : h.buckets ≡ total h.table
  pub placed : IsPlaced h.seed h.table

-- The numbers of buckets and chains are in proportion, and their products fit in 64 bits.
pub record IsBalanced (h : PacketHash) : Type 0 where
  pub load : h.buckets ≤ h.capacity * 75 / 100
  pub dense : (h.capacity ≡ h.min_capacity) ⊎ (h.capacity * 25 / 100 ≤ h.buckets)
  pub small : h.min_capacity ≤ 2 ^ 50
  pub few : h.buckets ≤ 2 ^ 50

abbrev pub IsValid : PacketHash → Type 0
IsValid h = IsSound h × IsBalanced h

-- the packets that a table has under the key of `q`, the newest first
unfoldable pub lookup : PacketHash → Packet → Option (List Packet)
lookup h q = view h.seed h.table q

-- `h'` is `h` with `n` chains
pub record Resized (h : PacketHash) (n : ℕ) (h' : PacketHash) : Type 0 where
  pub size : h'.capacity ≡ n
  pub same_min : h'.min_capacity ≡ h.min_capacity
  pub same_seed : h'.seed ≡ h.seed
  pub same_buckets : h'.buckets ≡ h.buckets
  pub sound : IsSound h'
  pub same_lookup : (q : Packet) → lookup h' q ≡ lookup h q

abbrev no_buckets : Chain
no_buckets = []

total-empty : (n : ℕ) → total (replicate n []) ≡ 0
unfolding total
total-empty zero = refl
total-empty (suc n) = omega (arith, total-empty n)

empty-IsPlaced : (seed n : ℕ) → IsPlaced seed (replicate n [])
unfolding count
empty-IsPlaced seed n = record {
  in_order = λ i. rw (get_or-replicate n i no_buckets) tt;
  once = λ q i. rw (get_or-replicate n i no_buckets) (omega arith);
  at_home = λ q i away. rw (get_or-replicate n i no_buckets) refl;
}

view-empty : (seed n : ℕ) (q : Packet) → view seed (replicate n []) q ≡ none
unfolding view find
view-empty seed n q =
    rw (get_or-replicate n (home seed (length (replicate n no_buckets)) q) no_buckets) refl

-- A new array gets every bucket of the old one.
move_all-Moved :
    (seed : ℕ) (t : List Chain) (n : ℕ)
    → 0 < n
    → IsPlaced seed t
    → (t' : List Chain) × (move_all t (replicate n []) ≡ some t')
      × Moved seed (replicate n []) (flat t) t'
move_all-Moved seed t n pos w =
    let (t', ran, m) =
      move_chain-Moves seed (flat t) (replicate n []) (rw (length-replicate n no_buckets) pos)
        (empty-IsPlaced seed n) (All-flat seed t w.in_order) (λ q. (flat-view seed q t w).1)
        (λ q h. view-empty seed n q) in
    (t', move_all-flat t (replicate n []) ∙ ran, m)

or_else-none : (o : Option (List Packet)) → Option.or_else o none ≡ o
unfolding Option.or_else
or_else-none none = refl
or_else-none (some x) = refl

-- Resizing a table in order runs to its end: the table has the size asked for, but not below the
-- minimum, all else is in order and as before, and each packet finds what it found before.
pub resize_lem :
    (h : PacketHash) (asked : ℕ)
    → IsSound h
    → (h' : PacketHash) × (resize h asked ≡ some h') × Resized h (clamp_capacity h asked) h'
unfolding resize clamp_capacity lookup Option.or_else
resize_lem h asked s = elim (Bool-cases (clamp_capacity h asked == h.capacity)) [
  | inl e ↦ (
    h,
    rw e refl,
    record {
      size = ground (arith, e);
      same_min = refl;
      same_seed = refl;
      same_buckets = refl;
      sound = s;
      same_lookup = λ q. refl;
    },
  )
  | inr e ↦
      let n = clamp_capacity h asked in
      let pos : 0 < n = ground (arith, s.positive) in
      let (t', ran, m) = move_all-Moved h.seed h.table n pos s.placed in
      (
        record h { table = t'; capacity = n },
        rw (e, ran) refl,
        record {
          size = refl;
          same_min = refl;
          same_seed = refl;
          same_buckets = refl;
          sound = record {
            width = m.width ∙ length-replicate n no_buckets;
            seeded = s.seeded;
            positive = s.positive;
            at_least = ground arith;
            counted = omega (arith, m.more, total-empty n, length-flat h.table, s.counted);
            placed = m.placed;
          };
          same_lookup = λ q.
              m.reads q
              ∙ rw (view-empty h.seed n q, (flat-view h.seed q h.table s.placed).0)
                  (or_else-none (view h.seed h.table q));
        },
      )
]

-- a table that is valid and means what `h` means
pub record Settled (h : PacketHash) (h' : PacketHash) : Type 0 where
  pub valid : IsValid h'
  pub same_seed : h'.seed ≡ h.seed
  pub same_buckets : h'.buckets ≡ h.buckets
  pub same_min : h'.min_capacity ≡ h.min_capacity
  pub same_lookup : (q : Packet) → lookup h' q ≡ lookup h q

-- twice the number of buckets, or the minimum, is a size in proportion
balanced_size :
    (m b n : ℕ)
    → b ≤ 2 ^ 50
    → m ≤ 2 ^ 50
    → n ≡ (if ltb (mul64 b 100 / 50) m then m else mul64 b 100 / 50)
    → (b ≤ n * 75 / 100) × ((n ≡ m) ⊎ (n * 25 / 100 ≤ b))
balanced_size m b n few small e = (ground (arith, e), ground (arith, e))

module _ (h : PacketHash) (s : IsSound h) (small : h.min_capacity ≤ 2 ^ 50)
    (few : h.buckets ≤ 2 ^ 50) where
  resize-Settled :
      (h' : PacketHash) × (resize h (mul64 h.buckets 100 / 50) ≡ some h') × Settled h h'
  unfolding clamp_capacity
  resize-Settled =
      let (h', ran, r) = resize_lem h (mul64 h.buckets 100 / 50) s in
      let (load, dense) = balanced_size h.min_capacity h.buckets h'.capacity few small r.size in
      (
        h',
        ran,
        record {
          valid = (
            r.sound,
            record {
              load = omega (arith, load, r.same_buckets);
              dense = ground (arith, dense, r.same_buckets, r.same_min);
              small = omega (arith, r.same_min, small);
              few = omega (arith, r.same_buckets, few);
            },
          );
          same_seed = r.same_seed;
          same_buckets = r.same_buckets;
          same_min = r.same_min;
          same_lookup = r.same_lookup;
        },
      )

  unchanged :
      h.buckets ≤ h.capacity * 75 / 100
      → (h.capacity ≡ h.min_capacity) ⊎ (h.capacity * 25 / 100 ≤ h.buckets)
      → Settled h h
  unchanged load dense = record {
    valid = (s, record { load = load; dense = dense; small = small; few = few });
    same_seed = refl;
    same_buckets = refl;
    same_min = refl;
    same_lookup = λ q. refl;
  }

  -- after a bucket more than a table in proportion has
  pub grow_lem :
      (h.capacity ≡ h.min_capacity) ⊎ (h.capacity * 25 / 100 ≤ h.buckets)
      → (h' : PacketHash) × (grow h ≡ some h') × Settled h h'
  unfolding grow
  grow_lem dense = elim (Bool-cases (ltb (mul64 h.capacity 75 / 100) h.buckets)) [
    | inl e ↦ let (h', ran, k) = resize-Settled in (h', rw e ran, k)
    | inr e ↦ (h, rw e refl, unchanged (ground (arith, e, dense)) dense)
  ]

  -- after a bucket less
  pub shrink_lem :
      h.buckets ≤ h.capacity * 75 / 100
      → (h.capacity ≡ h.min_capacity) ⊎ (h.capacity * 25 / 100 ≤ h.buckets + 1)
      → (h' : PacketHash) × (shrink h ≡ some h') × Settled h h'
  unfolding shrink
  shrink_lem load dense = elim (Bool-cases (ltb h.buckets (mul64 h.capacity 25 / 100))) [
    | inl e ↦ let (h', ran, k) = resize-Settled in (h', rw e ran, k)
    | inr e ↦ (h, rw e refl, unchanged load (ground (arith, e, dense)))
  ]

-- A table that has just been made is valid and has no packets.
pub create-IsValid :
    (r r' capacity seed : ℕ)
    → 0 < capacity
    → capacity ≤ 2 ^ 50
    → 0x100 < (create r r' capacity seed).seed
    → IsValid (create r r' capacity seed)
      × ((q : Packet) → lookup (create r r' capacity seed) q ≡ none)
unfolding create lookup
create-IsValid r r' n seed pos small seeded =
    let h = create r r' n seed in
    (
      (
        record {
          width = length-replicate n no_buckets;
          seeded = seeded;
          positive = pos;
          at_least = omega arith;
          counted = sym (total-empty n);
          placed = empty-IsPlaced h.seed n;
        },
        record { load = omega arith; dense = inl refl; small = small; few = omega arith },
      ),
      view-empty h.seed n,
    )
