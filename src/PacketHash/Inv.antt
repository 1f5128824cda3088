-- ===== src/PacketHash/Inv.antt =====
-- Where the buckets of a table stand, what the table means, and a write to one chain.
use dns_collector.Prelude.{
  ℕ, zero, suc, ◌+◌, ◌%◌, ◌≤◌, ◌<◌, ◌≡◌, ◌≢◌, false, Option, List, [], ◌∷◌, All, ◌==◌,
  if◌then◌else◌, get_or, set, length, length-set, get_or-set, arith, Bool-cases, inl, inr,
}
use dns_collector.Packet.{Packet}
use dns_collector.Packet.Match.{primary_match}
use dns_collector.PacketHash.{Chain}
use dns_collector.PacketHash.Chain.{
  hash_of, hash_of-eq, find, count, IsBucket, find_congr, count_congr,
}

-- the number of buckets
unfoldable pub total : List Chain → ℕ
total [] = 0
total (c ∷ cs) = length c + total cs

pub total-set :
    (t : List Chain) (i : ℕ) (c : Chain)
    → i < length t
    → total (set t i c) + length (get_or t i []) ≡ total t + length c
unfolding total
total-set [] i c h = absurd (omega arith)
total-set (x ∷ t) zero c h = omega arith
total-set (x ∷ t) (suc i) c h = omega (arith, total-set t i c (omega arith))

module _ (seed : ℕ) where
  -- the chain of a packet in a table of `n` chains
  abbrev pub home : ℕ → Packet → ℕ
  home n p = hash_of seed p % n

  abbrev pub home_chain : List Chain → Packet → Chain
  home_chain t p = get_or t (home (length t) p) []

  -- the packets that the table has under the key of `q`, the newest first
  unfoldable pub view : List Chain → Packet → Option (List Packet)
  view t q = find seed q (home_chain t q)

  -- All buckets are in order; a packet belongs in at most one, which stands in its home chain.
  pub record IsPlaced (t : List Chain) : Type 0 where
    pub in_order : (i : ℕ) → All (IsBucket seed) (get_or t i [])
    pub once : (q : Packet) (i : ℕ) → count seed q (get_or t i []) ≤ 1
    pub at_home : (q : Packet) (i : ℕ) → home (length t) q ≢ i → count seed q (get_or t i []) ≡ 0

  -- A new home chain of `p` which differs from the old one in what belongs to `p` alone.
  pub record Changes (t : List Chain) (p : Packet) (c : Chain) : Type 0 where
    pub ordered : All (IsBucket seed) c
    pub single : count seed p c ≤ 1
    pub same_count :
        (q : Packet) → primary_match q p ≡ false → count seed q c ≡ count seed q (home_chain t p)
    pub same_find :
        (q : Packet) → primary_match q p ≡ false → find seed q c ≡ find seed q (home_chain t p)

  module _ (t : List Chain) (p : Packet) (c : Chain) (pos : 0 < length t) where
    abbrev pub written : List Chain
    written = set t (home (length t) p) c

    home-lt : home (length t) p < length t
    home-lt = omega arith

    chain-written :
        (j : ℕ) → get_or written j [] ≡ (if home (length t) p == j then c else get_or t j [])
    chain-written j = get_or-set t (home (length t) p) j c [] home-lt

    pub total-written : total written + length (home_chain t p) ≡ total t + length c
    total-written = total-set t (home (length t) p) c home-lt

    pub view-written :
        Changes t p c
        → (q : Packet) → view written q ≡ (if primary_match q p then find seed p c else view t q)
    unfolding view
    view-written ch q =
        rw (length-set t (home (length t) p) c, chain-written (home (length t) q))
          (elim (Bool-cases (primary_match q p)) [
            | inl e ↦ rw e (ground (arith, hash_of-eq seed q p e, find_congr seed q p c e))
            | inr e ↦ rw e (ground (arith, ch.same_find q e))
          ])

    in_order-written :
        IsPlaced t
        → Changes t p c
        → (j : ℕ) → All (IsBucket seed) (if home (length t) p == j then c else get_or t j [])
    in_order-written w ch j = elim (Bool-cases (home (length t) p == j)) [
      | inl e ↦ rw e ch.ordered
      | inr e ↦ rw e (w.in_order j)
    ]

    count-written :
        IsPlaced t
        → Changes t p c
        → (q : Packet) (j : ℕ)
        → let n = count seed q (if home (length t) p == j then c else get_or t j []) in
          (n ≤ 1) × (home (length t) q ≢ j → n ≡ 0)
    count-written w ch q j = elim (Bool-cases (primary_match q p)) [
      | inl e ↦
          let same = hash_of-eq seed q p e in
          let counted = count_congr seed q p c e in
          ground (arith, same, counted, ch.single, w.once q j, w.at_home q j)
      | inr e ↦ ground (arith, ch.same_count q e, w.once q j, w.at_home q j)
    ]

    pub written-IsPlaced : IsPlaced t → Changes t p c → IsPlaced written
    written-IsPlaced w ch = record {
      in_order = λ j. rw (chain-written j) (in_order-written w ch j);
      once = λ q j. rw (chain-written j) ((count-written w ch q j).0);
      at_home = λ q j away.
          rw (chain-written j)
            ((count-written w ch q j).1 (rw (length-set t (home (length t) p) c) at away));
    }
