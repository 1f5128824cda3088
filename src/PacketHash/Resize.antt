-- ===== src/PacketHash/Resize.antt =====
-- Resizing moves every bucket to its chain in the new array and keeps what the table means.
use mathlib.Core.Option
use dns_collector.Prelude.{
  ℕ, zero, suc, ◌+◌, ◌≤◌, ◌<◌, ◌≡◌, ◌≢◌, refl, sym, ◌∙◌, none, some, List, [], ◌∷◌, ◌++◌, All,
  All-append, get_or, length, length-set, length-append, get_elem?-eq-get_or, arith, ◌>>=◌,
  >>=_assoc, >>=_congr,
}
use dns_collector.Packet.{Packet}
use dns_collector.PacketHash.{Bucket, Chain, push_front, move_chain, move_all}
use dns_collector.PacketHash.Chain.{
  hash_of, find, count, IsBucket, AllMatch, hits_first, find-append, count-append, find-eq-none,
  count-eq_zero, match_refl,
}
use dns_collector.PacketHash.Inv.{
  total, home, home_chain, view, IsPlaced, Changes, written, view-written, written-IsPlaced,
  total-written,
}

-- all buckets of a table, chain by chain
unfoldable pub flat : List Chain → Chain
flat [] = []
flat (c ∷ cs) = c ++ flat cs

pub length-flat : (t : List Chain) → length (flat t) ≡ total t
unfolding flat total
length-flat [] = refl
length-flat (c ∷ cs) = omega (arith, length-append c (flat cs), length-flat cs)

move_chain-append :
    (a b : Chain) (t : List Chain) → move_chain (a ++ b) t ≡ (move_chain a t >>= move_chain b)
unfolding move_chain
move_chain-append [] b t = refl
move_chain-append (x ∷ a) b t =
    >>=_congr (push_front t x) _ _ (move_chain-append a b)
    ∙ sym (>>=_assoc (push_front t x) (move_chain a) (move_chain b))

-- the two loops are one loop over all buckets
pub move_all-flat : (cs t : List Chain) → move_all cs t ≡ move_chain (flat cs) t
unfolding move_all flat move_chain
move_all-flat [] t = refl
move_all-flat (c ∷ cs) t =
    >>=_congr (move_chain c t) _ _ (move_all-flat cs) ∙ sym (move_chain-append c (flat cs) t)

module _ (seed : ℕ) where
  count-flat_nowhere :
      (q : Packet) (t : List Chain)
      → ((i : ℕ) → count seed q (get_or t i []) ≡ 0)
      → count seed q (flat t) ≡ 0
  unfolding flat count
  count-flat_nowhere q [] h = refl
  count-flat_nowhere q (c ∷ cs) h =
      omega (arith, count-append seed q c (flat cs), h 0, count-flat_nowhere q cs (λ i. h (suc i)))

  -- A packet whose buckets are all in chain `j` finds in the whole table what it finds there.
  flat_home :
      (q : Packet) (t : List Chain) (j : ℕ)
      → ((i : ℕ) → j ≢ i → count seed q (get_or t i []) ≡ 0)
      → (find seed q (flat t) ≡ find seed q (get_or t j []))
        × (count seed q (flat t) ≡ count seed q (get_or t j []))
  unfolding flat find count Option.or_else
  flat_home q [] j h = (refl, refl)
  flat_home q (c ∷ cs) zero h =
      let elsewhere = count-flat_nowhere q cs (λ i. h (suc i) (omega arith)) in
      (
        rw (find-append seed q c (flat cs), find-eq-none seed q (flat cs) elsewhere) (ground arith),
        omega (arith, count-append seed q c (flat cs), elsewhere),
      )
  flat_home q (c ∷ cs) (suc j) h =
      let here = h 0 (omega arith) in
      let (f, n) = flat_home q cs j (λ i ne. h (suc i) (omega arith)) in
      (
        rw (find-append seed q c (flat cs), find-eq-none seed q c here) f,
        omega (arith, count-append seed q c (flat cs), here, n),
      )

  pub flat-view :
      (q : Packet) (t : List Chain)
      → IsPlaced seed t
      → (find seed q (flat t) ≡ view seed t q) × (count seed q (flat t) ≤ 1)
  unfolding view
  flat-view q t w =
      let (f, n) = flat_home q t (home seed (length t) q) (w.at_home q) in
      (f, omega (arith, n, w.once q (home seed (length t) q)))

  pub All-flat :
      (t : List Chain)
      → ((i : ℕ) → All (IsBucket seed) (get_or t i []))
      → All (IsBucket seed) (flat t)
  unfolding flat
  All-flat [] h = tt
  All-flat (c ∷ cs) h = All-append _ c (flat cs) (h 0) (All-flat cs (λ i. h (suc i)))

  -- a table that holds the buckets `bs` besides those of `t`
  pub record Moved (t : List Chain) (bs : Chain) (t' : List Chain) : Type 0 where
    pub width : length t' ≡ length t
    pub more : total t' ≡ total t + length bs
    pub placed : IsPlaced seed t'
    pub reads : (q : Packet) → view seed t' q ≡ Option.or_else (find seed q bs) (view seed t q)

  -- one bucket more, of a packet `f` that the table has no bucket for
  front-Changes :
      (t : List Chain) (f : Packet) (fs : List Packet) (hash : ℕ)
      → IsPlaced seed t
      → AllMatch seed hash (f ∷ fs)
      → count seed f (home_chain seed t f) ≡ 0
      → Changes seed t f (record { hash_value = hash; packets = f ∷ fs } ∷ home_chain seed t f)
  unfolding count find
  front-Changes t f fs hash w ok absent = record {
    ordered = (ok, w.in_order _);
    single = rw (hits_first seed f f fs hash ok.0) (ground (arith, absent));
    same_count = λ q e. rw (hits_first seed q f fs hash ok.0, e) (omega arith);
    same_find = λ q e. rw (hits_first seed q f fs hash ok.0, e);
  }

  module _ (t : List Chain) (pos : 0 < length t) (w : IsPlaced seed t) where
    -- `push_front` for a bucket in order, as a write to the home chain of its first packet
    push_front-written :
        (f : Packet) (fs : List Packet) (hash : ℕ)
        → hash ≡ hash_of seed f
        → let b : Bucket = record { hash_value = hash; packets = f ∷ fs } in
          push_front t b ≡ some (written seed t f (b ∷ home_chain seed t f) pos)
    unfolding push_front
    push_front-written f fs hash e =
        rw (e, get_elem?-eq-get_or t (home seed (length t) f) [] (omega arith))

    push_front-Moved :
        (f : Packet) (fs : List Packet) (hash : ℕ)
        → AllMatch seed hash (f ∷ fs)
        → view seed t f ≡ none
        → let b : Bucket = record { hash_value = hash; packets = f ∷ fs } in
          Moved t (b ∷ []) (written seed t f (b ∷ home_chain seed t f) pos)
    unfolding find Option.or_else view
    push_front-Moved f fs hash ok absent =
        let b : Bucket = record { hash_value = hash; packets = f ∷ fs } in
        let c = b ∷ home_chain seed t f in
        let ch = front-Changes t f fs hash w ok (count-eq_zero seed f _ absent) in
        record {
          width = length-set t (home seed (length t) f) c;
          more = omega (arith, total-written seed t f c pos);
          placed = written-IsPlaced seed t f c pos w ch;
          reads = λ q.
              view-written seed t f c pos ch q
              ∙ rw
                  (hits_first seed q f fs hash ok.0, hits_first seed f f fs hash ok.0, match_refl f)
                  (ground arith);
        }

  -- what the loops do with the buckets `bs`, none of which the new table has yet
  abbrev pub Moves : Chain → Type 0
  Moves bs =
      (t : List Chain)
      → 0 < length t
      → IsPlaced seed t
      → All (IsBucket seed) bs
      → ((q : Packet) → count seed q bs ≤ 1)
      → ((q : Packet) → 0 < count seed q bs → view seed t q ≡ none)
      → (t' : List Chain) × (move_chain bs t ≡ some t') × Moved t bs t'

  Moves-cons :
      (ps : List Packet) (hash : ℕ) (bs : Chain)
      → Moves bs
      → Moves (record { hash_value = hash; packets = ps } ∷ bs)
  unfolding move_chain find count Option.or_else
  Moves-cons [] hash bs ih t pos w ok once apart = absurd ok.0
  Moves-cons (f ∷ fs) hash bs ih t pos w ok once apart =
      let self = hits_first seed f f fs hash ok.0.0 ∙ match_refl f in
      let absent = apart f (rw self (omega arith)) in
      let m = push_front-Moved t pos w f fs hash ok.0 absent in
      let front = λ (q : Packet). hits_first seed q f fs hash ok.0.0 in
      let (t', ran, m') =
        ih _ (rw m.width pos) m.placed ok.1 (λ q. omega (arith, once q))
          (λ q h. ground (arith, m.reads q, front q, once q, apart q)) in
      (
        t',
        rw (push_front-written t pos w f fs hash ok.0.0) ran,
        record {
          width = m'.width ∙ m.width;
          more = omega (arith, m'.more, m.more);
          placed = m'.placed;
          reads = λ q. ground (arith, m'.reads q, m.reads q, once q, find-eq-none seed q bs);
        },
      )

  pub move_chain-Moves : (bs : Chain) → Moves bs
  unfolding move_chain find Option.or_else
  move_chain-Moves [] t pos w ok once apart =
      (t, refl, record { width = refl; more = omega arith; placed = w; reads = λ q. refl })
  move_chain-Moves (b ∷ bs) t pos w ok once apart =
      Moves-cons b.packets b.hash_value bs (move_chain-Moves bs) t pos w ok once apart
