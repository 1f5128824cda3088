-- ===== src/Matcher/Waiting.antt =====
-- The hash table holds exactly the requests of the queue that have no response yet.
use mathlib.Core.Option
use dns_collector.Prelude.{
  ◌+◌, ◌<◌, ◌≤◌, ◌^◌, ◌≡◌, ◌≢◌, refl, sym, ◌∙◌, ap, true, false, ◌&&◌, some, List, [], ◌∷◌, ◌++◌,
  ◌==◌, if◌then◌else◌, All, All-append, arith, Bool-cases, inl, inr,
}
use dns_collector.Packet.{Packet}
use dns_collector.Packet.Match.{primary_match}
use dns_collector.PacketHash.{PacketHash, unlink, insert_packet}
use dns_collector.PacketHash.Insert.{insert_packet-Inserted}
use dns_collector.PacketHash.Chain.{match_refl, match_congr_left}
use dns_collector.PacketHash.Valid.{IsValid, lookup}
use dns_collector.PacketHash.Remove.{nonempty, remove_packet-Removed}
use dns_collector.Matcher.{is_waiting, exit_table}

-- the requests of a queue without a response that `q` matches, the newest first
unfoldable pub waiting : Packet → List Packet → List Packet
waiting q [] = []
waiting q (p ∷ ps) =
    let later = waiting q ps in if is_waiting p && primary_match q p then later ++ p ∷ [] else later

-- No address stands twice in the queue.
abbrev pub Distinct : List Packet → Type 0
Distinct [] = Unit
Distinct (p ∷ ps) = All (λ q. q.address ≢ p.address) ps × Distinct ps

pub record Holds (h : PacketHash) (queue : List Packet) : Type 0 where
  pub valid : IsValid h
  pub agrees : (q : Packet) → lookup h q ≡ nonempty (waiting q queue)
  pub distinct : Distinct queue

pub waiting_congr :
    (p q : Packet) (ps : List Packet) → primary_match p q ≡ true → waiting p ps ≡ waiting q ps
unfolding waiting
waiting_congr p q [] m = refl
waiting_congr p q (r ∷ rs) m = rw (match_congr_left p q r m, waiting_congr p q rs m)

pub All-waiting :
    (P : Packet → Type 0) (q : Packet) (ps : List Packet) → All P ps → All P (waiting q ps)
unfolding waiting
All-waiting P q [] h = tt
All-waiting P q (p ∷ ps) h = elim (Bool-cases (is_waiting p && primary_match q p)) [
  | inl e ↦ rw e (All-append _ (waiting q ps) (p ∷ []) (All-waiting P q ps h.1) (h.0, tt))
  | inr e ↦ rw e (All-waiting P q ps h.1)
]

pub unlink-last :
    (p : Packet) (xs : List Packet)
    → All (λ q. q.address ≢ p.address) xs
    → unlink p.address (xs ++ p ∷ []) ≡ some xs
unfolding unlink
unlink-last p [] h = let same : (p.address == p.address) ≡ true = ground arith in rw same refl
unlink-last p (x ∷ xs) h =
    let other : (x.address == p.address) ≡ false = ground (arith, h.0) in
    rw (other, unlink-last p xs h.1) refl

nonempty-snoc : (xs : List Packet) (p : Packet) → nonempty (xs ++ p ∷ []) ≡ some (xs ++ p ∷ [])
unfolding nonempty
nonempty-snoc [] p = refl
nonempty-snoc (x ∷ xs) p = refl

-- The packet at the head leaves.
pub exit_table-Holds :
    (h : PacketHash) (p : Packet) (ps : List Packet)
    → Holds h (p ∷ ps)
    → (h' : PacketHash) × (exit_table h p ≡ some h') × Holds h' ps × (h'.buckets ≤ h.buckets)
unfolding exit_table waiting
exit_table-Holds h p ps v = elim (Bool-cases (is_waiting p)) [
  | inr e ↦ (
    h,
    rw e refl,
    record { valid = v.valid; agrees = λ q. v.agrees q ∙ rw e refl; distinct = v.distinct.1 },
    omega arith,
  )
  | inl e ↦
      let has : lookup h p ≡ some (waiting p ps ++ p ∷ []) =
        v.agrees p ∙ rw (e, match_refl p) (nonempty-snoc (waiting p ps) p) in
      let (h', ran, k) =
        remove_packet-Removed h p _ (waiting p ps) v.valid has
          (unlink-last p (waiting p ps) (All-waiting _ p ps v.distinct.0)) in
      (
        h',
        rw e ran,
        record {
          valid = k.valid;
          agrees = λ q. elim (Bool-cases (primary_match q p)) [
            | inl m ↦ k.reads q ∙ rw m (ap nonempty (sym (waiting_congr q p ps m)))
            | inr m ↦ k.reads q ∙ rw m (v.agrees q ∙ rw (e, m) refl)
          ];
          distinct = v.distinct.1;
        },
        k.no_more,
      )
]

pub waiting-snoc :
    (q p : Packet) (ps : List Packet)
    → waiting q (ps ++ p ∷ [])
      ≡ (if is_waiting p && primary_match q p then p ∷ waiting q ps else waiting q ps)
unfolding waiting
waiting-snoc q p [] = ground arith
waiting-snoc q p (r ∷ rs) = rw (waiting-snoc q p rs) (ground arith)

pub Distinct-snoc :
    (p : Packet) (ps : List Packet)
    → Distinct ps
    → All (λ q. q.address ≢ p.address) ps
    → Distinct (ps ++ p ∷ [])
Distinct-snoc p [] d h = (tt, tt)
Distinct-snoc p (q ∷ qs) d h =
    (All-append _ qs (p ∷ []) d.0 ((λ e. h.0 (sym e)), tt), Distinct-snoc p qs d.1 h.1)

get_or-nonempty : (xs : List Packet) → Option.get_or (nonempty xs) [] ≡ xs
unfolding nonempty
get_or-nonempty [] = refl
get_or-nonempty (x ∷ xs) = refl

-- A request that has just come goes into the table and to the end of the queue.
pub insert_packet-Holds :
    (h : PacketHash) (p : Packet) (ps : List Packet)
    → Holds h ps
    → h.buckets < 2 ^ 50
    → is_waiting p ≡ true
    → All (λ q. q.address ≢ p.address) ps
    → (h' : PacketHash) × (insert_packet h p ≡ some h')
      × Holds h' (ps ++ p ∷ [])
      × (h'.buckets ≤ h.buckets + 1)
unfolding nonempty
insert_packet-Holds h p ps v few new apart =
    let (h', ran, k) = insert_packet-Inserted h p v.valid few in
    (
      h',
      ran,
      record {
        valid = k.valid;
        agrees = λ q. k.reads q ∙ rw (waiting-snoc q p ps, new, v.agrees p, v.agrees q) (front q);
        distinct = Distinct-snoc p ps v.distinct apart;
      },
      k.at_most,
    )
  where
    front :
        (q : Packet)
        → (if primary_match q p
            then some (p ∷ Option.get_or (nonempty (waiting p ps)) [])
            else nonempty (waiting q ps))
          ≡ nonempty (if primary_match q p then p ∷ waiting q ps else waiting q ps)
    front q = elim (Bool-cases (primary_match q p)) [
      | inl m ↦ rw (m, get_or-nonempty (waiting p ps), waiting_congr q p ps m) refl
      | inr m ↦ rw m refl
    ]
