-- ===== src/PacketHash/Match.antt =====
-- `dns_packet_hash_get_match` takes the first acceptable request of those under the key of a
-- response.
use mathlib.Core.Option
use mathlib.Core.Option.{some_inj}
use dns_collector.Prelude.{
  ℕ, zero, suc, ◌+◌, ◌≡◌, refl, sym, ◌∙◌, Bool, true, false, Option, none, some, List, [], ◌∷◌,
  ◌++◌, All, All-imp, ◌==◌, ltb, length, take, drop, take-append-drop, arith, Bool-cases, inl, inr,
  >>=-eq-some,
}
use dns_collector.Packet.{Packet, is_request, is_response}
use dns_collector.Packet.Match.{qname_match}
use dns_collector.PacketHash.{
  Bucket, PacketHash, Place, unlink, accepts, walk, take_match, search_bucket, get_match,
  max_search,
}
use dns_collector.PacketHash.Chain.{primary_hash-hash_of}
use dns_collector.PacketHash.Inv.{home, home_chain}
use dns_collector.PacketHash.Valid.{IsSound, IsValid, lookup}
use dns_collector.PacketHash.Spot.{IsSpot, find_bucket-IsSpot, lookup-missing, lookup-bucket}
use dns_collector.PacketHash.Remove.{Removed, remove_from_bucket-Removed}

module _ (equal : List ℕ → List ℕ → Bool) (match_qname : Bool) (p : Packet) where
  -- The first of the packets that is accepted, with those before and behind it, or nothing.
  pub data Picks : List Packet → Option Packet → Type 0 where
    picks :
        (before : List Packet) (req : Packet) (after : List Packet)
        → All (λ r. accepts equal match_qname p r ≡ some false) before
        → accepts equal match_qname p req ≡ some true
        → Picks (before ++ (req ∷ after)) (some req)
    passes :
        (reqs : List Packet)
        → All (λ r. accepts equal match_qname p r ≡ some false) reqs
        → Picks reqs none

  Picks-later :
      (r : Packet) (rs : List Packet) (o : Option Packet)
      → accepts equal match_qname p r ≡ some false
      → Picks rs o
      → Picks (r ∷ rs) o
  Picks-later r _ _ no_fit (picks before req after h fit) =
      picks (r ∷ before) req after (no_fit, h) fit
  Picks-later r _ _ no_fit (passes reqs h) = passes (r ∷ reqs) (no_fit, h)

  -- the walk can be asked about each of the packets
  abbrev pub IsAsked : List Packet → Type 0
  IsAsked = All (λ r. (ok : Bool) × (accepts equal match_qname p r ≡ some ok))

  walk-Picks :
      (cnt left : ℕ) (reqs : List Packet)
      → cnt + left ≡ 32
      → IsAsked reqs
      → (o : Option Packet) × (walk equal match_qname p cnt reqs ≡ some o)
        × Picks (take (suc left) reqs) o
  unfolding walk
  walk-Picks cnt left [] few h = (none, refl, passes [] tt)
  walk-Picks cnt zero (r ∷ rs) few ((true, e), h) = (some r, rw e refl, picks [] r [] tt e)
  walk-Picks cnt zero (r ∷ rs) few ((false, e), h) =
      (none, rw e (ground (arith, few)), passes (r ∷ []) (e, tt))
  walk-Picks cnt (suc left) (r ∷ rs) few ((true, e), h) =
      (some r, rw e refl, picks [] r (take (suc left) rs) tt e)
  walk-Picks cnt (suc left) (r ∷ rs) few ((false, e), h) =
      let (o, ran, k) = walk-Picks (cnt + 1) left rs (omega arith) h in
      let more : ltb max_search (cnt + 1) ≡ false = ground (arith, few) in
      (o, rw (e, more) ran, Picks-later r _ o e k)

  ask :
      (m : Bool) (r : Packet)
      → is_response p ≡ true
      → is_request r ≡ true
      → (ok : Bool) × (accepts equal m p r ≡ some ok)
  unfolding accepts qname_match
  ask false r resp req = (true, refl)
  ask true r resp req = (Option.get_or (qname_match equal r p) false, rw (req, resp) refl)

  asked :
      (reqs : List Packet)
      → is_response p ≡ true
      → All (λ r. is_request r ≡ true) reqs
      → IsAsked reqs
  asked reqs resp h = All-imp (λ r req. ask match_qname r resp req) reqs h

unlink-runs :
    (req : Packet) (before after : List Packet)
    → (rest : List Packet) × (unlink req.address (before ++ (req ∷ after)) ≡ some rest)
unfolding unlink
unlink-runs req [] after =
    let same : (req.address == req.address) ≡ true = ground arith in (after, rw same refl)
unlink-runs req (b ∷ before) after =
    let (rest, ran) = unlink-runs req before after in
    elim (Bool-cases (b.address == req.address)) [
      | inl e ↦ (before ++ (req ∷ after), rw e refl)
      | inr e ↦ (b ∷ rest, rw (e, ran) refl)
    ]

unlink-append :
    (a : ℕ) (xs ys rest : List Packet)
    → unlink a xs ≡ some rest
    → unlink a (xs ++ ys) ≡ some (rest ++ ys)
unfolding unlink
unlink-append a [] ys rest e = cc
unlink-append a (x ∷ xs) ys rest e = elim (Bool-cases (x.address == a)) [
  | inl c ↦ let same : xs ≡ rest = some_inj.0 (rw c at e) in rw (c, same) refl
  | inr c ↦
      let (r, ran, last) = >>=-eq-some (unlink a xs) _ (rw c at e) in
      let same : x ∷ r ≡ rest = some_inj.0 last in
      rw (c, sym same, unlink-append a xs ys r ran) refl
]

module _ (h : PacketHash) (p : Packet) (place : Place) (s : IsSound h)
    (spot : IsSpot h.seed p (home_chain h.seed h.table p) place) where
  not_found : (o : Option Bucket) → place.found ≡ o → lookup h p ≡ none → place.found ≡ none
  not_found none e absent = e
  not_found (some b) e absent = let there = lookup-bucket h p place s spot b e in cc

  found_one :
      (o : Option Bucket) (reqs : List Packet)
      → place.found ≡ o
      → lookup h p ≡ some reqs
      → (b : Bucket) × (place.found ≡ some b) × (b.packets ≡ reqs)
  found_one none reqs e has = let away = lookup-missing h p place s spot e in cc
  found_one (some b) reqs e has =
      (b, e, some_inj.0 (sym (lookup-bucket h p place s spot b e) ∙ has))

-- what the walk picks can be unlinked
Picks-unlink :
    (equal : List ℕ → List ℕ → Bool) (m : Bool) (p : Packet) (reqs front back : List Packet)
    (o : Option Packet) (req : Packet)
    → o ≡ some req
    → reqs ≡ front ++ back
    → Picks equal m p front o
    → (rest : List Packet) × (unlink req.address reqs ≡ some rest)
Picks-unlink equal m p reqs _ back _ req same e (picks before r after no_fit fit) =
    let (rest, ran) = unlink-runs r before after in
    let whole = unlink-append r.address (before ++ (r ∷ after)) back rest ran in
    (rest ++ back, rw (e, sym (some_inj.0 same)) whole)
Picks-unlink equal m p reqs _ back _ req same e (passes front no_fit) = cc

module _ (equal : List ℕ → List ℕ → Bool) (match_qname : Bool) (h : PacketHash) (p : Packet) where
  -- the table after a request has been taken from `reqs`, or not
  unfoldable pub Taken : List Packet → Option Packet → PacketHash → Type 0
  Taken reqs none h' = h' ≡ h
  Taken reqs (some req) h' =
      (rest : List Packet) × (unlink req.address reqs ≡ some rest) × Removed h p rest h'

  -- In a valid table, a packet whose key has no packets gets no request, and the table stays as it
  -- is.
  pub get_match-absent :
      IsValid h → lookup h p ≡ none → get_match equal match_qname h p ≡ some (none, h)
  unfolding get_match search_bucket
  get_match-absent v absent =
      let (place, ran, spot) = find_bucket-IsSpot h p v.0 in
      rw
        (
          primary_hash-hash_of h.seed p v.0.seeded,
          ran,
          not_found h p place v.0 spot place.found refl absent,
        )
        refl

  take_match-Taken :
      (place : Place) (b : Bucket) (reqs : List Packet)
      → IsValid h
      → IsSpot h.seed p (home_chain h.seed h.table p) place
      → place.found ≡ some b
      → b.packets ≡ reqs
      → (o : Option Packet) → Picks equal match_qname p (take 33 reqs) o
      → (h' : PacketHash) × (take_match equal h (home h.seed (length h.table) p) place o
          ≡ some (o, h'))
        × Taken reqs o h'
  unfolding take_match Taken
  take_match-Taken place b reqs v spot e same none k = (h, refl, refl)
  take_match-Taken place b reqs v spot e same (some req) k =
      let (rest, u) =
        Picks-unlink equal match_qname p reqs _ (drop 33 reqs) _ req refl
          (sym (take-append-drop 33 reqs)) k in
      let (h', ran, r) = remove_from_bucket-Removed h p place b v spot e req rest (rw same u) in
      (h', rw ran refl, (rest, u, r))

  -- In a valid table with requests under its key, and nothing but requests there, a response looks
  -- at the first 33 of them, the newest first, and gets the first one that it accepts, which is
  -- taken out of the table; if it accepts none, the table stays as it is. The search does not
  -- fault. (33 is one more than DNS_PACKET_HASH_MAX_SEARCH, which the header calls the maximum: the
  -- code counts a request after it has looked at it, and stops when the count is above 32.)
  pub get_match-Picks :
      (reqs : List Packet)
      → IsValid h
      → is_response p ≡ true
      → lookup h p ≡ some reqs
      → All (λ r. is_request r ≡ true) reqs
      → (o : Option Packet) × (h' : PacketHash) × (get_match equal match_qname h p ≡ some (o, h'))
        × Picks equal match_qname p (take 33 reqs) o
        × Taken reqs o h'
  unfolding get_match search_bucket
  get_match-Picks reqs v resp has ok =
      let (place, ran, spot) = find_bucket-IsSpot h p v.0 in
      let (b, e, same) = found_one h p place v.0 spot place.found reqs refl has in
      let (o, walked, k) =
        walk-Picks equal match_qname p 0 32 reqs (omega arith)
          (asked equal match_qname p reqs resp ok) in
      let (h', took, t) = take_match-Taken place b reqs v spot e same o k in
      (o, h', rw (primary_hash-hash_of h.seed p v.0.seeded, ran, e, same, walked) took, k, t)
