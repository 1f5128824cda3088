-- ===== src/Matcher/Spec.antt =====
-- What the thread of worker_packet_matcher.c does, without frames, hash table or clock events:
-- packets come one by one, wait in a queue for the matching window, and leave in the order in which
-- they came.
use dns_collector.Prelude.{
  ℕ, ◌+◌, ◌≤◌, ◌≡◌, Bool, true, none, some, List, [], ◌∷◌, ◌++◌, ◌==◌, take, All, All-append,
  All-left, All-right, Bool-cases, inl, inr,
}
use dns_collector.Packet.{Packet, PacketData, is_request, is_response}
use dns_collector.PacketHash.Match.{Picks}
use dns_collector.Matcher.{set_response}
use dns_collector.Matcher.Waiting.{waiting}

-- `equal` is libknot's comparison of names
module _ (equal : List ℕ → List ℕ → Bool) (match_qname : Bool) where
  -- A packet comes to a queue. A request stands at its end; a response is hung on the first request
  -- that it accepts among the newest 33 that wait under its key, or else stands at the end, too. The
  -- number is the code's; the header of the table documents 32.
  pub data Takes (pkt : Packet) : List Packet → List Packet → Type 0 where
    request : (queue : List Packet) → is_request pkt ≡ true → Takes pkt queue (queue ++ pkt ∷ [])
    alone :
        (queue : List Packet)
        → is_response pkt ≡ true
        → Picks equal match_qname pkt (take 33 (waiting pkt queue)) none
        → Takes pkt queue (queue ++ pkt ∷ [])
    pairs :
        (queue : List Packet) (req : Packet)
        → is_response pkt ≡ true
        → Picks equal match_qname pkt (take 33 (waiting pkt queue)) (some req)
        → Takes pkt queue (set_response req.address pkt.body queue)

  -- The packets `ins` have come; of these and the responses hung on them, `outs` have left and
  -- `queue` waits at the time `now`. A packet leaves when `window` has passed since its time stamp.
  pub data Runs (window : ℕ) : List Packet → List Packet → List Packet → ℕ → Type 0 where
    idle : (now : ℕ) → Runs window [] [] [] now
    waits :
        (ins outs gone queue : List Packet) (now time : ℕ)
        → Runs window ins outs (gone ++ queue) now
        → now ≤ time
        → All (λ p. p.ts + window ≤ time) gone
        → Runs window ins (outs ++ gone) queue time
    takes :
        (ins outs queue queue' : List Packet) (now : ℕ) (pkt : Packet)
        → Runs window ins outs queue now
        → pkt.ts ≤ now
        → Takes pkt queue queue'
        → Runs window (ins ++ pkt ∷ []) outs queue' now

  -- A predicate that the response does not change holds after it has been hung on a packet.
  pub All-set_response :
      (P : Packet → Type 0) (a : ℕ) (b : PacketData) (ps : List Packet)
      → ((p : Packet) → P p → P (record p { response = some b }))
      → All P ps
      → All P (set_response a b ps)
  unfolding set_response
  All-set_response P a b [] kept h = tt
  All-set_response P a b (p ∷ ps) kept h = elim (Bool-cases (p.address == a)) [
    | inl e ↦ rw e (kept p h.0, All-set_response P a b ps kept h.1)
    | inr e ↦ rw e (h.0, All-set_response P a b ps kept h.1)
  ]

  -- A predicate that no response changes holds of those that wait if it does of all that came.
  module _ (P : Packet → Type 0)
      (kept : (p : Packet) (b : PacketData) → P p → P (record p { response = some b })) where
    pub All-Takes :
        (pkt : Packet) (queue queue' : List Packet)
        → Takes pkt queue queue'
        → All P queue
        → P pkt
        → All P queue'
    All-Takes pkt _ _ (request queue req) h new = All-append P queue (pkt ∷ []) h (new, tt)
    All-Takes pkt _ _ (alone queue resp k) h new = All-append P queue (pkt ∷ []) h (new, tt)
    All-Takes pkt _ _ (pairs queue req resp k) h new =
        All-set_response P req.address pkt.body queue (λ p. kept p pkt.body) h

    pub All-waits :
        (window : ℕ) (ins outs queue : List Packet) (now : ℕ)
        → Runs window ins outs queue now
        → All P ins
        → All P queue
    All-waits window _ _ _ _ (idle now) h = tt
    All-waits window _ _ _ _ (waits ins outs gone queue now time r later due) h =
        All-right P gone queue (All-waits window ins outs (gone ++ queue) now r h)
    All-waits window _ _ _ _ (takes ins outs queue queue' now pkt r soon t) h =
        All-Takes pkt queue queue' t
          (All-waits window ins outs queue now r (All-left P ins (pkt ∷ []) h))
          (All-right P ins (pkt ∷ []) h).0
