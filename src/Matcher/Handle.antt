-- ===== src/Matcher/Handle.antt =====
-- A response is hung on its request, or goes to the queue by itself; either way the hash table still
-- holds exactly the requests of the queue that have no response.
use dns_collector.Prelude.{
  ℕ, ◌+◌, ◌<◌, ◌≤◌, ◌^◌, ◌≡◌, ◌≢◌, refl, sym, ◌∙◌, ap, Bool, true, false, ◌&&◌, Option, none, some,
  List, [], ◌∷◌, ◌++◌, All, All-append, All-imp, arith, Bool-cases, inl, inr, ◌⊎◌, >>=-some, take,
  subst,
}
use dns_collector.Packet.{Packet, is_request, is_response}
use dns_collector.Packet.Match.{primary_match}
use dns_collector.PacketHash.{PacketHash, get_match}
use dns_collector.PacketHash.Chain.{match_congr}
use dns_collector.PacketHash.Remove.{nonempty}
use dns_collector.PacketHash.Match.{Picks, passes, Taken, get_match-Picks, get_match-absent}
use dns_collector.Matcher.{Matcher, is_waiting, set_response, attach, handle_packet}
use dns_collector.Matcher.Waiting.{
  Holds, waiting, waiting_congr, waiting-snoc, Distinct-snoc, insert_packet-Holds,
}
use dns_collector.Matcher.Pairing.{
  waiting-set_response, waiting-set_response_ne, Distinct-set_response,
}

waiting-requests : (q : Packet) (ps : List Packet) → All (λ r. is_request r ≡ true) (waiting q ps)
unfolding waiting is_waiting
waiting-requests q [] = tt
waiting-requests q (p ∷ ps) = elim (Bool-cases (is_waiting p && primary_match q p)) [
  | inl e ↦
      rw e (All-append _ (waiting q ps) (p ∷ []) (waiting-requests q ps) (ground (arith, e), tt))
  | inr e ↦ rw e (waiting-requests q ps)
]

-- the queue after a response, for which the request `o` has been found
unfoldable pub answer : Packet → Option Packet → List Packet → List Packet
answer pkt none queue = queue ++ pkt ∷ []
answer pkt (some req) queue = set_response req.address pkt.body queue

module _ (equal : List ℕ → List ℕ → Bool) (match_qname : Bool) (h : PacketHash) (pkt : Packet)
    (queue : List Packet) (v : Holds h queue) (resp : is_response pkt ≡ true) where
  abbrev Finds : List Packet → Type 0
  Finds reqs =
      (o : Option Packet) × (h' : PacketHash) × (get_match equal match_qname h pkt ≡ some (o, h'))
      × Picks equal match_qname pkt (take 33 reqs) o
      × Taken equal match_qname h pkt reqs o h'

  get_match-Finds : (reqs : List Packet) → waiting pkt queue ≡ reqs → Finds reqs
  unfolding nonempty Taken
  get_match-Finds [] e = (
    none,
    h,
    get_match-absent equal match_qname h pkt v.valid (v.agrees pkt ∙ rw e refl),
    passes [] tt,
    refl,
  )
  get_match-Finds (r ∷ rs) e =
      get_match-Picks equal match_qname h pkt (r ∷ rs) v.valid resp (v.agrees pkt ∙ rw e refl)
        (subst (λ x. All (λ r. is_request r ≡ true) x) e (waiting-requests pkt queue))

  not_waiting : is_waiting pkt ≡ false
  unfolding is_waiting is_request
  not_waiting = rw resp refl

  answer-Holds :
      (o : Option Packet) (h' : PacketHash)
      → All (λ q. q.address ≢ pkt.address) queue
      → Taken equal match_qname h pkt (waiting pkt queue) o h'
      → Holds h' (answer pkt o queue)
  unfolding answer Taken
  answer-Holds none h' apart t = rw t (record {
    valid = v.valid;
    agrees = λ q. v.agrees q ∙ ap nonempty (sym (waiting-snoc q pkt queue ∙ rw not_waiting refl));
    distinct = Distinct-snoc pkt queue v.distinct apart;
  })
  answer-Holds (some req) h' apart (rest, u, k) =
      let (gone, all) = waiting-set_response pkt req.address pkt.body queue rest v.distinct u in
      record {
        valid = k.valid;
        agrees = λ q. k.reads q ∙ elim (Bool-cases (primary_match q pkt)) [
          | inl m ↦ rw m (
              ap nonempty
                (sym (waiting_congr q pkt (set_response req.address pkt.body queue) m ∙ gone)))
          | inr m ↦ rw m (
              v.agrees q
              ∙ ap nonempty (
                  sym (
                    waiting-set_response_ne q req.address pkt.body queue
                      (All-imp (λ p at_it e. sym (match_congr pkt p q (at_it e)) ∙ m) queue all))))
        ];
        distinct = Distinct-set_response req.address pkt.body queue v.distinct;
      }

-- taking a request out of the table leaves no more buckets
Taken-at_most :
    (equal : List ℕ → List ℕ → Bool) (match_qname : Bool) (h : PacketHash) (pkt : Packet)
    (reqs : List Packet) (o : Option Packet) (h' : PacketHash)
    → Taken equal match_qname h pkt reqs o h'
    → h'.buckets ≤ h.buckets
unfolding Taken
Taken-at_most equal match_qname h pkt reqs none h' t = omega (arith, ap (λ x. x.buckets) t)
Taken-at_most equal match_qname h pkt reqs (some req) h' (rest, u, k) = k.no_more

is_waiting-bare : (p : Packet) → is_request p ≡ true → p.response ≡ none → is_waiting p ≡ true
unfolding is_waiting
is_waiting-bare p req bare = rw (req, bare) refl

is_response-else : (p : Packet) → is_request p ≡ false → is_response p ≡ true
unfolding is_request
is_response-else p h = ground (arith, h)

-- What has become of the queue and the table when a packet has been handled. A request stands at the
-- end of the queue. A response has been hung on the first request that it accepts, among the newest
-- 33 that wait under its key, or stands at the end of the queue if there is none.
pub record Handled (equal : List ℕ → List ℕ → Bool) (m : Matcher) (pkt : Packet) (m' : Matcher)
    : Type 0 where
  pub table : Holds m'.hash_table m'.packet_queue
  pub at_most : m'.hash_table.buckets ≤ m.hash_table.buckets + 1
  pub rest : m' ≡ record m { hash_table = m'.hash_table; packet_queue = m'.packet_queue }
  pub queue :
      ((is_request pkt ≡ true) × (m'.packet_queue ≡ m.packet_queue ++ pkt ∷ []))
      ⊎ ((o : Option Packet) × (is_response pkt ≡ true)
          × Picks equal m.match_qname pkt (take 33 (waiting pkt m.packet_queue)) o
          × (m'.packet_queue ≡ answer pkt o m.packet_queue))

attach-answer :
    (m : Matcher) (table : PacketHash) (pkt : Packet) (o : Option Packet)
    → (m' : Matcher) × (attach m table pkt o ≡ m')
      × (m' ≡ record m { hash_table = m'.hash_table; packet_queue = m'.packet_queue })
      × (m'.hash_table ≡ table)
      × (m'.packet_queue ≡ answer pkt o m.packet_queue)
unfolding attach answer
attach-answer m table pkt none = (attach m table pkt none, refl, refl, refl, refl)
attach-answer m table pkt (some req) = (attach m table pkt (some req), refl, refl, refl, refl)

-- Let the table hold exactly the requests of the queue that have no response, and fewer than 2^50
-- buckets. Handling a packet that carries no response, with an address that is new to the queue, does
-- not fault. A request goes to the queue's end and into the table; a response is hung on the first
-- request that it accepts among the 33 newest that wait under its key, or goes to the queue's end;
-- and the table again holds exactly the requests of the queue that have no response. (33 is what the
-- code searches, one more than the documented DNS_PACKET_HASH_MAX_SEARCH of 32.)
pub handle_packet-Handled :
    (equal : List ℕ → List ℕ → Bool) (m : Matcher) (pkt : Packet)
    → Holds m.hash_table m.packet_queue
    → m.hash_table.buckets < 2 ^ 50
    → pkt.response ≡ none
    → All (λ q. q.address ≢ pkt.address) m.packet_queue
    → (m' : Matcher) × (handle_packet equal m pkt ≡ some m') × Handled equal m pkt m'
unfolding handle_packet
handle_packet-Handled equal m pkt v few bare apart = elim (Bool-cases (is_request pkt)) [
  | inl req ↦
      let (h', ran, k, one) =
        insert_packet-Holds m.hash_table pkt m.packet_queue v few (is_waiting-bare pkt req bare)
          apart in
      (
        record m { hash_table = h'; packet_queue = m.packet_queue ++ pkt ∷ [] },
        rw req (>>=-some ran _),
        record { table = k; at_most = one; rest = refl; queue = inl (req, refl) },
      )
  | inr no_req ↦
      let resp = is_response-else pkt no_req in
      let (o, h', ran, picked, t) =
        get_match-Finds equal m.match_qname m.hash_table pkt m.packet_queue v resp
          (waiting pkt m.packet_queue) refl in
      let holds =
        answer-Holds equal m.match_qname m.hash_table pkt m.packet_queue v resp o h' apart t in
      let (m', is, rest, same_table, same_queue) = attach-answer m h' pkt o in
      (
        m',
        rw no_req (>>=-some ran _ ∙ ap some is),
        record {
          table = rw (same_table, same_queue) holds;
          at_most = omega (
            arith,
            Taken-at_most equal m.match_qname m.hash_table pkt (waiting pkt m.packet_queue) o h' t,
            ap (λ x. x.buckets) same_table,
          );
          rest = rest;
          queue = inr (o, resp, picked, same_queue);
        },
      )
]
