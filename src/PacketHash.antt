-- ===== src/PacketHash.antt =====
-- src/packet_hash.c: the table of requests that wait for a response. A chain is the list of buckets
-- that `next` leads through; a pointer to a pointer to a bucket is the number of the chain and the
-- place in it. `none` is a fault: a read outside the array, a failed assertion, or an empty bucket
-- whose first packet is read. `prevp`, which nothing reads, is left out.
pub mod Chain
pub mod Inv
pub mod Resize
pub mod Valid
pub mod Spot
pub mod Insert
pub mod Remove
pub mod Match
use dns_collector.Prelude.{
  ℕ, zero, suc, ◌+◌, ◌*◌, ◌/◌, ◌%◌, ◌^◌, Bool, true, false, not, ◌&&◌, ◌||◌, Option, none, some,
  List, [], ◌∷◌, ◌++◌, ◌==◌, ltb, if◌then◌else◌, length, get_elem?, set, replicate, add64, mul64,
  sub64, assert, ◌>>=◌, ◌>>◌,
}
use dns_collector.Packet.{Packet}
use dns_collector.Packet.HashValue.{primary_hash}
use dns_collector.Packet.Match.{primary_match, qname_match}

-- `struct dns_packet_hash_bucket`
pub record Bucket : Type 0 where
  pub hash_value : ℕ
  pub packets : List Packet

abbrev pub Chain : Type 0
Chain = List Bucket

-- `struct dns_packet_hash`
pub record PacketHash : Type 0 where
  pub capacity : ℕ
  pub min_capacity : ℕ
  pub buckets : ℕ
  pub seed : ℕ
  pub table : List Chain

abbrev pub min_percent : ℕ
min_percent = 25

abbrev pub best_percent : ℕ
best_percent = 50

abbrev pub max_percent : ℕ
max_percent = 75

abbrev pub max_search : ℕ
max_search = 32

-- `dns_packet_hash_create`; `r` and `r'` are what `random` returns, below 2^31
unfoldable pub create : (r r' : ℕ) → (capacity seed : ℕ) → PacketHash
create r r' capacity seed = record {
  capacity = capacity;
  min_capacity = capacity;
  buckets = 0;
  seed = if seed == 0 then add64 r (mul64 r' (2 ^ 32)) else seed;
  table = replicate capacity [];
}

-- one round of the inner loop of `dns_packet_hash_resize`: the bucket goes to the front of its chain
unfoldable pub push_front : List Chain → Bucket → Option (List Chain)
push_front table b = do
  let i = b.hash_value % length table
  chain ← get_elem? table i
  some (set table i (b ∷ chain))

pub move_chain : Chain → List Chain → Option (List Chain)
move_chain [] new_table = some new_table
move_chain (b ∷ bs) new_table = push_front new_table b >>= move_chain bs

pub move_all : List Chain → List Chain → Option (List Chain)
unfolding move_chain
move_all [] new_table = some new_table
move_all (c ∷ cs) new_table = move_chain c new_table >>= move_all cs

-- what `dns_packet_hash_resize` makes of the size that it is asked for
unfoldable pub clamp_capacity : PacketHash → ℕ → ℕ
clamp_capacity h new_capacity =
    if ltb new_capacity h.min_capacity then h.min_capacity else new_capacity

-- `dns_packet_hash_resize`
unfoldable pub resize : PacketHash → ℕ → Option PacketHash
unfolding move_all clamp_capacity
resize h asked =
    let n = clamp_capacity h asked in
    if n == h.capacity
    then some h
    else move_all h.table (replicate n []) >>= λ table.
        some (record h { table = table; capacity = n })

-- the test in the loop of `dns_packet_hash_find_bucket`
unfoldable pub is_bucket_of : Packet → ℕ → Bucket → Option Bool
is_bucket_of p hash_value b = elim b.packets [
  | [] ↦ none
  | first ∷ others ↦ some (b.hash_value == hash_value && primary_match p first)
]

-- The loop of `dns_packet_hash_find_bucket`: the buckets passed, the bucket found if there is one,
-- and the rest of the chain.
pub record Place : Type 0 where
  pub before : Chain
  pub found : Option Bucket
  pub after : Chain

unfoldable pub find_in : Packet → ℕ → Chain → Option Place
unfolding is_bucket_of
find_in p hash_value [] = some (record { before = []; found = none; after = [] })
find_in p hash_value (b ∷ bs) = do
  here ← is_bucket_of p hash_value b
  let later =
      (find_in p hash_value bs >>= λ l.
      some (record { before = b ∷ l.before; found = l.found; after = l.after }))
  if here then some (record { before = []; found = some b; after = bs }) else later

-- `dns_packet_hash_find_bucket`: the number of the chain, and the place in it
unfoldable pub find_bucket : PacketHash → Packet → ℕ → Option (ℕ × Place)
unfolding find_in
find_bucket h p hash_value = do
  let i = hash_value % h.capacity
  chain ← get_elem? h.table i
  place ← find_in p hash_value chain
  some (i, place)

-- the test for a table that is too full, after a bucket has been added
unfoldable pub grow : PacketHash → Option PacketHash
grow h =
    if ltb (mul64 h.capacity max_percent / 100) h.buckets
    then resize h (mul64 h.buckets 100 / best_percent)
    else some h

-- the test for a table that is too empty, after a bucket has been removed
unfoldable pub shrink : PacketHash → Option PacketHash
shrink h =
    if ltb h.buckets (mul64 h.capacity min_percent / 100)
    then resize h (mul64 h.buckets 100 / best_percent)
    else some h

-- The chain of a place with other buckets in the place of the one found.
unfoldable pub write_place : PacketHash → ℕ → Place → Chain → PacketHash
write_place h i place bs = record h { table = set h.table i (place.before ++ (bs ++ place.after)) }

-- The rest of `dns_packet_hash_insert_packet` at a place. The code links the packet into a new
-- bucket after it has resized the table; resizing moves the buckets and does not look at packets.
unfoldable pub insert_at : PacketHash → Packet → ℕ → ℕ → Place → Option Bucket → Option PacketHash
unfolding write_place grow
insert_at h p hash_value i place none =
    let b : Bucket = record { hash_value = hash_value; packets = p ∷ [] } in
    let h' = write_place h i place (b ∷ []) in grow (record h' { buckets = add64 h.buckets 1 })
insert_at h p hash_value i place (some b) =
    some (write_place h i place (record b { packets = p ∷ b.packets } ∷ []))

-- `dns_packet_hash_insert_packet`
unfoldable pub insert_packet : PacketHash → Packet → Option PacketHash
unfolding insert_at find_bucket
insert_packet h p = do
  hash_value ← primary_hash p h.seed
  (i, place) ← find_bucket h p hash_value
  insert_at h p hash_value i place place.found

-- `clist_remove(&p->secnode)` in a bucket: the packet with that address; `none` if it is not there
unfoldable pub unlink : ℕ → List Packet → Option (List Packet)
unlink address [] = none
unlink address (q ∷ qs) =
    let later = (unlink address qs >>= λ r. some (q ∷ r)) in
    if q.address == address then some qs else later

-- `dns_packet_hash_remove_from_bucket` once `p` is off the list of the bucket `b`
unfoldable pub drop_or_keep : PacketHash → ℕ → Place → Bucket → List Packet → Option PacketHash
unfolding write_place shrink
drop_or_keep h i place b [] =
    let h' = write_place h i place [] in shrink (record h' { buckets = sub64 h.buckets 1 })
drop_or_keep h i place b (q ∷ qs) =
    some (write_place h i place (record b { packets = q ∷ qs } ∷ []))

-- `dns_packet_hash_remove_from_bucket`
unfoldable pub remove_from_bucket : PacketHash → Packet → ℕ → Place → Option PacketHash
unfolding drop_or_keep unlink
remove_from_bucket h p i place = do
  b ← place.found
  rest ← unlink p.address b.packets
  drop_or_keep h i place b rest

-- `dns_packet_hash_remove_packet`
unfoldable pub remove_packet : PacketHash → Packet → Option PacketHash
unfolding remove_from_bucket find_bucket
remove_packet h p = do
  hash_value ← primary_hash p h.seed
  (i, place) ← find_bucket h p hash_value
  remove_from_bucket h p i place

-- `equal` is libknot's comparison of names
module _ (equal : List ℕ → List ℕ → Bool) where
  -- `(!match_qname) || dns_packet_qname_match(req, p)`
  unfoldable pub accepts : Bool → Packet → Packet → Option Bool
  accepts match_qname p req = if match_qname then qname_match equal req p else some true

  -- the walk over a bucket from its head on, after `cnt` packets that did not fit
  unfoldable pub walk : Bool → Packet → ℕ → List Packet → Option (Option Packet)
  unfolding accepts
  walk match_qname p cnt [] = some none
  walk match_qname p cnt (req ∷ reqs) = do
    fits ← accepts match_qname p req
    let later = walk match_qname p (cnt + 1) reqs
    if fits then some (some req) else if ltb max_search (cnt + 1) then some none else later

  unfoldable pub take_match :
      PacketHash → ℕ → Place → Option Packet → Option (Option Packet × PacketHash)
  take_match h i place none = some (none, h)
  take_match h i place (some req) = remove_from_bucket h req i place >>= λ h'. some (some req, h')

  -- the search of the bucket that `find_bucket` has found
  unfoldable pub search_bucket :
      Bool → PacketHash → Packet → ℕ → Place → Option Bucket → Option (Option Packet × PacketHash)
  unfolding walk take_match
  search_bucket match_qname h p i place none = some (none, h)
  search_bucket match_qname h p i place (some b) =
      walk match_qname p 0 b.packets >>= take_match h i place

  -- `dns_packet_hash_get_match`
  unfoldable pub get_match : Bool → PacketHash → Packet → Option (Option Packet × PacketHash)
  unfolding search_bucket find_bucket
  get_match match_qname h p = do
    hash_value ← primary_hash p h.seed
    (i, place) ← find_bucket h p hash_value
    search_bucket match_qname h p i place place.found
