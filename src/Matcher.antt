-- ===== src/Matcher.antt =====
-- src/worker_packet_matcher.c: the thread that pairs requests with responses. What the input queue
-- will hand over and what the output queue has been given are lists of frames. `none` is a fault:
-- a failed assertion, a read through NULL, fuel that ran out, or a wait for a frame that never comes.
pub mod Waiting
pub mod Advance
pub mod Round
pub mod Loop
pub mod Pairing
pub mod Handle
pub mod Spec
pub mod Live
pub mod Stream
pub mod Run
pub mod Messages
pub mod Conserve
use dns_collector.Prelude.{
  ℕ, zero, suc, ◌+◌, ◌-◌, Bool, true, not, ◌&&◌, Option, none, some, List, [], ◌∷◌, ◌++◌, ◌==◌, ltb,
  leb, if◌then◌else◌, length, add64, assert, ◌>>=◌, ◌>>◌, is_some,
}
use dns_collector.Packet.{Packet, PacketData, is_request}
use dns_collector.Frame.{Time, Frame, append_packet}
use dns_collector.Frame.{create as create_frame, create_final}
use dns_collector.PacketHash.{PacketHash, insert_packet, remove_packet, get_match}
use dns_collector.PacketHash.{create as create_hash}

-- `struct dns_worker_packet_matcher`; `frame_max_size` is the C `int` as it is compared, that is
-- converted to a `size_t`: a negative one is the number that it is modulo 2^64
pub record Matcher : Type 0 where
  pub input : List Frame
  pub output : List Frame
  pub hash_table : PacketHash
  pub packet_queue : List Packet
  pub matching_duration : ℕ
  pub frame_max_duration : ℕ
  pub match_qname : Bool
  pub frame_max_size : ℕ
  pub inframe : Option Frame
  pub outframe : Option Frame
  pub current_time : Time

-- `dns_worker_packet_matcher_create` with the configured durations in microseconds
unfoldable pub create :
    (r r' : ℕ) (input : List Frame) (matching max_duration max_size : ℕ) (match_qname : Bool)
    → Option Matcher
create r r' input matching max_duration max_size match_qname = do
  assert (ltb 0 matching)
  some (record {
    input = input;
    output = [];
    hash_table = create_hash r r' 1024 0;
    packet_queue = [];
    matching_duration = matching;
    frame_max_duration = max_duration;
    match_qname = match_qname;
    frame_max_size = max_size;
    inframe = none;
    outframe = none;
    current_time = none;
  })

-- `dns_worker_packet_matcher_output_frame`
unfoldable pub output_frame : Matcher → Option Matcher
output_frame m = do
  f ← m.outframe
  some (record m {
    output = m.output ++ f ∷ [];
    outframe = some (create_frame f.time_end f.time_end);
  })

-- `time <= t`
unfoldable pub not_after : Time → ℕ → Bool
not_after none t = true
not_after (some time) t = leb time t

-- the branch that outputs a frame before it is too long
unfoldable pub end_frame : Matcher → Frame → ℕ → Option Matcher
unfolding not_after output_frame
end_frame m f ev_time = do
  assert (not_after f.time_end (ev_time - m.matching_duration))
  output_frame (record m {
    outframe = some (record f { time_end = some (ev_time - m.matching_duration) });
    current_time = some ev_time;
  })

-- a request that has no response yet
unfoldable pub is_waiting : Packet → Bool
is_waiting p = is_request p && not (is_some p.response)

-- the hash table when a packet leaves
unfoldable pub exit_table : PacketHash → Packet → Option PacketHash
unfolding is_waiting
exit_table h pkt = if is_waiting pkt then remove_packet h pkt else some h

-- a new frame, if the packet would make the present one too large
unfoldable pub make_space : Matcher → Frame → Packet → Option Matcher
unfolding output_frame
make_space m f pkt =
    if ltb m.frame_max_size (add64 f.size pkt.memory_size) then output_frame m else some m

-- the branch that outputs the packet at the head of the queue
unfoldable pub exit_packet : Matcher → Frame → ℕ → List Packet → Option Matcher
unfolding make_space exit_table
exit_packet m f ev_time [] = none
exit_packet m f ev_time (pkt ∷ pkts) = do
  m' ← make_space m f pkt
  table ← exit_table m.hash_table pkt
  f' ← m'.outframe
  some (record m' {
    packet_queue = pkts;
    hash_table = table;
    outframe = some (append_packet f' pkt);
    current_time = some ev_time;
  })

-- `MIN(ev_time, pkt->ts + pm->matching_duration)` if there is a packet
unfoldable pub next_event : ℕ → ℕ → List Packet → ℕ
next_event frame_exit matching [] = frame_exit
next_event frame_exit matching (pkt ∷ pkts) =
    if ltb frame_exit (pkt.ts + matching) then frame_exit else pkt.ts + matching

-- One round of the loop of `dns_worker_packet_matcher_advance_time_to`: which of the two events
-- comes first, the end of the frame or the exit of the packet at the head, and is it due?
unfoldable pub advance_from : Matcher → Frame → ℕ → List Packet → ℕ → Option Matcher
unfolding end_frame exit_packet next_event
advance_from m f start queue time =
    let frame_exit = start + m.frame_max_duration + m.matching_duration in
    let ev_time = next_event frame_exit m.matching_duration queue in
    if ltb time ev_time
    then some (record m { current_time = some time })
    else if ev_time == frame_exit
    then end_frame m f ev_time
    else exit_packet m f ev_time queue

unfoldable pub advance_step : Matcher → ℕ → Option Matcher
unfolding advance_from
advance_step m time = do
  f ← m.outframe
  start ← f.time_start
  advance_from m f start m.packet_queue time

-- `while (pm->current_time < time)`
unfoldable pub advance_loop : ℕ → ℕ → Matcher → Option Matcher
unfolding advance_step
advance_loop zero time m = none
advance_loop (suc fuel) time m = do
  current ← m.current_time
  let rest = (advance_step m time >>= advance_loop fuel time)
  if ltb current time then rest else some m

-- `dns_worker_packet_matcher_advance_time_to`
unfoldable pub advance_time_to : Matcher → ℕ → Option Matcher
unfolding advance_loop
advance_time_to m time = do
  current ← m.current_time
  let moved = advance_loop (length m.packet_queue + time + 2) time m
  if ltb (time + 1000) current then some m else moved

-- `dns_worker_packet_matcher_next_packet` with a frame loaded; `rest` is the next round of its loop
unfoldable pub take_packet :
    (Matcher → Option (Option Packet × Matcher))
    → Matcher
    → Frame
    → List Packet
    → Option (Option Packet × Matcher)
take_packet rest m f [] = do
  time ← f.time_end
  m' ← advance_time_to m time
  rest (record m' { inframe = none })
take_packet rest m f (pkt ∷ pkts) = do
  m' ← advance_time_to (record m { inframe = some (record f { packets = pkts }) }) pkt.ts
  some (some pkt, m')

-- a frame is loaded, the first one of all sets the clock
unfoldable pub load_frame : Matcher → Frame → ℕ → Matcher
load_frame m f start = if is_some m.outframe then record m { inframe = some f } else record m {
  inframe = some f;
  outframe = some (create_frame (some start) (some start));
  current_time = some start;
}

-- the loop of `dns_worker_packet_matcher_next_packet` with no frame loaded
pub from_input : List Frame → Matcher → Option (Option Packet × Matcher)
unfolding take_packet load_frame
from_input [] m = none
from_input (f ∷ fs) m =
    let m' = record m { input = fs } in
    let skipped = from_input fs m' in
    let loaded =
      (f.time_start >>= λ start. advance_time_to (load_frame m' f start) start >>= λ m''.
      take_packet (from_input fs) m'' f f.packets) in
    if f.type == 1
    then some (none, m')
    else if f.count == 0 && not (is_some f.time_start)
    then skipped
    else loaded

-- `dns_worker_packet_matcher_next_packet`; no packet at the final frame
unfoldable pub next_packet : Matcher → Option (Option Packet × Matcher)
unfolding from_input
next_packet m = elim m.inframe [
  | none ↦ from_input m.input m
  | some f ↦ take_packet (from_input m.input) m f f.packets
]

-- `req->response = pkt` in the queue, for the request with that address
unfoldable pub set_response : ℕ → PacketData → List Packet → List Packet
set_response address pkt [] = []
set_response address pkt (q ∷ qs) =
    (if q.address == address then record q { response = some pkt } else q)
    ∷ set_response address pkt qs

unfoldable pub attach : Matcher → PacketHash → Packet → Option Packet → Matcher
unfolding set_response
attach m table pkt none = record m { hash_table = table; packet_queue = m.packet_queue ++ pkt ∷ [] }
attach m table pkt (some req) = record m {
  hash_table = table;
  packet_queue = set_response req.address pkt.body m.packet_queue;
}

-- the end of the loop of `dns_worker_packet_matcher_main`
unfoldable pub flush : Matcher → Option Matcher
unfolding advance_time_to
flush m = do
  m' ← elim m.current_time [
    | none ↦ some m
    | some t ↦ advance_time_to m (t + m.matching_duration + 1)
  ]
  let last : List Frame = elim m'.outframe [ none ↦ [] | some f ↦ f ∷ [] ]
  some (record m' {
    output = m'.output ++ (last ++ create_final m'.current_time ∷ []);
    outframe = none;
  })

-- `equal` is libknot's comparison of names
module _ (equal : List ℕ → List ℕ → Bool) where
  -- the body of the loop of `dns_worker_packet_matcher_main`
  unfoldable pub handle_packet : Matcher → Packet → Option Matcher
  unfolding attach
  handle_packet m pkt =
      if is_request pkt
      then (insert_packet m.hash_table pkt >>= λ table.
          some (record m { hash_table = table; packet_queue = m.packet_queue ++ pkt ∷ [] }))
      else (get_match equal m.match_qname m.hash_table pkt >>= λ found.
          some (attach m found.1 pkt found.0))

  -- `dns_worker_packet_matcher_main`, with fuel for the packets to come
  unfoldable pub main : ℕ → Matcher → Option Matcher
  unfolding handle_packet next_packet flush
  main zero m = none
  main (suc fuel) m = next_packet m >>= λ next. elim next.0 [
    | none ↦ flush next.1
    | some pkt ↦ handle_packet next.1 pkt >>= main fuel
  ]
