-- ===== src/Tests/Clock.antt =====
-- A matcher with one request in its queue.
use dns_collector.Prelude.{All, ◌≢◌, bytes_eq, ◌≡◌, refl, true, some, none, [], ◌∷◌, arith}
use dns_collector.Packet.{is_request, is_response, sockaddr_addr, sockaddr_addrlen}
use dns_collector.Frame.{Frame}
use dns_collector.Frame.{create as create_frame}
use dns_collector.Matcher.{Matcher, is_waiting, advance_time_to, handle_packet}
use dns_collector.Matcher.Handle.{Handled, handle_packet-Handled}
use dns_collector.PacketHash.{insert_packet, insert_at, find_bucket, find_in, grow, write_place}
use dns_collector.PacketHash.{create as create_hash}
use dns_collector.Packet.HashValue.{primary_hash, hash_words, hash_header, word32}
use dns_collector.Matcher.Waiting.{Holds, waiting, insert_packet-Holds}
use dns_collector.Matcher.Advance.{IsRunning}
use dns_collector.Matcher.Loop.{Advances, advance_time_to-Advances}
use dns_collector.PacketHash.Remove.{nonempty}
use dns_collector.Tests.Hash.{
  empty_table, empty_table-IsValid, empty_reads, no_buckets_yet, one_request,
}
use dns_collector.Tests.Packets.{request, response}

empty_table-Holds : Holds empty_table []
unfolding waiting nonempty
empty_table-Holds = record {
  valid = empty_table-IsValid;
  agrees = λ q. empty_reads q;
  distinct = tt;
}

is_waiting-request : is_waiting request ≡ true
unfolding is_waiting is_request is_response
is_waiting-request = refl

one_request-Holds : Holds one_request (request ∷ [])
one_request-Holds =
    let (h', ran, k, one) =
      insert_packet-Holds empty_table request [] empty_table-Holds no_buckets_yet is_waiting-request
        tt in
    rw ran k

abbrev first_frame : Frame
first_frame = create_frame (some 5000) (some 5000)

-- a window of 3000 us, frames of 2000 us
abbrev one_waiting : Matcher
one_waiting = record {
  input = [];
  output = [];
  hash_table = one_request;
  packet_queue = request ∷ [];
  matching_duration = 3000;
  frame_max_duration = 2000;
  match_qname = true;
  frame_max_size = 1000;
  inframe = none;
  outframe = some first_frame;
  current_time = some 5000;
}

one_waiting-IsRunning : IsRunning one_waiting first_frame 5000 5000 5000
unfolding create_frame
one_waiting-IsRunning = record {
  frame = refl;
  clock = refl;
  lasts = record {
    kind = refl;
    starts = refl;
    ends = refl;
    forward = omega arith;
    short = omega arith;
  };
  progress = omega arith;
  table = one_request-Holds;
  all_short = tt;
}

advance_time_to-Advances_example :
    Advances one_waiting first_frame 5000 12000 (advance_time_to one_waiting 12000)
advance_time_to-Advances_example =
    advance_time_to-Advances one_waiting first_frame 5000 5000 5000 12000 one_waiting-IsRunning

one_bucket : one_request.buckets ≡ 1
unfolding insert_packet insert_at find_bucket find_in grow write_place primary_hash hash_words
    hash_header word32 create_hash sockaddr_addr sockaddr_addrlen
one_bucket = refl

response_apart : All (λ q. q.address ≢ response.address) (request ∷ [])
response_apart = (omega arith, tt)

handle_packet-Handled_example :
    (m' : Matcher) × (handle_packet bytes_eq one_waiting response ≡ some m')
    × Handled bytes_eq one_waiting response m'
handle_packet-Handled_example =
    handle_packet-Handled bytes_eq one_waiting response one_request-Holds
      (omega (arith, one_bucket)) refl response_apart
