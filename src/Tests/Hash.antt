-- ===== src/Tests/Hash.antt =====
-- A table of four chains with a request in it.
use mathlib.Core.Option
use dns_collector.Prelude.{
  ◌^◌, ◌<◌, ◌≡◌, refl, ◌∙◌, true, Option, none, some, [], ◌∷◌, arith, bytes_eq, take,
}
use dns_collector.Packet.{Packet, is_request, is_response}
use dns_collector.PacketHash.{
  PacketHash, create, resize, clamp_capacity, insert_packet, remove_packet, unlink, get_match,
}
use dns_collector.PacketHash.Valid.{IsValid, lookup, Resized, resize_lem, create-IsValid}
use dns_collector.PacketHash.Insert.{Inserted, insert_packet-Inserted}
use dns_collector.PacketHash.Remove.{Removed, remove_packet-Removed}
use dns_collector.PacketHash.Match.{Picks, Taken, get_match-Picks}
use dns_collector.Tests.Packets.{request, response, response_matches}
use dns_collector.PacketHash.Chain.{match_refl}

abbrev pub empty_table : PacketHash
empty_table = create 1 2 4 1000

seeded : 0x100 < empty_table.seed
unfolding create
seeded = omega arith

pub empty_table-IsValid : IsValid empty_table
empty_table-IsValid = (create-IsValid 1 2 4 1000 (omega arith) (omega arith) seeded).0

pub empty_reads : (q : Packet) → lookup empty_table q ≡ none
empty_reads = (create-IsValid 1 2 4 1000 (omega arith) (omega arith) seeded).1

pub no_buckets_yet : empty_table.buckets < 2 ^ 50
unfolding create
no_buckets_yet = omega arith

resize_lem_example :
    (h' : PacketHash) × (resize empty_table 9 ≡ some h')
    × Resized empty_table (clamp_capacity empty_table 9) h'
resize_lem_example = resize_lem empty_table 9 empty_table-IsValid.0

insert_packet-Inserted_example :
    (h' : PacketHash) × (insert_packet empty_table request ≡ some h')
    × Inserted empty_table request h'
insert_packet-Inserted_example =
    insert_packet-Inserted empty_table request empty_table-IsValid no_buckets_yet

-- the table after the request has been put in
abbrev pub one_request : PacketHash
one_request = Option.get_or (insert_packet empty_table request) empty_table

one_request-Inserted : Inserted empty_table request one_request
one_request-Inserted =
    let (h', ran, k) =
      insert_packet-Inserted empty_table request empty_table-IsValid no_buckets_yet in
    rw ran k

response_finds : lookup one_request response ≡ some (request ∷ [])
response_finds =
    one_request-Inserted.reads response ∙ rw (response_matches, empty_reads request) refl

request_finds : lookup one_request request ≡ some (request ∷ [])
request_finds =
    one_request-Inserted.reads request ∙ rw (match_refl request, empty_reads request) refl

request_unlinked : unlink request.address (request ∷ []) ≡ some []
unfolding unlink
request_unlinked = refl

remove_packet-Removed_example :
    (h' : PacketHash) × (remove_packet one_request request ≡ some h')
    × Removed one_request request [] h'
remove_packet-Removed_example =
    remove_packet-Removed one_request request (request ∷ []) [] one_request-Inserted.valid
      request_finds request_unlinked

is_response-response : is_response response ≡ true
unfolding is_response
is_response-response = refl

is_request-request : is_request request ≡ true
unfolding is_request
is_request-request = refl

get_match-Picks_example :
    (o : Option Packet) × (h' : PacketHash) × (get_match bytes_eq true one_request response
      ≡ some (o, h'))
    × Picks bytes_eq true response (take 33 (request ∷ [])) o
    × Taken bytes_eq true one_request response (request ∷ []) o h'
get_match-Picks_example =
    get_match-Picks bytes_eq true one_request response (request ∷ []) one_request-Inserted.valid
      is_response-response response_finds (is_request-request, tt)
