-- ===== src/Cbor/Columns.antt =====
-- The fields of a CBOR record, in the order of the source.
use dns_collector.Prelude.{
  ℕ, zero, suc, ◌+◌, ◌*◌, not, Option, none, some, List, [], ◌∷◌, ◌++◌, ◌==◌, if◌then◌else◌,
  get_elem?, take, drop, sub64, ltb, ◌>>=◌,
}
use dns_collector.Packet.{
  Packet, PacketData, KnotPacket, OptRecord, sockaddr_addr, client_sockaddr, server_sockaddr,
  af_inet, af_inet6,
}
use dns_collector.Print.{codes}
use dns_collector.Csv.{Library}
use dns_collector.Csv.Columns.{request_part, response_part, opt_of, qname_text}
use dns_collector.Cbor.{
  Item, null_item, uninitialised, int_item, seconds_item, boolean_item, text_item, bytes_item,
  ints_item, Column,
}

-- `CONDIF`: null without the part
unfoldable pub item_of : {A : Type 0} → (A → Item) → Option A → List Item
item_of f none = null_item ∷ []
item_of f (some x) = f x ∷ []

unfoldable pub of_response : (PacketData → Item) → Packet → List Item
unfolding item_of response_part
of_response f p = item_of f (response_part p)

unfoldable pub of_request : (PacketData → Item) → Packet → List Item
unfolding item_of request_part
of_request f p = item_of f (request_part p)

unfoldable pub time_columns : List Column
unfolding item_of
time_columns =
    record { flag = 0; title = codes "time"; items = λ p. seconds_item p.ts ∷ [] }
    ∷ record {
      flag = 1;
      title = codes "delay_us";
      items = λ p. item_of (λ (r : PacketData). int_item (sub64 r.ts p.ts)) p.response;
    }
    ∷ []

unfoldable pub size_columns : List Column
unfolding of_request of_response
size_columns =
    record {
      flag = 2;
      title = codes "req_dns_len";
      items = of_request (λ d. int_item d.dns_data_size_orig);
    }
    ∷ record {
      flag = 3;
      title = codes "resp_dns_len";
      items = of_response (λ d. int_item d.dns_data_size_orig);
    }
    ∷ record {
      flag = 4;
      title = codes "req_net_len";
      items = of_request (λ d. int_item d.net_size);
    }
    ∷ record {
      flag = 5;
      title = codes "resp_net_len";
      items = of_response (λ d. int_item d.net_size);
    }
    ∷ []

unfoldable pub address : Option (List ℕ) → List Item
address none = uninitialised ∷ []
address (some s) = text_item s ∷ []

-- `net_ipv`, for another family nothing
unfoldable pub version_items : ℕ → List Item
version_items family =
    if family == af_inet
    then int_item 4 ∷ []
    else if family == af_inet6
    then int_item 6 ∷ []
    else []

unfoldable pub ttl_items : Packet → List Item
ttl_items p = if ltb 0 p.net_ttl then int_item p.net_ttl ∷ [] else null_item ∷ []

unfoldable pub udp_sum_items : Packet → List Item
unfolding of_request
udp_sum_items p =
    if p.net_protocol == 17 then of_request (λ d. int_item d.net_udp_sum) p else null_item ∷ []

unfoldable pub ip_columns : Library → List Column
unfolding address version_items ttl_items udp_sum_items client_sockaddr server_sockaddr
    sockaddr_addr
ip_columns lib =
    record {
      flag = 6;
      title = codes "client_addr";
      items = λ p. address (lib.inet_ntop p.src_addr.family (sockaddr_addr (client_sockaddr p)));
    }
    ∷ record {
      flag = 7;
      title = codes "client_port";
      items = λ p. int_item (client_sockaddr p).port ∷ [];
    }
    ∷ record {
      flag = 8;
      title = codes "server_addr";
      items = λ p. address (lib.inet_ntop p.src_addr.family (sockaddr_addr (server_sockaddr p)));
    }
    ∷ record {
      flag = 9;
      title = codes "server_port";
      items = λ p. int_item (server_sockaddr p).port ∷ [];
    }
    ∷ record { flag = 10; title = codes "net_proto"; items = λ p. int_item p.net_protocol ∷ [] }
    ∷ record { flag = 11; title = codes "net_ipv"; items = λ p. version_items p.src_addr.family }
    ∷ record { flag = 12; title = codes "net_ttl"; items = ttl_items }
    ∷ record { flag = 13; title = codes "req_udp_sum"; items = udp_sum_items }
    ∷ []

unfoldable pub header_columns : List Column
unfolding of_response
header_columns =
    record { flag = 14; title = codes "id"; items = λ p. int_item p.knot_packet.wire_id ∷ [] }
    ∷ record { flag = 15; title = codes "qtype"; items = λ p. int_item p.knot_packet.qtype ∷ [] }
    ∷ record { flag = 16; title = codes "qclass"; items = λ p. int_item p.knot_packet.qclass ∷ [] }
    ∷ record { flag = 17; title = codes "opcode"; items = λ p. int_item p.knot_packet.opcode ∷ [] }
    ∷ record {
      flag = 18;
      title = codes "rcode";
      items = of_response (λ d. int_item d.knot_packet.rcode);
    }
    ∷ []

-- `WRITEFLAG`
unfoldable pub flag_of : (KnotPacket → ℕ) → PacketData → Item
flag_of f d = boolean_item (not (f d.knot_packet == 0))

unfoldable pub flag_columns : List Column
unfolding of_request of_response flag_of
flag_columns =
    record { flag = 19; title = codes "resp_aa"; items = of_response (flag_of (λ k. k.aa)) }
    ∷ record { flag = 19; title = codes "resp_tc"; items = of_response (flag_of (λ k. k.tc)) }
    ∷ record { flag = 19; title = codes "req_rd"; items = of_request (flag_of (λ k. k.rd)) }
    ∷ record { flag = 19; title = codes "resp_ra"; items = of_response (flag_of (λ k. k.ra)) }
    ∷ record { flag = 19; title = codes "req_z"; items = of_request (flag_of (λ k. k.z)) }
    ∷ record { flag = 19; title = codes "resp_ad"; items = of_response (flag_of (λ k. k.ad)) }
    ∷ record { flag = 19; title = codes "req_cd"; items = of_request (flag_of (λ k. k.cd)) }
    ∷ []

unfoldable pub name_columns : Library → List Column
unfolding item_of qname_text
name_columns lib =
    record {
      flag = 20;
      title = codes "qname";
      items = λ p. item_of text_item (qname_text lib p.knot_packet.qname);
    }
    ∷ []

unfoldable pub count_columns : List Column
unfolding of_response
count_columns =
    record {
      flag = 21;
      title = codes "resp_ancount";
      items = of_response (λ d. int_item d.knot_packet.ancount);
    }
    ∷ record {
      flag = 21;
      title = codes "resp_arcount";
      items = of_response (λ d. int_item d.knot_packet.arcount);
    }
    ∷ record {
      flag = 21;
      title = codes "resp_nscount";
      items = of_response (λ d. int_item d.knot_packet.nscount);
    }
    ∷ []

-- the list of `WRITE_UNDERSTOOD_LIST` from number `i` on: `(opt + 4 + i)[i]` is the byte at 4 + 2 i
unfoldable pub understood_from : List ℕ → ℕ → ℕ → Option (List ℕ)
understood_from memory i zero = some []
understood_from memory i (suc n) = do
  b ← get_elem? memory (4 + 2 * i)
  bs ← understood_from memory (i + 1) n
  some (b ∷ bs)

unfoldable pub ints_or_fault : Option (List ℕ) → Item
ints_or_fault none = uninitialised
ints_or_fault (some ns) = ints_item ns

unfoldable pub understood_item : ℕ × List ℕ → Item
unfolding understood_from ints_or_fault
understood_item (len, memory) = ints_or_fault (understood_from memory 0 len)

unfoldable pub nsid_item : ℕ × List ℕ → Item
nsid_item (len, memory) = bytes_item (take len (drop 4 memory))

-- `COND_OPT_RR`
unfoldable pub option_items : (ℕ × List ℕ → Item) → ℕ → Option OptRecord → List Item
unfolding item_of
option_items f option_code none = null_item ∷ []
option_items f option_code (some rr) = item_of f (rr.option option_code)

unfoldable pub edns_columns : List Column
unfolding opt_of request_part response_part item_of option_items understood_item nsid_item
edns_columns =
    let req : Packet → Option OptRecord = λ p. opt_of (request_part p) in
    let resp : Packet → Option OptRecord = λ p. opt_of (response_part p) in
    record {
      flag = 22;
      title = codes "req_edns_ver";
      items = λ p. item_of (λ (r : OptRecord). int_item r.version) (req p);
    }
    ∷ record {
      flag = 22;
      title = codes "req_edns_udp";
      items = λ p. item_of (λ (r : OptRecord). int_item r.payload) (req p);
    }
    ∷ record {
      flag = 22;
      title = codes "req_edns_do";
      items = λ p. item_of (λ (r : OptRecord). boolean_item (not (r.dnssec_ok == 0))) (req p);
    }
    ∷ record {
      flag = 22;
      title = codes "resp_edns_rcode";
      items = λ p. item_of (λ (r : OptRecord). int_item r.ext_rcode) (resp p);
    }
    ∷ record {
      flag = 22;
      title = codes "req_edns_dau";
      items = λ p. option_items understood_item 5 (req p);
    }
    ∷ record {
      flag = 22;
      title = codes "req_edns_dhu";
      items = λ p. option_items understood_item 6 (req p);
    }
    ∷ record {
      flag = 22;
      title = codes "req_edns_n3u";
      items = λ p. option_items understood_item 7 (req p);
    }
    ∷ record {
      flag = 22;
      title = codes "resp_edns_nsid";
      items = λ p. option_items nsid_item 3 (resp p);
    }
    ∷ record { flag = 22; title = codes "edns_client_subnet"; items = λ p. null_item ∷ [] }
    ∷ record { flag = 22; title = codes "edns_other"; items = λ p. null_item ∷ [] }
    ∷ []

-- all fields
unfoldable pub columns : Library → List Column
columns lib =
    time_columns
    ++ size_columns
    ++ ip_columns lib
    ++ header_columns
    ++ flag_columns
    ++ name_columns lib
    ++ count_columns
    ++ edns_columns
