-- ===== src/Csv/Columns.antt =====
-- The fields of a CSV line, in the order of the source.
use dns_collector.Prelude.{
  ℕ, zero, suc, ◌+◌, ◌*◌, ◌/◌, ◌%◌, Bool, false, Option, none, some, List, [], ◌∷◌, ◌++◌, ◌==◌,
  if◌then◌else◌, get_elem?, take, drop, sub64, ltb, is_some, ◌>>=◌,
}
use dns_collector.Packet.{
  Packet, PacketData, KnotPacket, OptRecord, sockaddr_addr, is_request, is_response,
  client_sockaddr, server_sockaddr, af_inet, af_inet6,
}
use dns_collector.Print.{codes, decimal, signed_decimal, six_digits}
use dns_collector.Csv.{Library, Piece, text_piece, escape_piece, uninitialised, Column}

-- `DNS_PACKET_REQUEST`
unfoldable pub request_part : Packet → Option PacketData
unfolding is_request
request_part p = if is_request p then some p.body else none

-- `DNS_PACKET_RESPONSE`
unfoldable pub response_part : Packet → Option PacketData
unfolding is_response
response_part p = if is_response p then some p.body else p.response

-- `req_opt_rr` and `resp_opt_rr`
unfoldable pub opt_of : Option PacketData → Option OptRecord
opt_of none = none
opt_of (some d) = d.knot_packet.opt_rr

abbrev pub null_text : List ℕ
null_text = codes "\\N"

-- `WRITE("%d", f(x))` if there is an `x`
unfoldable pub number_of : {A : Type 0} → (A → ℕ) → Option A → List Piece
number_of f none = []
number_of f (some x) = text_piece (decimal (f x)) ∷ []

-- `!! n`
unfoldable pub flag_value : ℕ → ℕ
flag_value n = if n == 0 then 0 else 1

-- the text of an address; without one `addrbuf` holds nothing
unfoldable pub address : Option (List ℕ) → List Piece
address none = uninitialised ∷ []
address (some s) = text_piece s ∷ []

abbrev ipproto_udp : ℕ
ipproto_udp = 17

-- a field with the response, or with the request, of the packet
unfoldable pub of_response : (PacketData → ℕ) → Packet → List Piece
unfolding number_of response_part
of_response f p = number_of f (response_part p)

unfoldable pub of_request : (PacketData → ℕ) → Packet → List Piece
unfolding number_of request_part
of_request f p = number_of f (request_part p)

-- time and delay
unfoldable pub time_cell : Packet → List Piece
time_cell p = text_piece (decimal (p.ts / 1000000) ++ b'.' ∷ six_digits (p.ts % 1000000)) ∷ []

unfoldable pub delay_of : Option PacketData → ℕ → List Piece
delay_of none ts = []
delay_of (some r) ts = text_piece (signed_decimal (sub64 r.ts ts)) ∷ []

unfoldable pub time_columns : List Column
unfolding time_cell delay_of
time_columns =
    record { flag = 0; title = codes "time"; cell = time_cell }
    ∷ record { flag = 1; title = codes "delay_us"; cell = λ p. delay_of p.response p.ts }
    ∷ []

unfoldable pub size_columns : List Column
unfolding of_request of_response
size_columns =
    record { flag = 2; title = codes "req_dns_len"; cell = of_request (λ d. d.dns_data_size_orig) }
    ∷ record {
      flag = 3;
      title = codes "resp_dns_len";
      cell = of_response (λ d. d.dns_data_size_orig);
    }
    ∷ record { flag = 4; title = codes "req_net_len"; cell = of_request (λ d. d.net_size) }
    ∷ record { flag = 5; title = codes "resp_net_len"; cell = of_response (λ d. d.net_size) }
    ∷ []

-- `net_ipv`, for another family nothing
unfoldable pub version_cell : ℕ → List Piece
version_cell family =
    if family == af_inet
    then text_piece (codes "4") ∷ []
    else if family == af_inet6
    then text_piece (codes "6") ∷ []
    else []

unfoldable pub udp_sum_cell : Packet → List Piece
unfolding of_request
udp_sum_cell p = if p.net_protocol == ipproto_udp then of_request (λ d. d.net_udp_sum) p else []

unfoldable pub ttl_cell : Packet → List Piece
ttl_cell p = if ltb 0 p.net_ttl then text_piece (decimal p.net_ttl) ∷ [] else []

unfoldable pub ip_columns : Library → List Column
unfolding address version_cell ttl_cell udp_sum_cell client_sockaddr server_sockaddr sockaddr_addr
ip_columns lib =
    record {
      flag = 6;
      title = codes "client_addr";
      cell = λ p. address (lib.inet_ntop p.src_addr.family (sockaddr_addr (client_sockaddr p)));
    }
    ∷ record {
      flag = 7;
      title = codes "client_port";
      cell = λ p. text_piece (decimal (client_sockaddr p).port) ∷ [];
    }
    ∷ record {
      flag = 8;
      title = codes "server_addr";
      cell = λ p. address (lib.inet_ntop p.src_addr.family (sockaddr_addr (server_sockaddr p)));
    }
    ∷ record {
      flag = 9;
      title = codes "server_port";
      cell = λ p. text_piece (decimal (server_sockaddr p).port) ∷ [];
    }
    ∷ record {
      flag = 10;
      title = codes "net_proto";
      cell = λ p. text_piece (decimal p.net_protocol) ∷ [];
    }
    ∷ record { flag = 11; title = codes "net_ipv"; cell = λ p. version_cell p.src_addr.family }
    ∷ record { flag = 12; title = codes "net_ttl"; cell = ttl_cell }
    ∷ record { flag = 13; title = codes "req_udp_sum"; cell = udp_sum_cell }
    ∷ []

unfoldable pub header_columns : List Column
unfolding of_response
header_columns =
    record {
      flag = 14;
      title = codes "id";
      cell = λ p. text_piece (decimal p.knot_packet.wire_id) ∷ [];
    }
    ∷ record {
      flag = 15;
      title = codes "qtype";
      cell = λ p. text_piece (decimal p.knot_packet.qtype) ∷ [];
    }
    ∷ record {
      flag = 16;
      title = codes "qclass";
      cell = λ p. text_piece (decimal p.knot_packet.qclass) ∷ [];
    }
    ∷ record {
      flag = 17;
      title = codes "opcode";
      cell = λ p. text_piece (decimal p.knot_packet.opcode) ∷ [];
    }
    ∷ record { flag = 18; title = codes "rcode"; cell = of_response (λ d. d.knot_packet.rcode) }
    ∷ []

-- `WRITEFLAG`
unfoldable pub flag_of : (KnotPacket → ℕ) → PacketData → ℕ
unfolding flag_value
flag_of f d = flag_value (f d.knot_packet)

unfoldable pub flag_columns : List Column
unfolding of_request of_response flag_of
flag_columns =
    record { flag = 19; title = codes "resp_aa"; cell = of_response (flag_of (λ k. k.aa)) }
    ∷ record { flag = 19; title = codes "resp_tc"; cell = of_response (flag_of (λ k. k.tc)) }
    ∷ record { flag = 19; title = codes "req_rd"; cell = of_request (flag_of (λ k. k.rd)) }
    ∷ record { flag = 19; title = codes "resp_ra"; cell = of_response (flag_of (λ k. k.ra)) }
    ∷ record { flag = 19; title = codes "req_z"; cell = of_request (flag_of (λ k. k.z)) }
    ∷ record { flag = 19; title = codes "resp_ad"; cell = of_response (flag_of (λ k. k.ad)) }
    ∷ record { flag = 19; title = codes "req_cd"; cell = of_request (flag_of (λ k. k.cd)) }
    ∷ []

-- the name of the question, or NULL where it has no text
unfoldable pub name_cell : Option (List ℕ) → List Piece
name_cell none = text_piece null_text ∷ []
name_cell (some s) = text_piece s ∷ []

unfoldable pub qname_text : Library → Option (List ℕ) → Option (List ℕ)
qname_text lib name = name >>= λ n. lib.dname_to_str n 1024

unfoldable pub name_columns : Library → List Column
unfolding name_cell qname_text
name_columns lib =
    record {
      flag = 20;
      title = codes "qname";
      cell = λ p. name_cell (qname_text lib p.knot_packet.qname);
    }
    ∷ []

unfoldable pub count_columns : List Column
unfolding of_response
count_columns =
    record {
      flag = 21;
      title = codes "resp_ancount";
      cell = of_response (λ d. d.knot_packet.ancount);
    }
    ∷ record {
      flag = 21;
      title = codes "resp_arcount";
      cell = of_response (λ d. d.knot_packet.arcount);
    }
    ∷ record {
      flag = 21;
      title = codes "resp_nscount";
      cell = of_response (λ d. d.knot_packet.nscount);
    }
    ∷ []

-- a byte of the memory; there is no telling what a read behind the packet gives
unfoldable pub byte_piece : Option ℕ → Piece
byte_piece none = uninitialised
byte_piece (some b) = text_piece (decimal b)

-- the values of `WRITE_UNDERSTOOD_LIST` from number `i` on: `(opt + 4 + i)[i]` is the byte at 4 + 2 i
unfoldable pub understood_from : ℕ → List ℕ → ℕ → ℕ → List Piece
unfolding byte_piece
understood_from separator memory i zero = []
understood_from separator memory i (suc n) =
    let rest = understood_from separator memory (i + 1) n in
    let value = byte_piece (get_elem? memory (4 + 2 * i)) in
    let comma = text_piece (if separator == b',' then codes "\\," else codes ",") in
    if i == 0 then value ∷ rest else comma ∷ value ∷ rest

unfoldable pub understood_option : ℕ → Option (ℕ × List ℕ) → List Piece
unfolding understood_from
understood_option separator none = text_piece null_text ∷ []
understood_option separator (some (len, memory)) = understood_from separator memory 0 len

-- `WRITE_UNDERSTOOD_LIST`
unfoldable pub understood : ℕ → ℕ → Option OptRecord → List Piece
unfolding understood_option
understood separator option_code none = text_piece null_text ∷ []
understood separator option_code (some rr) = understood_option separator (rr.option option_code)

unfoldable pub nsid_option : Option (ℕ × List ℕ) → List Piece
nsid_option none = text_piece null_text ∷ []
nsid_option (some (len, memory)) = escape_piece (take len (drop 4 memory)) ∷ []

unfoldable pub nsid : Option OptRecord → List Piece
unfolding nsid_option
nsid none = text_piece null_text ∷ []
nsid (some rr) = nsid_option (rr.option 3)

unfoldable pub has_option : Option OptRecord → ℕ → Bool
has_option none option_code = false
has_option (some rr) option_code = is_some (rr.option option_code)

-- nothing is printed of the option itself
unfoldable pub client_subnet : Option OptRecord → Option OptRecord → List Piece
unfolding has_option
client_subnet req resp =
    if has_option resp 8 then [] else if has_option req 8 then [] else text_piece null_text ∷ []

unfoldable pub other_options : Option OptRecord → Option OptRecord → List Piece
other_options req resp =
    if is_some req then [] else if is_some resp then [] else text_piece null_text ∷ []

unfoldable pub edns_columns : ℕ → List Column
unfolding opt_of request_part response_part number_of flag_value understood nsid client_subnet
    other_options
edns_columns separator =
    let req : Packet → Option OptRecord = λ p. opt_of (request_part p) in
    let resp : Packet → Option OptRecord = λ p. opt_of (response_part p) in
    record {
      flag = 22;
      title = codes "req_edns_ver";
      cell = λ p. number_of (λ r. r.version) (req p);
    }
    ∷ record {
      flag = 22;
      title = codes "req_edns_udp";
      cell = λ p. number_of (λ r. r.payload) (req p);
    }
    ∷ record {
      flag = 22;
      title = codes "req_edns_do";
      cell = λ p. number_of (λ r. flag_value r.dnssec_ok) (req p);
    }
    ∷ record {
      flag = 22;
      title = codes "resp_edns_rcode";
      cell = λ p. number_of (λ r. r.ext_rcode) (resp p);
    }
    ∷ record { flag = 22; title = codes "req_edns_ping"; cell = λ p. [] }
    ∷ record { flag = 22; title = codes "req_edns_dau"; cell = λ p. understood separator 5 (req p) }
    ∷ record { flag = 22; title = codes "req_edns_dhu"; cell = λ p. understood separator 6 (req p) }
    ∷ record { flag = 22; title = codes "req_edns_n3u"; cell = λ p. understood separator 7 (req p) }
    ∷ record { flag = 22; title = codes "resp_edns_nsid"; cell = λ p. nsid (resp p) }
    ∷ record {
      flag = 22;
      title = codes "edns_client_subnet";
      cell = λ p. client_subnet (req p) (resp p);
    }
    ∷ record { flag = 22; title = codes "edns_other"; cell = λ p. other_options (req p) (resp p) }
    ∷ []

-- all fields
unfoldable pub columns : Library → ℕ → List Column
columns lib separator =
    time_columns
    ++ size_columns
    ++ ip_columns lib
    ++ header_columns
    ++ flag_columns
    ++ name_columns lib
    ++ count_columns
    ++ edns_columns separator
