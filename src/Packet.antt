-- ===== src/Packet.antt =====
-- src/packet.h: the packet structure, the socket addresses in it, and the getter macros.
-- A `struct sockaddr_in6` is its family, its port (at one place for both families, here in host
-- order) and the bytes behind the port, where `sin_addr` stands first and `sin6_addr` 4 bytes on.
pub mod Match
pub mod HashValue
pub mod Key
pub mod SameHash
pub mod Create
use dns_collector.Prelude.{ℕ, ◌==◌, Bool, not, Option, none, some, List, if◌then◌else◌, drop}

pub record SockAddr : Type 0 where
  pub family : ℕ
  pub port : ℕ
  pub bytes : List ℕ

abbrev pub af_inet : ℕ
af_inet = 2

abbrev pub af_inet6 : ℕ
af_inet6 = 10

-- `DNS_SOCKADDR_ADDR`: the memory from the address on
unfoldable pub sockaddr_addr : SockAddr → List ℕ
sockaddr_addr sa = if sa.family == af_inet then sa.bytes else drop 4 sa.bytes

-- `DNS_SOCKADDR_ADDRLEN`
unfoldable pub sockaddr_addrlen : SockAddr → ℕ
sockaddr_addrlen sa = if sa.family == af_inet then 4 else 16

-- What libknot's getters return for an OPT record. `option code` is what `knot_edns_get_option`
-- points to, with the memory from there on, and `knot_edns_opt_get_length` of it.
pub record OptRecord : Type 0 where
  pub version : ℕ
  pub payload : ℕ
  pub dnssec_ok : ℕ
  pub ext_rcode : ℕ
  pub option : ℕ → Option (ℕ × List ℕ)

-- What libknot's getters return for a message: the fields of the header, the question, and the
-- OPT record.
pub record KnotPacket : Type 0 where
  pub qr : ℕ
  pub opcode : ℕ
  pub rcode : ℕ
  pub aa : ℕ
  pub tc : ℕ
  pub rd : ℕ
  pub ra : ℕ
  pub z : ℕ
  pub ad : ℕ
  pub cd : ℕ
  pub ancount : ℕ
  pub nscount : ℕ
  pub arcount : ℕ
  pub wire_id : ℕ
  pub qname_size : ℕ
  pub qname : Option (List ℕ)
  pub qtype : ℕ
  pub qclass : ℕ
  pub opt_rr : Option OptRecord

-- `struct dns_packet` without `response`. `address` is the address of the structure in memory;
-- the list nodes in it are the places of the packet in the lists of the model.
pub record PacketData : Type 0 where
  pub address : ℕ
  pub ts : ℕ
  pub src_addr : SockAddr
  pub dst_addr : SockAddr
  pub net_protocol : ℕ
  pub net_size : ℕ
  pub net_ttl : ℕ
  pub net_udp_sum : ℕ
  pub dns_id : ℕ
  pub dns_data : List ℕ
  pub dns_data_size : ℕ
  pub dns_data_size_orig : ℕ
  pub knot_packet : KnotPacket
  pub memory_size : ℕ

-- `struct dns_packet`. A response is only ever hung on a request and carries no response itself.
pub record Packet : Type 0 where
  pub body : PacketData
  pub open body use *
  pub response : Option PacketData

-- `DNS_PACKET_IS_RESPONSE`
unfoldable pub is_response : Packet → Bool
is_response p = not (p.knot_packet.qr == 0)

-- `DNS_PACKET_IS_REQUEST`
unfoldable pub is_request : Packet → Bool
unfolding is_response
is_request p = not (is_response p)

-- `DNS_PACKET_CLIENT_SOCKADDR`
unfoldable pub client_sockaddr : Packet → SockAddr
client_sockaddr p = if is_request p then p.src_addr else p.dst_addr

-- `DNS_PACKET_SERVER_SOCKADDR`
unfoldable pub server_sockaddr : Packet → SockAddr
server_sockaddr p = if is_request p then p.dst_addr else p.src_addr
