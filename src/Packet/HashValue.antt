-- ===== src/Packet/HashValue.antt =====
-- src/packet.c: the hash of a packet. Words of an address are read in little-endian order, as on
-- the machines that the program is built for.
use dns_collector.Prelude.{
  ℕ, zero, suc, ◌+◌, ◌*◌, ◌/◌, ◌%◌, ◌^◌, Option, some, List, get_or, ltb, assert, ◌>>◌, add64,
}
use dns_collector.Packet.{Packet, sockaddr_addr, sockaddr_addrlen}

-- `(dns_hash_value_t) x << k`
abbrev pub shl64 : ℕ → ℕ → ℕ
shl64 x k = (x * 2 ^ k) % 2 ^ 64

-- `((uint32_t *) bytes)[i]`
unfoldable pub word32 : List ℕ → ℕ → ℕ
word32 bytes i =
    get_or bytes (4 * i) 0
    + 2 ^ 8 * get_or bytes (4 * i + 1) 0
    + 2 ^ 16 * get_or bytes (4 * i + 2) 0
    + 2 ^ 24 * get_or bytes (4 * i + 3) 0

-- the loop over the words of both addresses, with `n` rounds left from word `i` on
unfoldable pub hash_words : ℕ → ℕ → ℕ → List ℕ → List ℕ → ℕ → ℕ
hash_words param zero i src dst hash = hash
hash_words param (suc n) i src dst hash =
    hash_words param n (i + 1) src dst
      (add64 (add64 hash (shl64 (word32 src i) 32)) (shl64 (word32 dst i) 32) % param)

-- the value of `hash` before the loop
unfoldable pub hash_header : ℕ → Packet → ℕ
hash_header param p =
    let family = add64 0 (shl64 p.src_addr.family 0) in
    let proto = add64 family (shl64 p.net_protocol 16) in
    let dst = add64 proto (shl64 p.dst_addr.port 32) in
    let src = add64 dst (shl64 p.src_addr.port 32) in add64 src (shl64 p.dns_id 48) % param

-- `dns_packet_primary_hash`; `none` is a failed assertion
unfoldable pub primary_hash : Packet → ℕ → Option ℕ
unfolding hash_words hash_header
primary_hash p param = do
  assert (ltb 0x100 param)
  some (
      hash_words param (sockaddr_addrlen p.src_addr / 4) 0 (sockaddr_addr p.src_addr)
        (sockaddr_addr p.dst_addr) (hash_header param p))
