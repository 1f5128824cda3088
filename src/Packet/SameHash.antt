-- ===== src/Packet/SameHash.antt =====
-- The hash of a packet is a function of its key, so packets that match hash alike.
use dns_collector.Prelude.{
  ℕ, zero, suc, ◌+◌, ◌*◌, ◌/◌, ◌%◌, ◌≤◌, ◌≡◌, refl, ap, ◌∙◌, sym, true, List, take, get_or-take,
  arith, add64, some, ltb, assert, ◌>>◌, Bool-cases, inl, inr,
}
use dns_collector.Packet.{
  Packet, sockaddr_addr, sockaddr_addrlen, is_request, client_sockaddr, server_sockaddr,
}
use dns_collector.Packet.HashValue.{shl64, word32, hash_words, hash_header, primary_hash}
use dns_collector.Packet.Key.{Key, key, primary_match_iff}
use dns_collector.Packet.Match.{primary_match}

word32-take : (len i : ℕ) (xs : List ℕ) → 4 * i + 4 ≤ len → word32 (take len xs) i ≡ word32 xs i
unfolding word32
word32-take len i xs h = rw (
  get_or-take len (4 * i) xs 0 (omega arith),
  get_or-take len (4 * i + 1) xs 0 (omega arith),
  get_or-take len (4 * i + 2) xs 0 (omega arith),
  get_or-take len (4 * i + 3) xs 0 (omega arith),
)

module _ (param : ℕ) where
  hash_words-take :
      (len n i : ℕ) (src dst : List ℕ) (h : ℕ)
      → 4 * (i + n) ≤ len
      → hash_words param n i (take len src) (take len dst) h ≡ hash_words param n i src dst h
  unfolding hash_words
  hash_words-take len zero i src dst h b = refl
  hash_words-take len (suc n) i src dst h b =
      rw (word32-take len i src (omega arith), word32-take len i dst (omega arith))
        (hash_words-take len n (i + 1) src dst _ (omega arith))

  hash_words_comm :
      (n i : ℕ) (src dst : List ℕ) (h : ℕ)
      → hash_words param n i src dst h ≡ hash_words param n i dst src h
  unfolding hash_words
  hash_words_comm zero i src dst h = refl
  hash_words_comm (suc n) i src dst h =
      let swap : add64 (add64 h (shl64 (word32 src i) 32)) (shl64 (word32 dst i) 32)
          ≡ add64 (add64 h (shl64 (word32 dst i) 32)) (shl64 (word32 src i) 32) =
        omega arith in
      hash_words_comm n (i + 1) src dst _
      ∙ ap (λ x. hash_words param n (i + 1) dst src (x % param)) swap

  -- The hash of a key, for an address of `len` bytes.
  hash_key : ℕ → Key → ℕ
  hash_key len k = hash_words param (len / 4) 0 k.client_addr k.server_addr (
      add64
        (add64
          (add64 (add64 (add64 0 (shl64 k.family 0)) (shl64 k.protocol 16))
            (shl64 k.server_port 32))
          (shl64 k.client_port 32))
        (shl64 k.id 48)
      % param)

  hash_words-key :
      (p : Packet) (h : ℕ)
      → let n = sockaddr_addrlen p.src_addr / 4 in
        hash_words param n 0 (sockaddr_addr p.src_addr) (sockaddr_addr p.dst_addr) h
        ≡ hash_words param n 0 (key p).client_addr (key p).server_addr h
  unfolding key client_sockaddr server_sockaddr
  hash_words-key p h =
      let len = sockaddr_addrlen p.src_addr in
      let src = sockaddr_addr p.src_addr in
      let dst = sockaddr_addr p.dst_addr in
      elim (Bool-cases (is_request p)) [
        | inl req ↦ rw req (sym (hash_words-take len (len / 4) 0 src dst h (omega arith)))
        | inr res ↦ rw res (
            hash_words_comm (len / 4) 0 src dst h
            ∙ sym (hash_words-take len (len / 4) 0 dst src h (omega arith)))
      ]

  hash_header-key :
      (p : Packet)
      → hash_header param p ≡ (
          add64
            (add64
              (add64
                (add64 (add64 0 (shl64 (key p).family 0)) (shl64 (key p).protocol 16))
                (shl64 (key p).server_port 32))
              (shl64 (key p).client_port 32))
            (shl64 (key p).id 48)
          % param)
  unfolding key hash_header client_sockaddr server_sockaddr
  hash_header-key p = elim (Bool-cases (is_request p)) [
    | inl req ↦ rw req
    | inr res ↦ rw res (ap (λ x. x % param) (omega arith))
  ]

-- The hash depends on the key of a packet alone.
primary_hash-key :
    (p : Packet) (param : ℕ)
    → primary_hash p param
      ≡ (assert (ltb 0x100 param) >> some (hash_key param (sockaddr_addrlen p.src_addr) (key p)))
unfolding primary_hash hash_key
primary_hash-key p param = rw (hash_words-key param p, hash_header-key param p)

addrlen-key :
    (p q : Packet) → key p ≡ key q → sockaddr_addrlen p.src_addr ≡ sockaddr_addrlen q.src_addr
unfolding key sockaddr_addrlen
addrlen-key p q e =
    let f : p.src_addr.family ≡ q.src_addr.family = ap (λ (k : Key). k.family) e in rw f

-- Packets that match have the same hash, so a response is looked for in the chain of its request.
pub primary_hash-eq_of_match :
    (p q : Packet) (param : ℕ)
    → primary_match p q ≡ true
    → primary_hash p param ≡ primary_hash q param
primary_hash-eq_of_match p q param h =
    let e = (primary_match_iff p q).0 h in
    rw (primary_hash-key p param, primary_hash-key q param, addrlen-key p q e, e)
