-- ===== src/Cbor/Count.antt =====
-- The number of the items of an array, next to the length that it is announced with.
use dns_collector.Prelude.{
  ℕ, ◌+◌, ◌*◌, ◌/◌, ◌^◌, ◌≤◌, ◌<◌, ◌≡◌, ◌≢◌, refl, ap, ◌∙◌, false, Option, none, some, List, [],
  ◌∷◌, ◌==◌, ltb, if◌then◌else◌, Bool-cases, ◌⊎◌, inl, inr, length, length-append, All, All-append,
  arith,
}
use native.Mathlib.Nat.{pow-le-pow_right, div-eq_of_lt}
use dns_collector.Packet.{Packet, PacketData, OptRecord, af_inet, af_inet6}
use dns_collector.Csv.{Library, has_flag}
use dns_collector.Csv.Columns.{request_part, response_part, opt_of, qname_text}
use dns_collector.Cbor.{Item, text_item, Column, column_items, items, bit, noitems}
use dns_collector.Cbor.Columns.{
  item_of, of_response, of_request, time_columns, size_columns, address, version_items, ttl_items,
  udp_sum_items, ip_columns, header_columns, flag_columns, name_columns, count_columns,
  understood_item, nsid_item, option_items, edns_columns, columns,
}

-- the number of items for a flag, where `net_ipv` has `w`
abbrev width : ℕ → ℕ → ℕ
width w flag = if flag == 11 then w else 1

-- the number of items of the selected columns
total : ℕ → ℕ → List Column → ℕ
total w fields [] = 0
total w fields (c ∷ cs) = width w c.flag * bit fields c.flag + total w fields cs

abbrev HasWidth : ℕ → Option Packet → Column → Type 0
HasWidth w pkt c = length (column_items pkt c) ≡ width w c.flag

length-items :
    (w fields : ℕ) (cs : List Column) (pkt : Option Packet)
    → All (HasWidth w pkt) cs
    → length (items fields cs pkt) ≡ total w fields cs
unfolding items total bit
length-items w fields [] pkt h = refl
length-items w fields (c ∷ cs) pkt (one, h) = elim (Bool-cases (has_flag fields c.flag)) [
  | inl e ↦ rw e (
      omega (
        arith,
        length-append (column_items pkt c) (items fields cs pkt),
        one,
        length-items w fields cs pkt h,
      ))
  | inr e ↦ rw e (omega (arith, length-items w fields cs pkt h))
]

titles-HasWidth : (cs : List Column) → All (HasWidth 1 none) cs
unfolding column_items
titles-HasWidth [] = tt
titles-HasWidth (c ∷ cs) = (ground arith, titles-HasWidth cs)

-- a number below a power of two has no bit from that power on
bit_above : (fields n : ℕ) → fields < 2 ^ 23 → 23 ≤ n → bit fields n ≡ 0
unfolding bit has_flag
bit_above fields n h above =
    let power : 2 ^ 23 ≤ 2 ^ n = pow-le-pow_right (omega arith) above in
    let gone : fields / 2 ^ n ≡ 0 = div-eq_of_lt (omega (arith, h, power)) in rw gone refl

times_bit : (fields n k : ℕ) → (if has_flag fields n then k else 0) ≡ k * bit fields n
unfolding bit
times_bit fields n k = elim (Bool-cases (has_flag fields n)) [
  | inl e ↦ rw e (omega arith)
  | inr e ↦ rw e (omega arith)
]

total-noitems :
    (lib : Library) (fields : ℕ)
    → fields < 2 ^ 23
    → (total 1 fields (columns lib) ≡ noitems fields)
      × (total 0 fields (columns lib) + bit fields 11 ≡ noitems fields)
unfolding total noitems columns time_columns size_columns ip_columns header_columns flag_columns
    name_columns count_columns edns_columns
total-noitems lib fields h =
    let above : (n : ℕ) → 23 ≤ n → bit fields n ≡ 0 = λ n le. bit_above fields n h le in
    let flags = times_bit fields 19 6 in
    let counts = times_bit fields 21 2 in
    let edns = times_bit fields 22 9 in
    let b23 = above 23 (omega arith) in
    let b24 = above 24 (omega arith) in
    let b25 = above 25 (omega arith) in
    let b26 = above 26 (omega arith) in
    let b27 = above 27 (omega arith) in
    let b28 = above 28 (omega arith) in
    let b29 = above 29 (omega arith) in
    let b30 = above 30 (omega arith) in
    let b31 = above 31 (omega arith) in
    (
      omega (arith, flags, counts, edns, b23, b24, b25, b26, b27, b28, b29, b30, b31),
      omega (arith, flags, counts, edns, b23, b24, b25, b26, b27, b28, b29, b30, b31),
    )

-- a packet over IPv4 or IPv6, as all packets of a capture are
abbrev pub IsInternet : Packet → Type 0
IsInternet p = (p.src_addr.family ≡ af_inet) ⊎ (p.src_addr.family ≡ af_inet6)

item_of_one : {A : Type 0} (f : A → Item) (o : Option A) → length (item_of f o) ≡ 1
unfolding item_of
item_of_one f none = refl
item_of_one f (some x) = refl

address_one : (o : Option (List ℕ)) → length (address o) ≡ 1
unfolding address
address_one none = refl
address_one (some s) = refl

option_items_one :
    (f : ℕ × List ℕ → Item) (n : ℕ) (o : Option OptRecord) → length (option_items f n o) ≡ 1
unfolding option_items
option_items_one f n none = refl
option_items_one f n (some rr) = item_of_one f (rr.option n)

ttl_items_one : (p : Packet) → length (ttl_items p) ≡ 1
unfolding ttl_items
ttl_items_one p = elim (Bool-cases (ltb 0 p.net_ttl)) [ inl e ↦ rw e refl | inr e ↦ rw e refl ]

udp_sum_items_one : (p : Packet) → length (udp_sum_items p) ≡ 1
unfolding udp_sum_items of_request
udp_sum_items_one p = elim (Bool-cases (p.net_protocol == 17)) [
  | inl e ↦ rw e (item_of_one _ (request_part p))
  | inr e ↦ rw e refl
]

of_request_one : (f : PacketData → Item) (p : Packet) → length (of_request f p) ≡ 1
unfolding of_request
of_request_one f p = item_of_one f (request_part p)

of_response_one : (f : PacketData → Item) (p : Packet) → length (of_response f p) ≡ 1
unfolding of_response
of_response_one f p = item_of_one f (response_part p)

module _ (lib : Library) (p : Packet) (w : ℕ)
    (version : length (version_items p.src_addr.family) ≡ w) where
  abbrev One : Column → Type 0
  One = HasWidth w (some p)

  time_columns-One : All One time_columns
  unfolding time_columns column_items
  time_columns-One = (refl, (item_of_one _ p.response, tt))

  size_columns-One : All One size_columns
  unfolding size_columns column_items
  size_columns-One =
      (of_request_one _ p, (of_response_one _ p, (of_request_one _ p, (of_response_one _ p, tt))))

  ip_columns-One : All One (ip_columns lib)
  unfolding ip_columns column_items
  ip_columns-One = (
    address_one _,
    (
      refl,
      (address_one _, (refl, (refl, (version, (ttl_items_one p, (udp_sum_items_one p, tt)))))),
    ),
  )

  header_columns-One : All One header_columns
  unfolding header_columns column_items
  header_columns-One = (refl, (refl, (refl, (refl, (of_response_one _ p, tt)))))

  flag_columns-One : All One flag_columns
  unfolding flag_columns column_items
  flag_columns-One = (
    of_response_one _ p,
    (
      of_response_one _ p,
      (
        of_request_one _ p,
        (
          of_response_one _ p,
          (of_request_one _ p, (of_response_one _ p, (of_request_one _ p, tt))),
        ),
      ),
    ),
  )

  name_columns-One : All One (name_columns lib)
  unfolding name_columns column_items
  name_columns-One = (item_of_one text_item (qname_text lib p.knot_packet.qname), tt)

  count_columns-One : All One count_columns
  unfolding count_columns column_items
  count_columns-One = (of_response_one _ p, (of_response_one _ p, (of_response_one _ p, tt)))

  edns_columns-One : All One edns_columns
  unfolding edns_columns column_items
  edns_columns-One =
      let req = opt_of (request_part p) in
      let resp = opt_of (response_part p) in
      (
        item_of_one _ req,
        (
          item_of_one _ req,
          (
            item_of_one _ req,
            (
              item_of_one _ resp,
              (
                option_items_one understood_item 5 req,
                (
                  option_items_one understood_item 6 req,
                  (
                    option_items_one understood_item 7 req,
                    (option_items_one nsid_item 3 resp, (refl, (refl, tt))),
                  ),
                ),
              ),
            ),
          ),
        ),
      )

  columns-One : All One (columns lib)
  unfolding columns
  columns-One =
      All-append One _ edns_columns
        (All-append One _ count_columns
          (All-append One _ (name_columns lib)
            (All-append One _ flag_columns
              (All-append One _ header_columns
                (All-append One _ (ip_columns lib)
                  (All-append One time_columns size_columns time_columns-One size_columns-One)
                  ip_columns-One)
                header_columns-One)
              flag_columns-One)
            name_columns-One)
          count_columns-One)
        edns_columns-One

version_items_one : (p : Packet) → IsInternet p → length (version_items p.src_addr.family) ≡ 1
unfolding version_items
version_items_one p (inl e) = rw e refl
version_items_one p (inr e) = rw e refl

-- a packet over IPv4 or IPv6, or no packet, for the header
abbrev pub IsWritable : Option Packet → Type 0
IsWritable none = Unit
IsWritable (some p) = IsInternet p

-- For a selection among the 23 flags, the header and each packet over IPv4 or IPv6 are given exactly
-- as many items as the array is announced with.
pub length-items-noitems :
    (lib : Library) (fields : ℕ) (pkt : Option Packet)
    → fields < 2 ^ 23
    → IsWritable pkt
    → length (items fields (columns lib) pkt) ≡ noitems fields
length-items-noitems lib fields none h w =
    length-items 1 fields (columns lib) none (titles-HasWidth (columns lib))
    ∙ (total-noitems lib fields h).0
length-items-noitems lib fields (some p) h w =
    length-items 1 fields (columns lib) (some p) (columns-One lib p 1 (version_items_one p w))
    ∙ (total-noitems lib fields h).0

-- A packet of another family has one item less, if the field `net_ipv` is selected.
pub length-items-other :
    (lib : Library) (fields : ℕ) (p : Packet)
    → fields < 2 ^ 23
    → p.src_addr.family ≢ af_inet
    → p.src_addr.family ≢ af_inet6
    → length (items fields (columns lib) (some p)) + bit fields 11 ≡ noitems fields
unfolding version_items
length-items-other lib fields p h ne_4 ne_6 =
    let not_4 : (p.src_addr.family == af_inet) ≡ false = ground (arith, ne_4) in
    let not_6 : (p.src_addr.family == af_inet6) ≡ false = ground (arith, ne_6) in
    let nothing : length (version_items p.src_addr.family) ≡ 0 = rw (not_4, not_6) refl in
    ap (λ n. n + bit fields 11)
      (length-items 0 fields (columns lib) (some p) (columns-One lib p 0 nothing))
    ∙ (total-noitems lib fields h).1
