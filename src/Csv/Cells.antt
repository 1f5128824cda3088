-- ===== src/Csv/Cells.antt =====
-- The separators in the fields of the CSV output.
use dns_collector.Prelude.{
  ℕ, zero, suc, ◌+◌, ◌*◌, ◌/◌, ◌%◌, ◌≡◌, refl, Bool, true, Option, none, some, List, [], ◌∷◌, ◌==◌,
  ltb, leb, ◌&&◌, ◌||◌, if◌then◌else◌, Bool-cases, inl, inr, get_elem?, take, drop, All, All-append,
  arith,
}
use dns_collector.Packet.{Packet, PacketData, OptRecord, af_inet, af_inet6}
use dns_collector.Print.{codes, decimal}
use dns_collector.Print.Digits.{IsDigit, six_digits-IsDigit}
use dns_collector.Csv.{Library, Piece, text_piece, Column, separator_int}
use dns_collector.Csv.Columns.{
  columns, request_part, response_part, opt_of, null_text, number_of, address, of_response,
  of_request, time_cell, delay_of, time_columns, size_columns, version_cell, udp_sum_cell, ttl_cell,
  ip_columns, header_columns, flag_columns, name_cell, qname_text, name_columns, count_columns,
  byte_piece, understood_from, understood_option, understood, nsid_option, nsid, has_option,
  client_subnet, other_options, edns_columns,
}
use dns_collector.Csv.Fits.{text_of}
use dns_collector.Csv.Clean.{
  separators, IsAllowed, IsClean, IsCleanLibrary, IsPlainChar, IsClean-plain, digits-plain,
  IsClean-append, IsClean-decimal, IsClean-signed, IsClean-null, IsClean-escape_all,
}

module _ (lib : Library) (s : ℕ) (a : IsAllowed s) (clean : IsCleanLibrary lib s) where
  abbrev pub AreClean : List Piece → Type 0
  AreClean = All (λ x. IsClean s (text_of lib s x))

  pub number_of-AreClean : {A : Type 0} (f : A → ℕ) (o : Option A) → AreClean (number_of f o)
  unfolding number_of text_of
  number_of-AreClean f none = tt
  number_of-AreClean f (some x) = (IsClean-decimal s a (f x), tt)

  pub time_cell-AreClean : (p : Packet) → AreClean (time_cell p)
  unfolding time_cell text_of
  time_cell-AreClean p =
      let dot : IsClean s (b'.' ∷ []) =
        IsClean-plain s a (b'.' ∷ [])
          ((ground (arith, a.no_dot), omega arith, (omega arith, omega arith)), tt) in
      let fraction =
        IsClean-plain s a _ (digits-plain s a _ (six_digits-IsDigit (p.ts % 1000000))) in
      (
        IsClean-append s a (decimal (p.ts / 1000000)) _ (IsClean-decimal s a (p.ts / 1000000))
            (IsClean-append s a (b'.' ∷ []) _ dot fraction),
        tt,
      )

  pub delay_of-AreClean : (o : Option PacketData) (ts : ℕ) → AreClean (delay_of o ts)
  unfolding delay_of text_of
  delay_of-AreClean none ts = tt
  delay_of-AreClean (some r) ts = (IsClean-signed s a _, tt)

  pub address-AreClean :
      (family : ℕ) (memory : List ℕ) (o : Option (List ℕ))
      → lib.inet_ntop family memory ≡ o
      → AreClean (address o)
  unfolding address text_of
  address-AreClean family memory none e = (((λ rest. refl), tt), tt)
  address-AreClean family memory (some text) e = (clean.addresses family memory text e, tt)

  pub digit-IsClean : (c : ℕ) → IsDigit c → IsClean s (c ∷ [])
  digit-IsClean c h = IsClean-plain s a (c ∷ []) (digits-plain s a (c ∷ []) (h, tt))

  pub version_cell-AreClean : (family : ℕ) → AreClean (version_cell family)
  unfolding version_cell text_of
  version_cell-AreClean family = elim (Bool-cases (family == af_inet)) [
    | inl e ↦ rw e (digit-IsClean b'4' (omega arith, omega arith), tt)
    | inr e ↦ elim (Bool-cases (family == af_inet6)) [
      | inl e' ↦ rw (e, e') (digit-IsClean b'6' (omega arith, omega arith), tt)
      | inr e' ↦ rw (e, e') tt
    ]
  ]

  pub ttl_cell-AreClean : (p : Packet) → AreClean (ttl_cell p)
  unfolding ttl_cell text_of
  ttl_cell-AreClean p = elim (Bool-cases (ltb 0 p.net_ttl)) [
    | inl e ↦ rw e (IsClean-decimal s a p.net_ttl, tt)
    | inr e ↦ rw e tt
  ]

  pub udp_sum_cell-AreClean : (p : Packet) → AreClean (udp_sum_cell p)
  unfolding udp_sum_cell of_request
  udp_sum_cell-AreClean p = elim (Bool-cases (p.net_protocol == 17)) [
    | inl e ↦ rw e (number_of-AreClean _ (request_part p))
    | inr e ↦ rw e tt
  ]

  pub null-AreClean : AreClean (text_piece null_text ∷ [])
  unfolding text_of
  null-AreClean = (IsClean-null s a, tt)

  pub name_cell-AreClean :
      (name o : Option (List ℕ)) → qname_text lib name ≡ o → AreClean (name_cell o)
  unfolding name_cell qname_text text_of
  name_cell-AreClean name none e = null-AreClean
  name_cell-AreClean none (some text) e = absurd cc
  name_cell-AreClean (some n) (some text) e = (clean.names n 1024 text e, tt)

  pub comma-IsClean : IsClean s (if s == b',' then codes "\\," else codes ",")
  unfolding separators
  comma-IsClean = ((λ rest. ground arith), ground arith)

  pub byte_piece-AreClean : (o : Option ℕ) → IsClean s (text_of lib s (byte_piece o))
  unfolding byte_piece text_of
  byte_piece-AreClean none = ((λ rest. refl), tt)
  byte_piece-AreClean (some b) = IsClean-decimal s a b

  pub understood_from-AreClean :
      (memory : List ℕ) (i n : ℕ) → AreClean (understood_from s memory i n)
  unfolding understood_from text_of
  understood_from-AreClean memory i zero = tt
  understood_from-AreClean memory i (suc n) =
      let value = byte_piece-AreClean (get_elem? memory (4 + 2 * i)) in
      let rest = understood_from-AreClean memory (i + 1) n in
      elim (Bool-cases (i == 0)) [
        | inl e ↦ rw e (value, rest)
        | inr e ↦ rw e (comma-IsClean, (value, rest))
      ]

  pub understood_option-AreClean : (o : Option (ℕ × List ℕ)) → AreClean (understood_option s o)
  unfolding understood_option
  understood_option-AreClean none = null-AreClean
  understood_option-AreClean (some (len, memory)) = understood_from-AreClean memory 0 len

  pub understood-AreClean : (n : ℕ) (o : Option OptRecord) → AreClean (understood s n o)
  unfolding understood
  understood-AreClean n none = null-AreClean
  understood-AreClean n (some rr) = understood_option-AreClean (rr.option n)

  pub nsid_option-AreClean : (o : Option (ℕ × List ℕ)) → AreClean (nsid_option o)
  unfolding nsid_option text_of separator_int
  nsid_option-AreClean none = null-AreClean
  nsid_option-AreClean (some (len, memory)) =
      let small : ltb s 128 ≡ true = ground (arith, a.ascii) in
      (rw small (IsClean-escape_all s a lib.isgraph (take len (drop 4 memory))), tt)

  pub nsid-AreClean : (o : Option OptRecord) → AreClean (nsid o)
  unfolding nsid
  nsid-AreClean none = null-AreClean
  nsid-AreClean (some rr) = nsid_option-AreClean (rr.option 3)

  pub client_subnet-AreClean : (req resp : Option OptRecord) → AreClean (client_subnet req resp)
  unfolding client_subnet
  client_subnet-AreClean req resp = elim (Bool-cases (has_option resp 8)) [
    | inl e ↦ rw e tt
    | inr e ↦ elim (Bool-cases (has_option req 8)) [
      | inl e' ↦ rw (e, e') tt
      | inr e' ↦ rw (e, e') null-AreClean
    ]
  ]

  pub other_options-AreClean : (req resp : Option OptRecord) → AreClean (other_options req resp)
  unfolding other_options
  other_options-AreClean none none = null-AreClean
  other_options-AreClean none (some r) = tt
  other_options-AreClean (some r) resp = tt

  abbrev pub HasCleanCell : Column → Type 0
  HasCleanCell c = (p : Packet) → AreClean (c.cell p)

  pub number-AreClean : (n : ℕ) → AreClean (text_piece (decimal n) ∷ [])
  unfolding text_of
  number-AreClean n = (IsClean-decimal s a n, tt)

  pub of_request-AreClean : (f : PacketData → ℕ) (p : Packet) → AreClean (of_request f p)
  unfolding of_request
  of_request-AreClean f p = number_of-AreClean f (request_part p)

  pub of_response-AreClean : (f : PacketData → ℕ) (p : Packet) → AreClean (of_response f p)
  unfolding of_response
  of_response-AreClean f p = number_of-AreClean f (response_part p)

  pub time_columns-HasCleanCell : All HasCleanCell time_columns
  unfolding time_columns
  time_columns-HasCleanCell = (time_cell-AreClean, (λ p. delay_of-AreClean p.response p.ts, tt))

  pub size_columns-HasCleanCell : All HasCleanCell size_columns
  unfolding size_columns
  size_columns-HasCleanCell = (
    of_request-AreClean _,
    (of_response-AreClean _, (of_request-AreClean _, (of_response-AreClean _, tt))),
  )

  pub ip_columns-HasCleanCell : All HasCleanCell (ip_columns lib)
  unfolding ip_columns
  ip_columns-HasCleanCell = (
    λ p. address-AreClean p.src_addr.family _ _ refl,
    (
      λ p. number-AreClean _,
      (
        λ p. address-AreClean p.src_addr.family _ _ refl,
        (
          λ p. number-AreClean _,
          (
            λ p. number-AreClean _,
            (
              λ p. version_cell-AreClean p.src_addr.family,
              (ttl_cell-AreClean, (udp_sum_cell-AreClean, tt)),
            ),
          ),
        ),
      ),
    ),
  )

  pub header_columns-HasCleanCell : All HasCleanCell header_columns
  unfolding header_columns
  header_columns-HasCleanCell = (
    λ p. number-AreClean _,
    (
      λ p. number-AreClean _,
      (λ p. number-AreClean _, (λ p. number-AreClean _, (of_response-AreClean _, tt))),
    ),
  )

  pub flag_columns-HasCleanCell : All HasCleanCell flag_columns
  unfolding flag_columns
  flag_columns-HasCleanCell = (
    of_response-AreClean _,
    (
      of_response-AreClean _,
      (
        of_request-AreClean _,
        (
          of_response-AreClean _,
          (of_request-AreClean _, (of_response-AreClean _, (of_request-AreClean _, tt))),
        ),
      ),
    ),
  )

  pub name_columns-HasCleanCell : All HasCleanCell (name_columns lib)
  unfolding name_columns
  name_columns-HasCleanCell = (λ p. name_cell-AreClean p.knot_packet.qname _ refl, tt)

  pub count_columns-HasCleanCell : All HasCleanCell count_columns
  unfolding count_columns
  count_columns-HasCleanCell =
      (of_response-AreClean _, (of_response-AreClean _, (of_response-AreClean _, tt)))

  pub edns_columns-HasCleanCell : All HasCleanCell (edns_columns s)
  unfolding edns_columns
  edns_columns-HasCleanCell = (
    λ p. number_of-AreClean _ _,
    (
      λ p. number_of-AreClean _ _,
      (
        λ p. number_of-AreClean _ _,
        (
          λ p. number_of-AreClean _ _,
          (
            λ p. tt,
            (
              λ p. understood-AreClean 5 (opt_of (request_part p)),
              (
                λ p. understood-AreClean 6 (opt_of (request_part p)),
                (
                  λ p. understood-AreClean 7 (opt_of (request_part p)),
                  (
                    λ p. nsid-AreClean (opt_of (response_part p)),
                    (
                      λ p.
                          client_subnet-AreClean (opt_of (request_part p))
                            (opt_of (response_part p)),
                      (
                        λ p.
                            other_options-AreClean (opt_of (request_part p))
                              (opt_of (response_part p)),
                        tt,
                      ),
                    ),
                  ),
                ),
              ),
            ),
          ),
        ),
      ),
    ),
  )

  pub columns-HasCleanCell : All HasCleanCell (columns lib s)
  unfolding columns
  columns-HasCleanCell =
      All-append HasCleanCell _ (edns_columns s)
        (All-append HasCleanCell _ count_columns
          (All-append HasCleanCell _ (name_columns lib)
            (All-append HasCleanCell _ flag_columns
              (All-append HasCleanCell _ header_columns
                (All-append HasCleanCell _ (ip_columns lib)
                  (All-append HasCleanCell _ size_columns time_columns-HasCleanCell
                    size_columns-HasCleanCell)
                  ip_columns-HasCleanCell)
                header_columns-HasCleanCell)
              flag_columns-HasCleanCell)
            name_columns-HasCleanCell)
          count_columns-HasCleanCell)
        edns_columns-HasCleanCell

  -- a title is made of small letters, digits and underscores
  pub is_name : List ℕ → Bool
  is_name [] = true
  is_name (c ∷ cs) =
      (leb b'a' c && leb c b'z' || leb b'0' c && leb c b'9' || c == b'_') && is_name cs

  pub are_names : List Column → Bool
  are_names [] = true
  are_names (c ∷ cs) = is_name c.title && are_names cs

  pub columns-names : are_names (columns lib s) ≡ true
  unfolding are_names is_name columns time_columns size_columns ip_columns header_columns
      flag_columns name_columns count_columns edns_columns
  columns-names = refl

  pub is_name-plain : (title : List ℕ) → is_name title ≡ true → All (IsPlainChar s a) title
  unfolding is_name
  is_name-plain [] h = tt
  is_name-plain (c ∷ cs) h = (
    (
      ground (arith, h, a.no_letter, a.no_digit, a.no_underscore),
      ground (arith, h),
      (ground (arith, h), ground (arith, h)),
    ),
    is_name-plain cs (ground (arith, h)),
  )

  abbrev pub HasCleanTitle : Column → Type 0
  HasCleanTitle c = IsClean s c.title

  pub are_names-HasCleanTitle : (cs : List Column) → are_names cs ≡ true → All HasCleanTitle cs
  unfolding are_names
  are_names-HasCleanTitle [] h = tt
  are_names-HasCleanTitle (c ∷ cs) h = (
    IsClean-plain s a c.title (is_name-plain c.title (ground (arith, h))),
    are_names-HasCleanTitle cs (ground (arith, h)),
  )
