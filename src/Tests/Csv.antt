-- ===== src/Tests/Csv.antt =====
-- Lines of the CSV output for a request with a response, and for a request with a long option.
use dns_collector.Prelude.{
  ℕ, ◌+◌, ◌^◌, ◌≤◌, ◌≡◌, refl, Bool, true, false, ◌&&◌, none, some, List, [], ◌∷◌, ◌++◌, ltb,
  length, replicate, take, drop, All, arith, inl, ap, subst, ◌∙◌, ◌-◌,
}
use dns_collector.Packet.{Packet, OptRecord}
use dns_collector.Print.{codes, decimal, six_digits}
use dns_collector.Escape.{newline}
use dns_collector.Escape.Lines.{NoBreak}
use dns_collector.Csv.{
  Library, Piece, separator_piece, uninitialised, text_piece, escape_piece, selected, pieces,
  outbuf_size,
}
use dns_collector.Csv.Columns.{
  columns, time_columns, size_columns, ip_columns, header_columns, flag_columns, name_columns,
  count_columns, edns_columns,
}
use dns_collector.Csv.Hooks.{write_packet}
use dns_collector.Csv.Fits.{IsDefined, full_text}
use dns_collector.Csv.Written.{row, write_packet-full_text, write_packet_overflows}
use dns_collector.Csv.Clean.{IsAllowed, IsClean, IsCleanLibrary, separators}
use dns_collector.Csv.Fields.{write_packet-separators}
use dns_collector.Tests.Packets.{request, response}

-- a library that prints the same address and the same name each time
abbrev pub libs : Library
libs = record {
  isgraph = λ c. ltb 32 c && ltb c 127;
  inet_ntop = λ family memory. some (codes "192.0.2.1");
  dname_to_str = λ name size. some (codes "cz");
}

-- time, client_addr, net_ttl, and qname
abbrev pub some_fields : ℕ
some_fields = 1 + 64 + 4096 + 2 ^ 20

abbrev pub pair : Packet
pair = record request { response = some response.body }

is_defined : Piece → Bool
is_defined separator_piece = true
is_defined uninitialised = false
is_defined (text_piece s) = true
is_defined (escape_piece bytes) = true

all_defined : List Piece → Bool
unfolding is_defined
all_defined [] = true
all_defined (x ∷ xs) = is_defined x && all_defined xs

all_defined-IsDefined : (xs : List Piece) → all_defined xs ≡ true → All IsDefined xs
unfolding all_defined
all_defined-IsDefined [] h = tt
all_defined-IsDefined (separator_piece ∷ xs) h = (tt, all_defined-IsDefined xs h)
all_defined-IsDefined (uninitialised ∷ xs) h = absurd cc
all_defined-IsDefined (text_piece s ∷ xs) h = (tt, all_defined-IsDefined xs h)
all_defined-IsDefined (escape_piece bytes ∷ xs) h = (tt, all_defined-IsDefined xs h)

pub pair-IsDefined : All IsDefined (row libs some_fields b',' (some pair))
unfolding columns time_columns size_columns ip_columns header_columns flag_columns name_columns
    count_columns edns_columns selected pieces all_defined
pair-IsDefined = all_defined-IsDefined (row libs some_fields b',' (some pair)) refl

abbrev pair_text : List ℕ
pair_text = codes "0.005000,192.0.2.1,64,cz"

pair-full_text : full_text libs b',' (row libs some_fields b',' (some pair)) ≡ pair_text
unfolding columns time_columns size_columns ip_columns header_columns flag_columns name_columns
    count_columns edns_columns selected pieces full_text decimal six_digits
pair-full_text = refl

pub pair_fits :
    length (full_text libs b',' (row libs some_fields b',' (some pair))) ≤ outbuf_size - 2
pair_fits = rw pair-full_text (omega arith)

write_packet-full_text_example :
    write_packet libs some_fields b',' (some pair)
    ≡ some (full_text libs b',' (row libs some_fields b',' (some pair)) ++ newline ∷ [])
write_packet-full_text_example =
    write_packet-full_text libs some_fields b',' (some pair) pair-IsDefined pair_fits

write_packet-pair :
    write_packet libs some_fields b',' (some pair) ≡ some (pair_text ++ newline ∷ [])
write_packet-pair =
    write_packet-full_text libs some_fields b',' (some pair) pair-IsDefined pair_fits
    ∙ ap (λ t. some (t ++ newline ∷ [])) pair-full_text

comma-IsAllowed : IsAllowed b','
comma-IsAllowed = record {
  ascii = omega arith;
  no_digit = inl (omega arith);
  no_capital = inl (omega arith);
  no_letter = inl (omega arith);
  no_dot = omega arith;
  no_minus = omega arith;
  no_underscore = omega arith;
  no_hash = omega arith;
  no_slash = omega arith;
  no_backslash = omega arith;
  no_newline = omega arith;
  no_nul = omega arith;
}

libs-IsCleanLibrary : IsCleanLibrary libs b','
unfolding separators
libs-IsCleanLibrary = record {
  addresses = λ family memory text e.
      let same : codes "192.0.2.1" ≡ text = cc in
      subst (IsClean b',') same ((λ rest. refl), ground arith);
  names = λ name size text e.
      let same : codes "cz" ≡ text = cc in subst (IsClean b',') same ((λ rest. refl), ground arith);
}

write_packet-separators_example :
    (text : List ℕ) × (write_packet libs some_fields b',' (some pair) ≡ some (text ++ newline ∷ []))
    × (separators b',' false text ≡ length (selected some_fields (columns libs b',')) - 1)
    × All NoBreak text
write_packet-separators_example =
    write_packet-separators libs b',' comma-IsAllowed libs-IsCleanLibrary some_fields (some pair)
      pair-IsDefined pair_fits

-- a request with an option of 600 bytes for the algorithms that it understands
abbrev long_option : OptRecord
long_option = record {
  version = 0;
  payload = 512;
  dnssec_ok = 1;
  ext_rcode = 0;
  option = λ n. some (600, replicate 1300 200);
}

abbrev long_request : Packet
long_request = record request {
  body = record request.body {
    knot_packet = record request.knot_packet { opt_rr = some long_option };
  };
}

abbrev edns : ℕ
edns = 2 ^ 22

abbrev long_row : List Piece
long_row = row libs edns b';' (some long_request)

long_row-split :
    long_row
    ≡ take 1026 long_row ++ text_piece (codes "200") ∷ text_piece (codes ",") ∷ drop 1028 long_row
unfolding columns time_columns size_columns ip_columns header_columns flag_columns name_columns
    count_columns edns_columns selected pieces decimal
long_row-split = refl

long_row-IsDefined : All IsDefined (take 1026 long_row)
unfolding columns time_columns size_columns ip_columns header_columns flag_columns name_columns
    count_columns edns_columns selected pieces all_defined
long_row-IsDefined = all_defined-IsDefined (take 1026 long_row) refl

length-long_row : length (full_text libs b';' (take 1026 long_row)) ≡ 2046
unfolding columns time_columns size_columns ip_columns header_columns flag_columns name_columns
    count_columns edns_columns selected pieces decimal full_text
length-long_row = refl

-- the line of the request is written out of bounds
write_packet_overflows_example : write_packet libs edns b';' (some long_request) ≡ none
write_packet_overflows_example =
    write_packet_overflows libs edns b';' (some long_request) (take 1026 long_row)
      (drop 1028 long_row) (codes "200") (text_piece (codes ",")) long_row-split long_row-IsDefined
      (omega (arith, length-long_row)) (omega (arith, length-long_row))
