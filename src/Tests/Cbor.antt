-- ===== src/Tests/Cbor.antt =====
-- The CBOR output with an encoder that gives one byte to each item.
use dns_collector.Prelude.{
  ℕ, ◌^◌, ◌≡◌, refl, some, none, List, ◌==◌, leb, if◌then◌else◌, length, map, inl, arith, ◌-◌,
}
use dns_collector.Packet.{Packet}
use dns_collector.Csv.{has_flag}
use dns_collector.Output.Spec.{Writes}
use dns_collector.Cbor.{Item, Encoder, items, noitems, are_defined}
use dns_collector.Cbor.Columns.{
  columns, time_columns, size_columns, ip_columns, header_columns, flag_columns, name_columns,
  count_columns, edns_columns,
}
use dns_collector.Cbor.Hooks.{write_record, cbor_format}
use dns_collector.Cbor.Count.{length-items-noitems}
use dns_collector.Cbor.Written.{IsEncoder, write_record-other, cbor_layout, cbor_format-Writes}
use dns_collector.Tests.Csv.{libs, pair}

abbrev one_byte : List Item → List ℕ
one_byte xs = map (λ x. 0) xs

abbrev encode : Encoder
encode size n xs =
    if n == length xs
    then if leb (length (one_byte xs)) size then some (one_byte xs) else none
    else none

encode-IsEncoder : IsEncoder encode one_byte
encode-IsEncoder = record {
  writes = λ size xs fits. ground (arith, fits);
  miscounted = λ size n xs ne. ground (arith, ne);
}

abbrev all_fields : ℕ
all_fields = 2 ^ 23 - 1

length-items-noitems_example :
    length (items all_fields (columns libs) (some pair)) ≡ noitems all_fields
length-items-noitems_example =
    length-items-noitems libs all_fields (some pair) (omega arith) (inl refl)

noitems-all_fields : noitems all_fields ≡ 40
unfolding noitems
noitems-all_fields = refl

abbrev foreign : Packet
foreign = record pair { body = record pair.body { src_addr = record pair.src_addr { family = 1 } } }

write_record-other_example : write_record libs encode all_fields (some foreign) ≡ none
unfolding has_flag
write_record-other_example =
    write_record-other libs encode one_byte encode-IsEncoder all_fields (omega arith) foreign refl
      (omega arith) (omega arith)

cbor_format-Writes_example :
    Writes {W = ℕ}
      (cbor_format libs encode all_fields)
      (cbor_layout libs encode one_byte encode-IsEncoder all_fields (omega arith))
unfolding items has_flag are_defined columns time_columns size_columns ip_columns header_columns
    flag_columns name_columns count_columns edns_columns
cbor_format-Writes_example =
    cbor_format-Writes libs encode one_byte encode-IsEncoder all_fields (omega arith)
      (refl, omega arith)
