-- ===== src/Cbor/Written.antt =====
-- The records of `write_record`, and the CBOR output as an output of records.
use dns_collector.Prelude.{
  ℕ, ◌^◌, ◌≤◌, ◌<◌, ◌≡◌, ◌≢◌, refl, sym, ap, ap₂, ◌∙◌, true, not, Option, none, some, List,
  Bool-cases, inl, inr, length, add64, arith, >>=-some, is_some,
}
use dns_collector.Packet.{Packet, af_inet, af_inet6}
use dns_collector.Output.{Stream, Output}
use dns_collector.Output.Spec.{Layout, Writes, append_text, count_packet}
use dns_collector.Csv.{Library, has_flag}
use dns_collector.Csv.Columns.{request_part, response_part}
use dns_collector.Csv.Written.{fwrite_lem, count_missing_lem}
use dns_collector.Cbor.{Item, Encoder, items, bit, noitems, are_defined, outbuf_size}
use dns_collector.Cbor.Columns.{columns}
use dns_collector.Cbor.Hooks.{write_record, cbor_start_file, cbor_write_packet, cbor_format}
use dns_collector.Cbor.Count.{IsInternet, IsWritable, length-items-noitems, length-items-other}

-- What tinycbor says of its encoder: an array that is announced with the number of its items is
-- written if its bytes fit in the buffer; the check at its end fails for any other number.
pub record IsEncoder (encode : Encoder) (array_bytes : List Item → List ℕ) : Type 0 where
  pub writes :
      (size : ℕ) (xs : List Item)
      → length (array_bytes xs) ≤ size
      → encode size (length xs) xs ≡ some (array_bytes xs)
  pub miscounted : (size n : ℕ) (xs : List Item) → n ≢ length xs → encode size n xs ≡ none

module _ (lib : Library) (encode : Encoder) (array_bytes : List Item → List ℕ)
    (laws : IsEncoder encode array_bytes) (fields : ℕ) (known : fields < 2 ^ 23) where
  abbrev items_of : Option Packet → List Item
  items_of pkt = items fields (columns lib) pkt

  abbrev pub IsEncodable : Option Packet → Type 0
  IsEncodable pkt =
      (are_defined (items_of pkt) ≡ true) × (length (array_bytes (items_of pkt)) ≤ outbuf_size)

  -- For a selection among the 23 flags, the header or a packet over IPv4 or IPv6 whose items are
  -- defined and fit in 4096 bytes is written as the array of its items.
  pub write_record_lem :
      (pkt : Option Packet)
      → IsWritable pkt
      → IsEncodable pkt
      → write_record lib encode fields pkt ≡ some (array_bytes (items_of pkt))
  unfolding write_record
  write_record_lem pkt w (defined, fits) = rw defined (
      ap (λ n. encode outbuf_size n (items_of pkt))
        (sym (length-items-noitems lib fields pkt known w))
      ∙ laws.writes outbuf_size (items_of pkt) fits)

  -- A packet of another family ends the program if the field `net_ipv` is selected.
  pub write_record-other :
      (p : Packet)
      → has_flag fields 11 ≡ true
      → p.src_addr.family ≢ af_inet
      → p.src_addr.family ≢ af_inet6
      → write_record lib encode fields (some p) ≡ none
  unfolding write_record bit
  write_record-other p selected ne_4 ne_6 =
      let short = length-items-other lib fields p known ne_4 ne_6 in
      let one : bit fields 11 ≡ 1 = rw selected refl in
      let fails =
        laws.miscounted outbuf_size (noitems fields) (items_of (some p))
          (omega (arith, short, one)) in
      elim (Bool-cases (are_defined (items_of (some p)))) [ inl e ↦ rw e fails | inr e ↦ rw e refl ]

  -- the records of the output; a packet is accepted if its record can be encoded
  unfoldable pub cbor_layout : Layout
  cbor_layout = record {
    header = λ time. array_bytes (items_of none);
    line = λ p. array_bytes (items_of (some p));
    Accepts = λ p. IsInternet p × IsEncodable (some p);
    request_only = λ p. not (is_some (response_part p));
    response_only = λ p. not (is_some (request_part p));
  }

  cbor_write_packet_lem :
      {W : Type 0} (out : Output W) (p : Packet) (s : Stream)
      → out.out_file ≡ some s
      → cbor_layout.Accepts p
      → cbor_write_packet lib encode fields out p
        ≡ some (count_packet cbor_layout (append_text out s (cbor_layout.line p)) p)
  unfolding cbor_write_packet cbor_layout count_packet append_text
  cbor_write_packet_lem out p s e (internet, encodable) =
      >>=-some (write_record_lem (some p) internet encodable) _
      ∙ >>=-some (fwrite_lem out s (array_bytes (items_of (some p))) e) _
      ∙ ap₂
          (λ a b. some (record (append_text out s (array_bytes (items_of (some p)))) {
            current_items = add64 out.current_items 1;
            current_request_only = a;
            current_response_only = b;
          }))
          (count_missing_lem (response_part p) out.current_request_only)
          (count_missing_lem (request_part p) out.current_response_only)

  cbor_start_file_lem :
      {W : Type 0} (fits : IsEncodable none) (out : Output W) (time : ℕ) (s : Stream)
      → out.out_file ≡ some s
      → out.current_bytes < 2 ^ 64
      → (w : W) × (cbor_start_file lib encode fields out time
          ≡ some (record (append_text out s (cbor_layout.header time)) { world = w }))
  unfolding cbor_start_file cbor_layout append_text
  cbor_start_file_lem fits out time s e small = (
    out.world,
    >>=-some e _
        ∙ >>=-some (write_record_lem none tt fits) _
        ∙ fwrite_lem out s (array_bytes (items_of none)) e,
  )

  -- If the header fits in 4096 bytes, the hooks of the CBOR output write the header and the record of
  -- each packet over IPv4 or IPv6 that fits, and add the number of the bytes they write, those of
  -- the header included, to `current_bytes`.
  pub cbor_format-Writes :
      {W : Type 0} → IsEncodable none → Writes {W = W} (cbor_format lib encode fields) cbor_layout
  unfolding cbor_format
  cbor_format-Writes fits = record {
    starts = cbor_start_file_lem fits;
    writes = cbor_write_packet_lem;
  }
