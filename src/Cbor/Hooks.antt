-- ===== src/Cbor/Hooks.antt =====
-- The hooks of the CBOR output.
use dns_collector.Prelude.{ℕ, Option, none, some, List, if◌then◌else◌, add64, ◌>>=◌}
use dns_collector.Packet.{Packet}
use dns_collector.Output.{Output, Format}
use dns_collector.Csv.{Library}
use dns_collector.Csv.Columns.{request_part, response_part}
use dns_collector.Csv.Hooks.{fwrite, count_missing}
use dns_collector.Cbor.{Encoder, items, noitems, are_defined, outbuf_size}
use dns_collector.Cbor.Columns.{columns}

module _ (lib : Library) (encode : Encoder) (fields : ℕ) where
  -- `write_packet`: the bytes that it writes, for a packet or the header
  unfoldable pub write_record : Option Packet → Option (List ℕ)
  unfolding columns items noitems are_defined
  write_record pkt =
      let xs = items fields (columns lib) pkt in
      if are_defined xs then encode outbuf_size (noitems fields) xs else none

  -- `dns_output_cbor_start_file`
  unfoldable pub cbor_start_file : {W : Type 0} → Output W → ℕ → Option (Output W)
  unfolding write_record fwrite
  cbor_start_file out time = do stream ← out.out_file; bytes ← write_record none; fwrite out bytes

  -- `dns_output_cbor_write_packet`
  unfoldable pub cbor_write_packet : {W : Type 0} → Output W → Packet → Option (Output W)
  unfolding write_record fwrite count_missing request_part response_part
  cbor_write_packet out p = do
    bytes ← write_record (some p)
    out' ← fwrite out bytes
    some (record out' {
      current_items = add64 out'.current_items 1;
      current_request_only = count_missing (response_part p) out'.current_request_only;
      current_response_only = count_missing (request_part p) out'.current_response_only;
    })

  -- the hooks of `dns_output_cbor_create`
  unfoldable pub cbor_format : {W : Type 0} → Format W
  unfolding cbor_start_file cbor_write_packet
  cbor_format = record { start_file = cbor_start_file; write_packet = cbor_write_packet }
