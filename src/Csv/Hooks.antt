-- ===== src/Csv/Hooks.antt =====
-- The hooks of the CSV output, on the lines of its configuration.
use dns_collector.Prelude.{
  ℕ, ◌+◌, Bool, Option, none, some, List, [], ◌++◌, ◌==◌, if◌then◌else◌, length, add64, ◌>>=◌,
  is_some,
}
use dns_collector.Packet.{Packet}
use dns_collector.Clock.{time_strftime}
use dns_collector.Output.{System, Output, Format, filename_extra}
use dns_collector.Csv.{Library, Line, run, finish_line, selected, pieces}
use dns_collector.Csv.Columns.{columns, request_part, response_part}

-- the fields of `struct dns_output_csv`; the separator is the character of the configuration
pub record Options : Type 0 where
  pub separator : ℕ
  pub inline_header : Bool
  pub external_header_path_fmt : List ℕ
  pub csv_fields : ℕ

-- `write_packet`: the line that it writes, for a packet or the header
unfoldable pub write_packet : Library → ℕ → ℕ → Option Packet → Option (List ℕ)
unfolding columns selected pieces run finish_line
write_packet lib fields separator pkt = do
  let start : Line = record { text = []; pos = 0 }
  l ← run lib separator (pieces (selected fields (columns lib separator)) pkt) start
  some (finish_line l)

-- `fwrite` to the output's file, and the count of its bytes
unfoldable pub fwrite : {W : Type 0} → Output W → List ℕ → Option (Output W)
fwrite out bytes = out.out_file >>= λ s. some (record out {
  out_file = some (record s { text = s.text ++ bytes });
  current_bytes = add64 out.current_bytes (length bytes);
})

-- `++`, if there is no such part
unfoldable pub count_missing : {A : Type 0} → Option A → ℕ → ℕ
count_missing part n = if is_some part then n else add64 n 1

-- `dns_output_csv_write_packet`
unfoldable pub csv_write_packet :
    {W : Type 0} → Library → Options → Output W → Packet → Option (Output W)
unfolding write_packet fwrite count_missing request_part response_part
csv_write_packet lib o out p = do
  line ← write_packet lib o.csv_fields o.separator (some p)
  out' ← fwrite out line
  some (record out' {
    current_items = add64 out'.current_items 1;
    current_request_only = count_missing (response_part p) out'.current_request_only;
    current_response_only = count_missing (request_part p) out'.current_response_only;
  })

-- `write_file` opens a file with a name, writes a text to it and closes it.
module _ {W : Type 0} (S : System W) (write_file : W → List ℕ → List ℕ → Option W) (lib : Library)
    (o : Options) where
  -- the header file
  unfoldable pub external_header : Output W → ℕ → Option (Output W)
  unfolding write_packet
  external_header out time =
      let name =
        time_strftime S.strftime (length o.external_header_path_fmt + filename_extra)
          o.external_header_path_fmt time in
      let write = (do
        line ← write_packet lib o.csv_fields o.separator none
        w ← write_file out.world name line
        some (record out { world = w })) in
      if length name == 0 then none else write

  -- `dns_output_csv_start_file`
  unfoldable pub csv_start_file : Output W → ℕ → Option (Output W)
  unfolding fwrite external_header
  csv_start_file out time = do
    stream ← out.out_file
    out' ←
        (if o.inline_header
          then (write_packet lib o.csv_fields o.separator none >>= λ line. fwrite out line)
          else some out)
    if length o.external_header_path_fmt == 0 then some out' else external_header out' time

  -- the hooks of `dns_output_csv_create`
  unfoldable pub csv_format : Format W
  unfolding csv_start_file csv_write_packet
  csv_format = record { start_file = csv_start_file; write_packet = csv_write_packet lib o }
