-- ===== src/Csv/Written.antt =====
-- The lines of `write_packet`, and the CSV output as an output of lines.
use dns_collector.Prelude.{
  ℕ, suc, ◌+◌, ◌-◌, ◌^◌, ◌≤◌, ◌<◌, ◌≡◌, refl, sym, ap, ap₂, ◌∙◌, false, Option, none, some, List,
  [], ◌∷◌, ◌++◌, append-nil, if◌then◌else◌, Bool-cases, inl, inr, length, length-append, All, arith,
  ◌>>=◌, >>=-some, is_some, not, ◌==◌, add64,
}
use dns_collector.Packet.{Packet}
use dns_collector.Clock.{time_strftime}
use dns_collector.Escape.{newline}
use dns_collector.Output.{System, Stream, Output, filename_extra}
use dns_collector.Output.Spec.{Layout, Writes, append_text, count_packet, counted}
use dns_collector.Csv.{
  Library, Piece, text_piece, Column, outbuf_size, finish_line, pieces, selected, content,
  more_pieces, run, has_flag,
}
use dns_collector.Csv.Columns.{
  columns, request_part, response_part, time_columns, size_columns, ip_columns, header_columns,
  flag_columns, name_columns, count_columns, edns_columns,
}
use dns_collector.Csv.Hooks.{
  Options, write_packet, fwrite, count_missing, csv_write_packet, external_header, csv_start_file,
  csv_format,
}
use dns_collector.Csv.Fits.{
  IsDefined, text_of, full_text, line-full_text, line_bound, line_overflows,
}

module _ (lib : Library) (fields separator : ℕ) where
  -- the writes for a packet or the header
  abbrev pub row : Option Packet → List Piece
  row pkt = pieces (selected fields (columns lib separator)) pkt

  -- If everything that the fields print, escape and separate is defined and has at most 2046 bytes,
  -- then the line is all of it, field after field, and a newline.
  pub write_packet-full_text :
      (pkt : Option Packet)
      → All IsDefined (row pkt)
      → length (full_text lib separator (row pkt)) ≤ outbuf_size - 2
      → write_packet lib fields separator pkt
        ≡ some (full_text lib separator (row pkt) ++ newline ∷ [])
  unfolding write_packet
  write_packet-full_text pkt d h = line-full_text lib separator (row pkt) d h

  -- A line that is written, of whatever length, has at most 2047 bytes, and the last one is a
  -- newline.
  pub write_packet_bound :
      (pkt : Option Packet) (line : List ℕ)
      → write_packet lib fields separator pkt ≡ some line
      → (text : List ℕ) × (line ≡ text ++ newline ∷ []) × (length line < outbuf_size)
  unfolding write_packet
  write_packet_bound pkt line h = line_bound lib separator (row pkt) line h

  -- Where a text that ends behind the buffer is followed by one more write, as it is by the separator
  -- of any field to come, that write is out of bounds, so there is no line.
  pub write_packet_overflows :
      (pkt : Option Packet) (xs ys : List Piece) (s : List ℕ) (y : Piece)
      → row pkt ≡ xs ++ text_piece s ∷ y ∷ ys
      → All IsDefined xs
      → length (full_text lib separator xs) < outbuf_size
      → outbuf_size < length (full_text lib separator xs) + length s
      → write_packet lib fields separator pkt ≡ none
  unfolding write_packet
  write_packet_overflows pkt xs ys s y e d h over =
      ap (λ r. run lib separator r (record { text = []; pos = 0 }) >>= λ l. some (finish_line l)) e
      ∙ line_overflows lib separator xs ys s y d h over

  -- the size of a header with all the columns
  titles : List Column → ℕ
  titles [] = 0
  titles (c ∷ cs) = suc (length c.title + titles cs)

  more_pieces-IsDefined : (cs : List Column) → All IsDefined (more_pieces cs none)
  unfolding more_pieces content
  more_pieces-IsDefined [] = tt
  more_pieces-IsDefined (c ∷ cs) = (tt, (tt, more_pieces-IsDefined cs))

  pieces-IsDefined : (cs : List Column) → All IsDefined (pieces cs none)
  unfolding pieces content
  pieces-IsDefined [] = tt
  pieces-IsDefined (c ∷ cs) = (tt, more_pieces-IsDefined cs)

  more_pieces-titles :
      (cs : List Column) → length (full_text lib separator (more_pieces cs none)) ≡ titles cs
  unfolding more_pieces content full_text text_of titles
  more_pieces-titles [] = refl
  more_pieces-titles (c ∷ cs) = omega (
    arith,
    length-append c.title (full_text lib separator (more_pieces cs none)),
    more_pieces-titles cs,
  )

  pieces-titles : (cs : List Column) → length (full_text lib separator (pieces cs none)) ≤ titles cs
  unfolding pieces content full_text text_of titles
  pieces-titles [] = omega arith
  pieces-titles (c ∷ cs) = omega (
    arith,
    length-append c.title (full_text lib separator (more_pieces cs none)),
    more_pieces-titles cs,
  )

  titles-selected : (cs : List Column) → titles (selected fields cs) ≤ titles cs
  unfolding selected titles
  titles-selected [] = omega arith
  titles-selected (c ∷ cs) = elim (Bool-cases (has_flag fields c.flag)) [
    | inl e ↦ rw e (omega (arith, titles-selected cs))
    | inr e ↦ rw e (omega (arith, titles-selected cs))
  ]

  titles-columns : titles (columns lib separator) ≡ 428
  unfolding columns titles time_columns size_columns ip_columns header_columns flag_columns
      name_columns count_columns edns_columns
  titles-columns = refl

  abbrev title_line : List ℕ
  title_line = full_text lib separator (row none) ++ newline ∷ []

  -- The header always fits.
  write_packet-header : write_packet lib fields separator none ≡ some title_line
  write_packet-header =
      let cs = selected fields (columns lib separator) in
      write_packet-full_text none (pieces-IsDefined cs)
        (omega (arith, pieces-titles cs, titles-selected (columns lib separator), titles-columns))

pub fwrite_lem :
    {W : Type 0} (out : Output W) (s : Stream) (bytes : List ℕ)
    → out.out_file ≡ some s
    → fwrite out bytes ≡ some (append_text out s bytes)
unfolding fwrite append_text
fwrite_lem out s bytes e = >>=-some e _

pub count_missing_lem :
    {A : Type 0} (part : Option A) (n : ℕ) → count_missing part n ≡ counted (not (is_some part)) n
unfolding count_missing counted
count_missing_lem none n = refl
count_missing_lem (some a) n = refl

module _ {W : Type 0} (S : System W) (write_file : W → List ℕ → List ℕ → Option W) (lib : Library)
    (o : Options) where
  abbrev text_row : Option Packet → List ℕ
  text_row pkt = full_text lib o.separator (row lib o.csv_fields o.separator pkt) ++ newline ∷ []

  -- the lines of the output; a packet is accepted if its line fits
  unfoldable pub csv_layout : Layout
  csv_layout = record {
    header = λ time. if o.inline_header then text_row none else [];
    line = λ p. text_row (some p);
    Accepts = λ p.
        All IsDefined (row lib o.csv_fields o.separator (some p))
        × (length (full_text lib o.separator (row lib o.csv_fields o.separator (some p)))
            ≤ outbuf_size - 2);
    request_only = λ p. not (is_some (response_part p));
    response_only = λ p. not (is_some (request_part p));
  }

  -- The header file can be written: its name has an expansion that fits, and it can be opened.
  pub record HasHeaderFile : Type 0 where
    pub expands :
        (time : ℕ)
        → 0 < length o.external_header_path_fmt
        → 0
          < length (
              time_strftime S.strftime
                (length o.external_header_path_fmt + filename_extra)
                o.external_header_path_fmt
                time)
    pub opens : (w : W) (name text : List ℕ) → (w' : W) × (write_file w name text ≡ some w')

  csv_write_packet_lem :
      (out : Output W) (p : Packet) (s : Stream)
      → out.out_file ≡ some s
      → csv_layout.Accepts p
      → csv_write_packet lib o out p
        ≡ some (count_packet csv_layout (append_text out s (csv_layout.line p)) p)
  unfolding csv_write_packet csv_layout count_packet append_text
  csv_write_packet_lem out p s e (d, fits) =
      >>=-some (write_packet-full_text lib o.csv_fields o.separator (some p) d fits) _
      ∙ >>=-some (fwrite_lem out s (text_row (some p)) e) _
      ∙ ap₂
          (λ a b. some (record (append_text out s (text_row (some p))) {
            current_items = add64 out.current_items 1;
            current_request_only = a;
            current_response_only = b;
          }))
          (count_missing_lem (response_part p) out.current_request_only)
          (count_missing_lem (request_part p) out.current_response_only)

  external_header_lem :
      (h : HasHeaderFile) (out : Output W) (time : ℕ)
      → 0 < length o.external_header_path_fmt
      → (w : W) × (external_header S write_file lib o out time ≡ some (record out { world = w }))
  unfolding external_header
  external_header_lem h out time given =
      let name =
        time_strftime S.strftime (length o.external_header_path_fmt + filename_extra)
          o.external_header_path_fmt time in
      let (w, opened) = h.opens out.world name (text_row none) in
      let expanded : (length name == 0) ≡ false = ground (arith, h.expands time given) in
      (
        w,
        rw expanded
            (>>=-some (write_packet-header lib o.csv_fields o.separator) _ ∙ >>=-some opened _),
      )

  -- the header line, if there is one in the file
  inline_lem :
      (out : Output W) (time : ℕ) (s : Stream)
      → out.out_file ≡ some s
      → out.current_bytes < 2 ^ 64
      → (if o.inline_header
          then (write_packet lib o.csv_fields o.separator none >>= λ line. fwrite out line)
          else some out)
        ≡ some (append_text out s (csv_layout.header time))
  unfolding csv_layout append_text
  inline_lem out time s e small = elim (Bool-cases o.inline_header) [
    | inl on ↦ rw on (
        >>=-some (write_packet-header lib o.csv_fields o.separator) (λ line. fwrite out line)
        ∙ fwrite_lem out s (text_row none) e)
    | inr off ↦
        let same : out.current_bytes ≡ add64 out.current_bytes 0 = omega (arith, small) in
        rw off (
          ap₂ (λ f n. some (record out { out_file = f; current_bytes = n }))
            (e ∙ ap (λ t. some (record s { text = t })) (sym (append-nil s.text))) same)
  ]

  csv_start_file_lem :
      (h : HasHeaderFile) (out : Output W) (time : ℕ) (s : Stream)
      → out.out_file ≡ some s
      → out.current_bytes < 2 ^ 64
      → (w : W) × (csv_start_file S write_file lib o out time
          ≡ some (record (append_text out s (csv_layout.header time)) { world = w }))
  unfolding csv_start_file append_text
  csv_start_file_lem h out time s e small =
      let inline = inline_lem out time s e small in
      let out' : Output W = append_text out s (csv_layout.header time) in
      let front = >>=-some e _ ∙ >>=-some inline _ in
      elim (Bool-cases (length o.external_header_path_fmt == 0)) [
        | inl without ↦ (out.world, front ∙ rw without refl)
        | inr given ↦
            let (w, ran) = external_header_lem h out' time (ground (arith, given)) in
            (w, front ∙ rw given ran)
      ]

  -- If the header file can be written, the hooks of the CSV output write the header, unless it is
  -- turned off, and the line of each packet that fits, and add the number of the bytes they write,
  -- those of the header line included, to `current_bytes`.
  pub csv_format-Writes : HasHeaderFile → Writes (csv_format S write_file lib o) csv_layout
  unfolding csv_format
  csv_format-Writes h = record { starts = csv_start_file_lem h; writes = csv_write_packet_lem }
