-- ===== src/Csv.antt =====
-- src/output_csv.c: lines of fields. `write_packet` makes a sequence of writes to a buffer of 2048
-- bytes, `outbuf`, and checks for an overflow only at the end. A write that begins behind the buffer
-- has a negative space, which is a huge `size_t`, and leaves the buffer: it is a fault, `none`.
pub mod Columns
pub mod Fits
pub mod Hooks
pub mod Written
pub mod Clean
pub mod Cells
pub mod Fields
use dns_collector.Prelude.{
  ℕ, ◌+◌, ◌-◌, ◌*◌, ◌/◌, ◌%◌, ◌^◌, Bool, true, false, not, Option, none, some, List, [], ◌∷◌, ◌++◌,
  ◌==◌, ltb, leb, if◌then◌else◌, length, take, add64, ◌>>=◌,
}
use dns_collector.Packet.{Packet, PacketData}
use dns_collector.Clock.{time_strftime}
use dns_collector.Escape.{snescape, newline}
use dns_collector.Output.{System, Stream, Output, Format, filename_extra}

abbrev pub outbuf_size : ℕ
outbuf_size = 2048

-- What the code uses of other libraries: `isgraph`; `inet_ntop`, by the family and the memory from
-- the address on, where nothing is a failure; `knot_dname_to_str` for a name and the size of its
-- buffer.
pub record Library : Type 0 where
  pub isgraph : ℕ → Bool
  pub inet_ntop : ℕ → List ℕ → Option (List ℕ)
  pub dname_to_str : List ℕ → ℕ → Option (List ℕ)

-- One step of `write_packet`: a separator, `snprintf` of a text, `dns_snescape` of bytes, and the use
-- of `addrbuf` where nothing was written to it.
pub data Piece : Type 0 where
  separator_piece uninitialised : Piece
  text_piece escape_piece : List ℕ → Piece

-- `outbuf` up to the position `p`, cut at the end of the buffer, and `p`
pub record Line : Type 0 where
  pub text : List ℕ
  pub pos : ℕ

-- what `snprintf(p, outbuf + sizeof(outbuf) - p, ...)` does: a text that does not fit is cut, and has
-- a '\0' at the end; the position moves by its length anyway
unfoldable pub print : Line → List ℕ → Option Line
print l s =
    if ltb outbuf_size l.pos
    then none
    else if ltb (l.pos + length s) outbuf_size
    then some (record { text = l.text ++ s; pos = l.pos + length s })
    else if l.pos == outbuf_size
    then some (record { text = l.text; pos = l.pos + length s })
    else some (record {
      text = l.text ++ take (outbuf_size - l.pos - 1) s ++ 0 ∷ [];
      pos = l.pos + length s;
    })

-- `*(p++) = separator`
unfoldable pub put_separator : Line → ℕ → Option Line
put_separator l separator =
    if ltb l.pos outbuf_size
    then some (record { text = l.text ++ separator ∷ []; pos = l.pos + 1 })
    else none

-- the separator as the `int` that `dns_snescape` gets from a signed `char`
unfoldable pub separator_int : ℕ → Option ℕ
separator_int separator = if ltb separator 128 then some separator else none

module _ (lib : Library) (separator : ℕ) where
  -- `p += dns_snescape(p, ...)`
  unfoldable pub print_escaped : Line → List ℕ → Option Line
  unfolding separator_int
  print_escaped l bytes =
      let s = snescape lib.isgraph (outbuf_size - l.pos) (separator_int separator) bytes in
      if ltb outbuf_size l.pos
      then none
      else some (record { text = l.text ++ s; pos = l.pos + length s })

  unfoldable pub step : Line → Piece → Option Line
  unfolding print put_separator print_escaped
  step l separator_piece = put_separator l separator
  step l (text_piece s) = print l s
  step l (escape_piece bytes) = print_escaped l bytes
  step l uninitialised = none

  unfoldable pub run : List Piece → Line → Option Line
  unfolding step
  run [] l = some l
  run (x ∷ xs) l = step l x >>= λ l'. run xs l'

-- the end of the line: step back where the buffer is full; the '\0' is not written to the file
unfoldable pub finish_line : Line → List ℕ
finish_line l = take (outbuf_size - 2) l.text ++ newline ∷ []

-- a field: the number of its flag, its name, and the writes between `COND` and `COND_END`
pub record Column : Type 0 where
  pub flag : ℕ
  pub title : List ℕ
  pub cell : Packet → List Piece

-- `fields & (1 << flag)`
unfoldable pub has_flag : ℕ → ℕ → Bool
has_flag fields flag = fields / 2 ^ flag % 2 == 1

unfoldable pub selected : ℕ → List Column → List Column
unfolding has_flag
selected fields [] = []
selected fields (c ∷ cs) =
    if has_flag fields c.flag then c ∷ selected fields cs else selected fields cs

-- what stands between `COND` and `COND_END`, or the name of the field for the header
unfoldable pub content : Option Packet → Column → List Piece
content none c = text_piece c.title ∷ []
content (some p) c = c.cell p

unfoldable pub more_pieces : List Column → Option Packet → List Piece
unfolding content
more_pieces [] pkt = []
more_pieces (c ∷ cs) pkt = separator_piece ∷ content pkt c ++ more_pieces cs pkt

-- the fields that are selected, with a separator in front of all but the first
unfoldable pub pieces : List Column → Option Packet → List Piece
unfolding more_pieces
pieces [] pkt = []
pieces (c ∷ cs) pkt = content pkt c ++ more_pieces cs pkt
