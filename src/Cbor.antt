-- ===== src/Cbor.antt =====
-- src/output_cbor.c: a packet, or the header, as one array of items. The encoder of tinycbor is an
-- argument; any error of it ends the program, `none` here.
pub mod Columns
pub mod Hooks
pub mod Count
pub mod Written
use dns_collector.Prelude.{
  ℕ, zero, suc, ◌+◌, Bool, true, false, ◌&&◌, Option, none, some, List, [], ◌∷◌, ◌++◌,
  if◌then◌else◌, length,
}
use dns_collector.Packet.{Packet}
use dns_collector.Csv.{has_flag}

-- What the encoder is given: an integer as a 64-bit word, a time in microseconds as a `double` of
-- seconds, the other values, and an array of integers. `uninitialised` is the text in `addrbuf` where
-- nothing was written to it, or a byte behind the packet.
pub data Item : Type 0 where
  null_item uninitialised : Item
  int_item seconds_item : ℕ → Item
  boolean_item : Bool → Item
  text_item bytes_item ints_item : List ℕ → Item

-- a field: the number of its flag, its name, and the items between `CONDIF` and `COND_END`
pub record Column : Type 0 where
  pub flag : ℕ
  pub title : List ℕ
  pub items : Packet → List Item

-- the item of a field, or its name for the header
unfoldable pub column_items : Option Packet → Column → List Item
column_items none c = text_item c.title ∷ []
column_items (some p) c = c.items p

-- the items of all fields that are selected
unfoldable pub items : ℕ → List Column → Option Packet → List Item
unfolding has_flag column_items
items fields [] pkt = []
items fields (c ∷ cs) pkt =
    let rest = items fields cs pkt in
    if has_flag fields c.flag then column_items pkt c ++ rest else rest

unfoldable pub bit : ℕ → ℕ → ℕ
unfolding has_flag
bit fields flag = if has_flag fields flag then 1 else 0

-- `__builtin_popcount` of the lowest bits
unfoldable pub popcount : ℕ → ℕ → ℕ
unfolding bit
popcount zero fields = 0
popcount (suc n) fields = popcount n fields + bit fields n

-- the length that the array is announced with
unfoldable pub noitems : ℕ → ℕ
unfolding popcount
noitems fields =
    popcount 32 fields
    + (if has_flag fields 19 then 6 else 0)
    + (if has_flag fields 21 then 2 else 0)
    + (if has_flag fields 22 then 9 else 0)

unfoldable pub is_defined : Item → Bool
is_defined uninitialised = false
is_defined null_item = true
is_defined (int_item n) = true
is_defined (seconds_item t) = true
is_defined (boolean_item b) = true
is_defined (text_item s) = true
is_defined (bytes_item s) = true
is_defined (ints_item ns) = true

unfoldable pub are_defined : List Item → Bool
unfolding is_defined
are_defined [] = true
are_defined (x ∷ xs) = is_defined x && are_defined xs

abbrev pub outbuf_size : ℕ
outbuf_size = 4096

-- the calls of the encoder: an array of the announced length, in a buffer of the size, with the items
-- in order, and the check at its end; its bytes, or an error
abbrev pub Encoder : Type 0
Encoder = ℕ → ℕ → List Item → Option (List ℕ)
