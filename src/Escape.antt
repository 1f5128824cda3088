-- ===== src/Escape.antt =====
-- src/common.c: `dns_snescape`, which writes bytes to a buffer with the special ones escaped.
-- `isgraph` of the C library is an argument. The separator is a C `int`: a configured character
-- whose code is above 0x7f arrives as a negative number, `none` here, and equals no byte.
pub mod Bounds
pub mod RoundTrip
pub mod Lines
use dns_collector.Prelude.{
  ℕ, ◌+◌, ◌-◌, ◌/◌, ◌%◌, Bool, false, Option, none, some, List, [], ◌∷◌, ◌++◌, ◌==◌, ltb, leb,
  if◌then◌else◌, length,
}

abbrev pub backslash : ℕ
backslash = b'\\'

abbrev pub newline : ℕ
newline = 10

-- `sprintf("%03o")` of a number below 512
unfoldable pub octal3 : ℕ → List ℕ
octal3 s = (b'0' + s / 64 % 8) ∷ (b'0' + s / 8 % 8) ∷ (b'0' + s % 8) ∷ []

-- `*datap == separator`
unfoldable pub is_separator : Option ℕ → ℕ → Bool
is_separator none d = false
is_separator (some s) d = d == s

-- what `WRITESTR` writes for a byte, or `none` for a byte that is copied
unfoldable pub escaped : (ℕ → Bool) → Option ℕ → ℕ → Option (List ℕ)
unfolding is_separator octal3
escaped isgraph separator d =
    if d == 0
    then some (backslash ∷ b'0' ∷ [])
    else if d == backslash
    then some (backslash ∷ backslash ∷ [])
    else if d == newline
    then some (backslash ∷ b'n' ∷ [])
    else if is_separator separator d
    then if isgraph d then some (backslash ∷ d ∷ []) else some (backslash ∷ octal3 d)
    else none

-- `WRITESTR` stops the loop where the text would not fit; else the loop goes on
unfoldable pub write_piece : ℕ → List ℕ → Option (List ℕ) → (List ℕ → List ℕ) → ℕ → List ℕ
write_piece limit out (some text) rest d =
    if ltb limit (length out + length text) then out else rest (out ++ text)
write_piece limit out none rest d = rest (out ++ d ∷ [])

-- the loop, with `limit` for `strsize - 1` and what has been written so far
pub snescape_loop : (ℕ → Bool) → Option ℕ → ℕ → List ℕ → List ℕ → List ℕ
snescape_loop isgraph separator limit [] out = out
snescape_loop isgraph separator limit (d ∷ ds) out =
    let rest = snescape_loop isgraph separator limit ds in
    let next = write_piece limit out (escaped isgraph separator d) rest d in
    if ltb (length out) limit then next else out

-- `dns_snescape`: what stands in `str` in front of the final '\0'; the code returns its length.
-- With `strsize` 0 nothing is written, not even the '\0'.
unfoldable pub snescape : (ℕ → Bool) → ℕ → Option ℕ → List ℕ → List ℕ
unfolding snescape_loop
snescape isgraph strsize separator bytes =
    if leb strsize 0 then [] else snescape_loop isgraph separator (strsize - 1) bytes []
