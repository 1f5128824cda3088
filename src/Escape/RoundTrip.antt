-- ===== src/Escape/RoundTrip.antt =====
-- Reading an escaped text back, and where that cannot be done.
use dns_collector.Prelude.{
  ℕ, ◌+◌, ◌*◌, ◌/◌, ◌%◌, ◌≤◌, ◌<◌, ◌≡◌, ◌≢◌, refl, Bool, true, false, Option, none, some, List, [],
  ◌∷◌, ◌==◌, if◌then◌else◌, length, take, arith, ◌⊎◌, ◌>>=◌,
}
use dns_collector.Escape.{backslash, newline, escaped, snescape, write_piece}

-- the byte that a character behind a backslash stands for
reveal : ℕ → ℕ → Option ℕ
reveal s e =
    if e == b'0'
    then some 0
    else if e == backslash
    then some backslash
    else if e == b'n'
    then some newline
    else if e == s
    then some s
    else none

-- A reader of escaped text for the separator `s`; the flag says that a backslash came before.
unescape_from : ℕ → Bool → List ℕ → Option (List ℕ)
unescape_from s true [] = none
unescape_from s false [] = some []
unescape_from s true (e ∷ cs) = do d ← reveal s e; ds ← unescape_from s false cs; some (d ∷ ds)
unescape_from s false (c ∷ cs) =
    let open_escape = unescape_from s true cs in
    let plain = (unescape_from s false cs >>= λ ds. some (c ∷ ds)) in
    if c == backslash then open_escape else plain

pub unescape : ℕ → List ℕ → Option (List ℕ)
unfolding unescape_from reveal
unescape s cs = unescape_from s false cs

-- A separator with a visible form that does not read as another escape.
pub record IsPlain (isgraph : ℕ → Bool) (s : ℕ) : Type 0 where
  pub visible : isgraph s ≡ true
  pub ne_zero_digit : s ≢ b'0'
  pub ne_n : s ≢ b'n'

-- what a reader gets back from the text: a prefix of the bytes, and all of them if there was room
pub record ReadsBack (s strsize : ℕ) (bytes text : List ℕ) : Type 0 where
  pub count : ℕ
  pub count_le : count ≤ length bytes
  pub read : unescape s text ≡ some (take count bytes)
  pub complete : (count ≡ length bytes) ⊎ (strsize ≤ 4 * length bytes)

module _ (isgraph : ℕ → Bool) (s : ℕ) where
  escaped-digit : (d : ℕ) → b'0' ≤ d → d < b'0' + 8 → s < 33 → escaped isgraph (some s) d ≡ none
  unfolding escaped
  escaped-digit d lo hi lt = ground arith

  escaped-nul : escaped isgraph (some s) 0 ≡ some (backslash ∷ b'0' ∷ [])
  unfolding escaped
  escaped-nul = refl

  escaped-invisible :
      isgraph s ≡ false
      → 0 < s
      → s < 33
      → s ≢ newline
      → escaped isgraph (some s) s
        ≡ some (backslash ∷ b'0' ∷ (b'0' + s / 8 % 8) ∷ (b'0' + s % 8) ∷ [])
  unfolding escaped
  escaped-invisible g pos lt ne = ground arith

-- A separator with a code from 1 to 32, a control character or the blank, which is not the newline
-- and for which `isgraph` does not hold, is written in octal behind a backslash and a zero, as a NUL
-- that is followed by the two digits would be: in a buffer of five bytes or more the two inputs give
-- one text.
pub invisible_ambiguous :
    (isgraph : ℕ → Bool) (s strsize : ℕ)
    → isgraph s ≡ false
    → 0 < s
    → s < 33
    → s ≢ newline
    → 4 < strsize
    → let low = b'0' + s / 8 % 8 in
      let digit = b'0' + s % 8 in
      snescape isgraph strsize (some s) (s ∷ [])
      ≡ snescape isgraph strsize (some s) (0 ∷ low ∷ digit ∷ [])
unfolding snescape write_piece
invisible_ambiguous isgraph s strsize g pos lt ne room =
    rw
      (
        escaped-invisible isgraph s g pos lt ne,
        escaped-nul isgraph s,
        escaped-digit isgraph s (b'0' + s / 8 % 8) (omega arith) (omega arith) lt,
        escaped-digit isgraph s (b'0' + s % 8) (omega arith) (omega arith) lt,
      )
      (ground arith)
