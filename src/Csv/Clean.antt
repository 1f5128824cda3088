-- ===== src/Csv/Clean.antt =====
-- Texts without a separator, for a reader of CSV lines.
use dns_collector.Prelude.{
  ℕ, suc, ◌-◌, ◌^◌, ◌<◌, ◌≡◌, ◌≢◌, refl, ap, ◌∙◌, Bool, true, false, some, List, [], ◌∷◌, ◌++◌,
  append_assoc, ◌==◌, ltb, if◌then◌else◌, Bool-cases, ◌⊎◌, inl, inr, All, All-append, arith,
}
use dns_collector.Print.{decimal, signed_decimal}
use dns_collector.Print.Digits.{IsDigit, decimal-IsDigit}
use dns_collector.Escape.{backslash, newline, escaped, octal3}
use dns_collector.Escape.Lines.{NoBreak, piece-NoBreak}
use dns_collector.Escape.Bounds.{piece, escape_all}
use dns_collector.Csv.{Library}
use dns_collector.Csv.Columns.{null_text}

-- The separators of a line for a reader that skips each character behind a backslash; the flag says
-- that a backslash came before.
unfoldable pub separators : ℕ → Bool → List ℕ → ℕ
separators s b [] = 0
separators s true (e ∷ cs) = separators s false cs
separators s false (c ∷ cs) =
    let escape = separators s true cs in
    let rest = separators s false cs in
    if c == backslash then escape else if c == s then suc rest else rest

-- What the configuration asks for in a separator: it is not a letter or a digit, not NUL and none of
-- ".-#_\/" and the newline. That it is an ASCII character is asked for, too, but not enforced.
pub record IsAllowed (s : ℕ) : Type 0 where
  pub ascii : s < 128
  pub no_digit : (s < b'0') ⊎ (b'9' < s)
  pub no_capital : (s < b'A') ⊎ (b'Z' < s)
  pub no_letter : (s < b'a') ⊎ (b'z' < s)
  pub no_dot : s ≢ b'.'
  pub no_minus : s ≢ b'-'
  pub no_hash : s ≢ b'#'
  pub no_slash : s ≢ b'/'
  pub no_underscore : s ≢ b'_'
  pub no_backslash : s ≢ backslash
  pub no_newline : s ≢ newline
  pub no_nul : s ≢ 0

-- A text that has no separator and no open escape, whatever stands behind it, and no newline or NUL.
abbrev pub IsClean : ℕ → List ℕ → Type 0
IsClean s text =
    ((rest : List ℕ) → separators s false (text ++ rest) ≡ separators s false rest)
    × All NoBreak text

-- The addresses and the names that the libraries print have no separator and no newline in them.
pub record IsCleanLibrary (lib : Library) (s : ℕ) : Type 0 where
  pub addresses :
      (family : ℕ) (memory text : List ℕ) → lib.inet_ntop family memory ≡ some text → IsClean s text
  pub names :
      (name : List ℕ) (size : ℕ) (text : List ℕ)
      → lib.dname_to_str name size ≡ some text
      → IsClean s text

module _ (s : ℕ) (a : IsAllowed s) where
  -- a character that is neither a separator nor a backslash, nor a newline or NUL
  abbrev pub IsPlainChar : ℕ → Type 0
  IsPlainChar c = (c ≢ s) × (c ≢ backslash) × NoBreak c

  pub IsClean-plain : (text : List ℕ) → All IsPlainChar text → IsClean s text
  unfolding separators
  IsClean-plain [] h = ((λ rest. refl), tt)
  IsClean-plain (c ∷ cs) ((ne, no_escape, unbroken), h) =
      let plain : (c == backslash) ≡ false = ground (arith, no_escape) in
      let no_separator : (c == s) ≡ false = ground (arith, ne) in
      let (none_behind, all_unbroken) = IsClean-plain cs h in
      ((λ rest. rw (plain, no_separator) (none_behind rest)), (unbroken, all_unbroken))

  pub digits-plain : (text : List ℕ) → All IsDigit text → All IsPlainChar text
  digits-plain [] h = tt
  digits-plain (c ∷ cs) ((low, high), h) = (
    (
      ground (arith, a.no_digit, low, high),
      ground (arith, low, high),
      (omega (arith, low), omega (arith, low)),
    ),
    digits-plain cs h,
  )

  pub IsClean-append : (x y : List ℕ) → IsClean s x → IsClean s y → IsClean s (x ++ y)
  IsClean-append x y (cx, ux) (cy, uy) = (
    (λ rest. ap (separators s false) (append_assoc x y rest) ∙ cx (y ++ rest) ∙ cy rest),
    All-append _ x y ux uy,
  )

  pub IsClean-decimal : (n : ℕ) → IsClean s (decimal n)
  IsClean-decimal n = IsClean-plain (decimal n) (digits-plain _ (decimal-IsDigit n))

  pub IsClean-signed : (n : ℕ) → IsClean s (signed_decimal n)
  unfolding signed_decimal
  IsClean-signed n = elim (Bool-cases (ltb n (2 ^ 63))) [
    | inl e ↦ rw e (IsClean-decimal n)
    | inr e ↦
        let minus : IsPlainChar b'-' =
          (ground (arith, a.no_minus), omega arith, (omega arith, omega arith)) in
        rw e (
          IsClean-plain (b'-' ∷ decimal (2 ^ 64 - n))
            (minus, digits-plain _ (decimal-IsDigit (2 ^ 64 - n))))
  ]

  pub IsClean-null : IsClean s null_text
  unfolding separators
  IsClean-null = ((λ rest. refl), ground arith)

  pub IsClean-piece : (isgraph : ℕ → Bool) (d : ℕ) → IsClean s (piece isgraph (some s) d)
  unfolding separators piece escaped octal3
  IsClean-piece isgraph d = (
    (λ rest. ground (arith, a.no_digit, a.no_backslash, a.no_letter)),
    piece-NoBreak isgraph (some s) d,
  )

  pub IsClean-escape_all :
      (isgraph : ℕ → Bool) (bytes : List ℕ) → IsClean s (escape_all isgraph (some s) bytes)
  unfolding escape_all
  IsClean-escape_all isgraph [] = ((λ rest. refl), tt)
  IsClean-escape_all isgraph (d ∷ ds) =
      IsClean-append _ _ (IsClean-piece isgraph d) (IsClean-escape_all isgraph ds)
