-- ===== src/Escape/Lines.antt =====
-- Escaped text inside a line of fields.
use dns_collector.Prelude.{
  ℕ, ◌<◌, ◌≡◌, ◌≢◌, refl, Bool, true, false, Option, some, List, [], ◌∷◌, ◌++◌, All, All-append,
  ◌==◌, if◌then◌else◌, take, arith, ◌⊎◌, inl, inr, subst, sym, not, ◌&&◌,
}
use dns_collector.Escape.{backslash, newline, escaped, snescape, octal3}
use dns_collector.Escape.Bounds.{piece, escape_all, snescape-Cut}

-- neither a line's end nor a string's
abbrev pub NoBreak : ℕ → Type 0
NoBreak c = (c ≢ newline) × (c ≢ 0)

-- Does every separator stand behind a backslash? The flag says that one came before.
pub is_guarded : ℕ → Bool → List ℕ → Bool
is_guarded s true [] = false
is_guarded s false [] = true
is_guarded s true (e ∷ cs) = is_guarded s false cs
is_guarded s false (c ∷ cs) =
    if c == backslash then is_guarded s true cs else not (c == s) && is_guarded s false cs

module _ (isgraph : ℕ → Bool) where
  pub piece-NoBreak : (separator : Option ℕ) (d : ℕ) → All NoBreak (piece isgraph separator d)
  unfolding piece escaped octal3
  piece-NoBreak separator d = ground arith

  escape_all-NoBreak :
      (separator : Option ℕ) (bytes : List ℕ) → All NoBreak (escape_all isgraph separator bytes)
  unfolding escape_all
  escape_all-NoBreak separator [] = tt
  escape_all-NoBreak separator (d ∷ ds) =
      All-append _ (piece isgraph separator d) _ (piece-NoBreak separator d)
        (escape_all-NoBreak separator ds)

  -- The separator has a visible form, or is a character below the digits.
  abbrev pub IsSeparator : ℕ → Type 0
  IsSeparator s = (isgraph s ≡ true) ⊎ (s < b'0')

  is_guarded-piece :
      (s d : ℕ) (cs : List ℕ)
      → IsSeparator s
      → is_guarded s false cs ≡ true
      → is_guarded s false (piece isgraph (some s) d ++ cs) ≡ true
  unfolding piece escaped octal3 is_guarded
  is_guarded-piece s d cs (inl g) h = ground arith
  is_guarded-piece s d cs (inr g) h = ground arith

  is_guarded-escape_all :
      (s : ℕ) (bytes : List ℕ)
      → IsSeparator s
      → is_guarded s false (escape_all isgraph (some s) bytes) ≡ true
  unfolding escape_all is_guarded
  is_guarded-escape_all s [] g = refl
  is_guarded-escape_all s (d ∷ ds) g = is_guarded-piece s d _ g (is_guarded-escape_all s ds g)

  -- For a buffer of one byte at least, and a separator that is a byte, not a negative number, and has
  -- a visible form or is a character below the digits: the text of `dns_snescape` has no newline and
  -- no NUL, and no separator that a backslash does not precede, so it stays one field of one line.
  pub snescape_one_field :
      (s strsize : ℕ) (bytes : List ℕ)
      → IsSeparator s
      → 0 < strsize
      → All NoBreak (snescape isgraph strsize (some s) bytes)
        × (is_guarded s false (snescape isgraph strsize (some s) bytes) ≡ true)
  snescape_one_field s strsize bytes g h =
      let c = snescape-Cut isgraph (some s) strsize bytes h in
      (
        subst (All NoBreak) (sym c.text_is) (escape_all-NoBreak (some s) (take c.count bytes)),
        subst (λ x. is_guarded s false x ≡ true) (sym c.text_is)
            (is_guarded-escape_all s (take c.count bytes) g),
      )
