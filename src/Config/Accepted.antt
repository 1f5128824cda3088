-- ===== src/Config/Accepted.antt =====
-- What a configuration that is accepted has.
use dns_collector.Prelude.{
  ℕ, ◌-◌, ◌≤◌, ◌<◌, ◌↔◌, ◌≡◌, ◌≢◌, refl, Bool, true, false, Option, none, some, List, [], ◌∷◌, ◌==◌,
  ◌⊎◌, inl, inr, Bool-cases, arith,
}
use dns_collector.Csv.Clean.{IsAllowed}
use dns_collector.Config.{
  ℤ, pos, negsuc, above, char_value, Config, below, Refusal, is_special, check_separator, or_else,
  check_output, commit,
}

-- `isalnum` of an `int` holds for the digits and the letters of ASCII
pub record IsAlnum (isalnum : ℤ → Bool) : Type 0 where
  pub digit : (c : ℕ) → b'0' ≤ c → c ≤ b'9' → isalnum (pos c) ≡ true
  pub capital : (c : ℕ) → b'A' ≤ c → c ≤ b'Z' → isalnum (pos c) ≡ true
  pub letter : (c : ℕ) → b'a' ≤ c → c ≤ b'z' → isalnum (pos c) ≡ true

-- A byte of ASCII is itself as a `char`.
char_value-ascii : (c : ℕ) → c < 128 → char_value c ≡ pos c
unfolding char_value
char_value-ascii c h = ground (arith, h)

char_value-high : (c : ℕ) → 128 ≤ c → char_value c ≡ negsuc (255 - c)
unfolding char_value
char_value-high c h = ground (arith, h)

or_else-none : (a b : Option Refusal) → or_else a b ≡ none → (a ≡ none) × (b ≡ none)
unfolding or_else
or_else-none none b h = (refl, h)
or_else-none (some r) b h = absurd cc

module _ {F : Type 0} (below_milli : F → Bool) (isalnum : ℤ → Bool) (law : IsAlnum isalnum) where
  -- one character, which is allowed if it is an ASCII character
  abbrev pub HasSeparator : List ℕ → Type 0
  HasSeparator text = (c : ℕ) × (text ≡ c ∷ []) × ((c < 128) → IsAllowed c)

  character-IsAllowed :
      (c : ℕ) → check_separator below_milli isalnum (c ∷ []) ≡ none → c < 128 → IsAllowed c
  unfolding check_separator is_special
  character-IsAllowed c h' ascii =
      let h = rw (char_value-ascii c ascii) at h' in
      record {
        ascii = ascii;
        no_digit = ground (arith, h, law.digit c);
        no_capital = ground (arith, h, law.capital c);
        no_letter = ground (arith, h, law.letter c);
        no_dot = ground (arith, h);
        no_minus = ground (arith, h);
        no_hash = ground (arith, h);
        no_slash = ground (arith, h);
        no_underscore = ground (arith, h);
        no_backslash = ground (arith, h);
        no_newline = ground (arith, h);
        no_nul = ground (arith, h);
      }

  check_separator-HasSeparator :
      (text : List ℕ) → check_separator below_milli isalnum text ≡ none → HasSeparator text
  unfolding check_separator
  check_separator-HasSeparator [] h = absurd cc
  check_separator-HasSeparator (c ∷ []) h = (c, refl, λ ascii. character-IsAllowed c h ascii)
  check_separator-HasSeparator (c ∷ d ∷ cs) h = absurd cc

  check_output-kind :
      (conf : Config F)
      → check_output below_milli isalnum conf ≡ none
      → (conf.output_type ≡ 0) ⊎ (conf.output_type ≡ 1)
  unfolding check_output
  check_output-kind conf h = elim (Bool-cases (conf.output_type == 0)) [
    | inl e ↦ inl (ground (arith, e))
    | inr e ↦ elim (Bool-cases (conf.output_type == 1)) [
      | inl e' ↦ inr (ground (arith, e'))
      | inr e' ↦ absurd (ground (arith, h, e, e'))
    ]
  ]

  check_output-csv :
      (conf : Config F)
      → check_output below_milli isalnum conf ≡ none
      → conf.output_type ≡ 0
      → HasSeparator conf.csv_separator × (conf.csv_fields ≢ 0)
  unfolding check_output
  check_output-csv conf h csv =
      let is_csv : (conf.output_type == 0) ≡ true = ground (arith, csv) in
      let (separator, fields) = or_else-none _ _ (rw is_csv at h) in
      (check_separator-HasSeparator conf.csv_separator separator, λ z. ground (arith, fields, z))

  -- An accepted configuration has a queue for one frame at least and a known type of output. For
  -- CSV it has a field, and a separator of one character; where this is an ASCII character, it is
  -- none that numbers and the names of fields are made of, nor a dot, a minus or a backslash.
  pub commit-accepts :
      (conf : Config F)
      → commit below_milli isalnum conf ≡ none
      → (below conf.max_queue_len 1 ≡ false)
        × ((conf.output_type ≡ 0) ⊎ (conf.output_type ≡ 1))
        × (conf.output_type ≡ 0 → HasSeparator conf.csv_separator × (conf.csv_fields ≢ 0))
  unfolding commit
  commit-accepts conf h = elim (Bool-cases (below_milli conf.max_frame_duration_sec)) [
    | inl e ↦ absurd (ground (arith, h, e))
    | inr e ↦ elim (Bool-cases (below conf.max_queue_len 1)) [
      | inl e' ↦ absurd (ground (arith, h, e, e'))
      | inr e' ↦
          let (output, level) = or_else-none _ _ (rw (e, e') at h) in
          (e', check_output-kind conf output, check_output-csv conf output)
    ]
  ]

  -- A separator of one byte above ASCII, from 128 to 255, is a negative `char`, and never greater than
  -- 0x7f: it is accepted if `isalnum` does not hold for the negative number, and only then.
  pub check_separator-accepts :
      (c : ℕ)
      → 128 ≤ c
      → c < 256
      → (char_value c ≡ negsuc (255 - c))
        × ((check_separator below_milli isalnum (c ∷ []) ≡ none)
            ↔ (isalnum (negsuc (255 - c)) ≡ false))
  unfolding check_separator is_special above
  check_separator-accepts c high byte =
      let value = char_value-high c high in
      (value, ((λ h. ground (arith, rw value at h)), (λ h. rw (value, h) (ground (arith, high)))))
