-- ===== src/Print/Digits.antt =====
-- The digits of a number, and how many of them it takes.
use dns_collector.Prelude.{
  ℕ, zero, suc, ◌+◌, ◌-◌, ◌*◌, ◌/◌, ◌^◌, ◌≤◌, ◌<◌, ◌≡◌, refl, ◌∙◌, List, [], ◌∷◌, ◌++◌, ltb,
  Bool-cases, inl, inr, length, replicate, All, All-append, arith,
}
use dns_collector.Print.{digits, decimal, six_digits}

abbrev pub IsDigit : ℕ → Type 0
IsDigit c = (b'0' ≤ c) × (c ≤ b'9')

pub digits-IsDigit : (fuel n : ℕ) → All IsDigit (digits fuel n)
unfolding digits
digits-IsDigit zero n = tt
digits-IsDigit (suc fuel) n = elim (Bool-cases (ltb n 10)) [
  | inl e ↦ rw e ((omega arith, omega arith), tt)
  | inr e ↦ rw e (
      All-append IsDigit (digits fuel (n / 10)) _ (digits-IsDigit fuel (n / 10))
        ((omega arith, omega arith), tt))
]

pub decimal-IsDigit : (n : ℕ) → All IsDigit (decimal n)
unfolding decimal
decimal-IsDigit n = digits-IsDigit 20 n

replicate-IsDigit : (n : ℕ) → All IsDigit (replicate n b'0')
replicate-IsDigit zero = tt
replicate-IsDigit (suc n) = ((omega arith, omega arith), replicate-IsDigit n)

pub six_digits-IsDigit : (n : ℕ) → All IsDigit (six_digits n)
unfolding six_digits
six_digits-IsDigit n =
    All-append IsDigit (replicate (6 - length (decimal n)) b'0') _ (replicate-IsDigit _)
      (decimal-IsDigit n)

-- the number that digits stand for, after a number in front of them
pub value : ℕ → List ℕ → ℕ
value n [] = n
value n (c ∷ cs) = value (n * 10 + (c - b'0')) cs

value-append : (n : ℕ) (xs : List ℕ) (c : ℕ) → value n (xs ++ c ∷ []) ≡ value n xs * 10 + (c - b'0')
unfolding value
value-append n [] c = refl
value-append n (x ∷ xs) c = value-append (n * 10 + (x - b'0')) xs c

pub value-digits : (fuel n : ℕ) → n < 10 ^ fuel → value 0 (digits fuel n) ≡ n
unfolding digits value
value-digits zero n h = omega arith
value-digits (suc fuel) n h = elim (Bool-cases (ltb n 10)) [
  | inl e ↦ rw e (ground (arith, e))
  | inr e ↦
      let front : value 0 (digits fuel (n / 10)) ≡ n / 10 =
        value-digits fuel (n / 10) (omega arith) in
      rw e (value-append 0 (digits fuel (n / 10)) _ ∙ rw front (omega arith))
]

-- The text of a 64-bit number reads back as the number.
pub value-decimal : (n : ℕ) → n < 2 ^ 64 → value 0 (decimal n) ≡ n
unfolding decimal
value-decimal n h = value-digits 20 n (omega arith)
