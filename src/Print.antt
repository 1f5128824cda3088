-- ===== src/Print.antt =====
-- What `snprintf` of the C library prints for the formats of the source: `%d`, `%zd`, `%"PRId64"` and
-- `%06"PRId64"`. A text is the list of its bytes.
pub mod Digits
use Prim.Native.Char.{code}
use Prim.Native.String.{String}
use dns_collector.Prelude.{
  ℕ, zero, suc, ◌+◌, ◌-◌, ◌/◌, ◌%◌, ◌^◌, List, [], ◌∷◌, ◌++◌, ltb, if◌then◌else◌, length, replicate,
}

-- the bytes of a literal
abbrev pub codes : String → List ℕ
codes String.[] = []
codes (String.◌∷◌ c s) = code c ∷ codes s

-- the decimal digits of a number, at most as many as the fuel
unfoldable pub digits : ℕ → ℕ → List ℕ
digits zero n = []
digits (suc fuel) n =
    let front = digits fuel (n / 10) in (if ltb n 10 then [] else front) ++ (b'0' + n % 10) ∷ []

-- 20 digits are those of every 64-bit number
unfoldable pub decimal : ℕ → List ℕ
unfolding digits
decimal n = digits 20 n

-- a 64-bit word, read as a signed number
unfoldable pub signed_decimal : ℕ → List ℕ
unfolding decimal
signed_decimal n = if ltb n (2 ^ 63) then decimal n else b'-' ∷ decimal (2 ^ 64 - n)

-- `%06"PRId64"` of a number that is not negative
unfoldable pub six_digits : ℕ → List ℕ
unfolding decimal
six_digits n = replicate (6 - length (decimal n)) b'0' ++ decimal n
