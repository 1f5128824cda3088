-- ===== src/Tests/Config.antt =====
-- The default configuration.
use dns_collector.Prelude.{
  ℕ, ◌^◌, ◌-◌, ◌≡◌, ◌↔◌, ◌≢◌, refl, Bool, false, ◌&&◌, ◌||◌, ◌⊎◌, none, [], ◌∷◌, leb, ltb, arith,
}
use dns_collector.Config.{ℤ, char_value, negsuc, Config, pos, commit, below, check_separator}
use dns_collector.Config.Accepted.{IsAlnum, HasSeparator, commit-accepts, check_separator-accepts}

alnum : ℤ → Bool
alnum (negsuc n) = false
alnum (pos c) = leb b'0' c && leb c b'9' || leb b'A' c && leb c b'Z' || leb b'a' c && leb c b'z'

alnum-IsAlnum : IsAlnum alnum
unfolding alnum
alnum-IsAlnum = record {
  digit = λ c low high. ground (arith, low, high);
  capital = λ c low high. ground (arith, low, high);
  letter = λ c low high. ground (arith, low, high);
}

-- durations in microseconds stand for the numbers of seconds
abbrev too_small : ℕ → Bool
too_small t = ltb t 1000

abbrev defaults : Config ℕ
defaults = record {
  max_frame_duration_sec = 1000000;
  max_queue_len = pos 8;
  output_type = 0;
  csv_separator = b',' ∷ [];
  csv_fields = 2 ^ 23 - 1;
  cbor_fields = 2 ^ 23 - 1;
  dump_compress_level = pos 4;
}

commit-accepts_example :
    (below defaults.max_queue_len 1 ≡ false)
    × ((defaults.output_type ≡ 0) ⊎ (defaults.output_type ≡ 1))
    × (defaults.output_type ≡ 0
        → HasSeparator too_small alnum alnum-IsAlnum defaults.csv_separator
          × (defaults.csv_fields ≢ 0))
unfolding commit alnum
commit-accepts_example = commit-accepts too_small alnum alnum-IsAlnum defaults refl

check_separator-accepts_example :
    (char_value 195 ≡ negsuc 60)
    × ((check_separator too_small alnum (195 ∷ []) ≡ none) ↔ (alnum (negsuc 60) ≡ false))
check_separator-accepts_example =
    check_separator-accepts too_small alnum alnum-IsAlnum 195 (omega arith) (omega arith)
