-- ===== src/Config.antt =====
-- src/config.c: the checks of `dns_collector_conf_commit`. The parser of the configuration is a
-- library's; `F` is the type of its `double` values.
pub mod Accepted
use dns_collector.Prelude.{
  ℕ, zero, suc, ◌+◌, ◌-◌, Bool, true, false, not, ◌||◌, Option, none, some, List, [], ◌∷◌, ◌==◌,
  ltb, if◌then◌else◌, length,
}
use dns_collector.Escape.{backslash, newline}

-- an `int`
pub data ℤ : Type 0 where
  pos negsuc : ℕ → ℤ

-- `i < n` and `n < i`
unfoldable pub below : ℤ → ℕ → Bool
below (pos i) n = ltb i n
below (negsuc i) n = true

unfoldable pub above : ℤ → ℕ → Bool
above (pos i) n = ltb n i
above (negsuc i) n = false

-- the fields of `struct dns_config` that are checked; a string is the list of its bytes
pub record Config (F : Type 0) : Type 0 where
  pub max_frame_duration_sec : F
  pub max_queue_len : ℤ
  pub output_type : ℕ
  pub csv_separator : List ℕ
  pub csv_fields : ℕ
  pub cbor_fields : ℕ
  pub dump_compress_level : ℤ

abbrev pub output_type_csv : ℕ
output_type_csv = 0

abbrev pub output_type_cbor : ℕ
output_type_cbor = 1

-- the messages, in the order of the source
pub data Refusal : Type 0 where
  duration_too_small queue_too_short separator_not_one bad_separator no_csv_fields no_cbor_fields
        bad_type bad_level :
      Refusal

-- `strchr(".-#_\\\n/", c)`
unfoldable pub is_special : ℕ → Bool
is_special c =
    c == b'.'
    || c == b'-'
    || c == b'#'
    || c == b'_'
    || c == backslash
    || c == newline
    || c == b'/'
    || c == 0

-- the value of a byte as a `char`, which is signed where the collector is built for: the bytes above
-- 127 are the numbers from -128 to -1
unfoldable pub char_value : ℕ → ℤ
char_value c = if ltb c 128 then pos c else negsuc (255 - c)

-- `csv_separator[0] > 0x7f`, a comparison of `int` values
unfoldable pub above_ascii : ℕ → Bool
unfolding char_value above
above_ascii c = above (char_value c) 0x7f

-- the next check, if there is no message yet
unfoldable pub or_else : Option Refusal → Option Refusal → Option Refusal
or_else none next = next
or_else (some r) next = some r

module _ {F : Type 0} (below_milli : F → Bool) (isalnum : ℤ → Bool) where
  -- the check of the separator
  unfoldable pub check_separator : List ℕ → Option Refusal
  unfolding is_special char_value above_ascii
  check_separator [] = some separator_not_one
  check_separator (c ∷ []) =
      if isalnum (char_value c) || is_special c || above_ascii c then some bad_separator else none
  check_separator (c ∷ d ∷ cs) = some separator_not_one

  -- `switch (conf->output_type)`
  unfoldable pub check_output : Config F → Option Refusal
  unfolding check_separator or_else
  check_output conf =
      if conf.output_type == output_type_csv
      then or_else (check_separator conf.csv_separator)
          (if conf.csv_fields == 0 then some no_csv_fields else none)
      else if conf.output_type == output_type_cbor
      then (if conf.cbor_fields == 0 then some no_cbor_fields else none)
      else some bad_type

  -- `dns_collector_conf_commit`: the first message, or none
  unfoldable pub commit : Config F → Option Refusal
  unfolding check_output above below or_else
  commit conf =
      if below_milli conf.max_frame_duration_sec
      then some duration_too_small
      else if below conf.max_queue_len 1
      then some queue_too_short
      else or_else (check_output conf) (
          if below conf.dump_compress_level 0 || above conf.dump_compress_level 9
          then some bad_level
          else none)
