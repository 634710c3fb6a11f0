-- ===== src/Ingestion/Parser/Times.antt =====
-- The UNIX times that pkg/ingestion/parser.go reads from digits.
use logsieve.Prelude.{
  ℕ, suc, ◌-◌, ◌*◌, ◌^◌, ◌≤◌, ◌<◌, ◌==◌, String, true, some, if◌then◌else◌, str_eq, eq_iff, itoa,
  text_length, pos, negsuc, to_int64-in_range, to_int64-overflow, ◌≡◌, ap, ◌∙◌, arith,
}
use logsieve.Prelude.Text.Digits.{text_length-itoa, value_from-itoa, all_digits-itoa}
use logsieve.Ingestion.Parser.{TimeReader, is_all_digits, parse_int, unix_time, try_parse_time}

-- The nanoseconds in the unit that a number of so many digits counts.
abbrev pub unit_of : ℕ → ℕ
unit_of digits =
    if digits == 19
    then 1
    else if digits == 16
    then 1000
    else if digits == 13
    then 1000000
    else 1000000000

length_zero : (s : String) → str_eq s "" ≡ true → text_length s ≡ 0
unfolding text_length
length_zero s e = ap text_length ((eq_iff s "").0 e)

is_all_digits-itoa : (d v : ℕ) → 10 ^ d ≤ v → v < 10 ^ suc d → is_all_digits (itoa v) ≡ true
unfolding is_all_digits
is_all_digits-itoa d v lo hi =
    ground (arith, all_digits-itoa v, text_length-itoa d v lo hi, length_zero (itoa v))

try_parse_time-itoa :
    (reader : TimeReader) (d v : ℕ)
    → 10 ^ d ≤ v
    → v < 10 ^ suc d
    → v < 2 ^ 63
    → try_parse_time reader (itoa v) ≡ some (unix_time (suc d) v)
unfolding try_parse_time parse_int
try_parse_time-itoa reader d v lo hi small =
    ground (arith, is_all_digits-itoa d v lo hi, value_from-itoa v, text_length-itoa d v lo hi)

-- A time comes back as it was written: a number of d + 1 digits is read in the unit of its length, as
-- nanoseconds, microseconds, milliseconds or else seconds, if that number of nanoseconds fits an
-- int64.
pub time_round_trip :
    (reader : TimeReader) (d v : ℕ)
    → 10 ^ d ≤ v
    → v < 10 ^ suc d
    → v * unit_of (suc d) < 2 ^ 63
    → try_parse_time reader (itoa v) ≡ some (pos (v * unit_of (suc d)))
unfolding unix_time
time_round_trip reader d v lo hi fits = ground (
  arith,
  try_parse_time-itoa reader d v lo hi,
  to_int64-in_range (v * 1000),
  to_int64-in_range (v * 1000000),
)

-- A number of thirteen digits, milliseconds, of 2^63 nanoseconds or more is read as a time before
-- 1970: the product wraps.
pub milliseconds_wrap :
    (reader : TimeReader) (v : ℕ)
    → 2 ^ 63 ≤ v * 1000000
    → v < 10 ^ 13
    → try_parse_time reader (itoa v) ≡ some (negsuc (2 ^ 64 - 1 - v * 1000000))
unfolding unix_time
milliseconds_wrap reader v large hi =
    try_parse_time-itoa reader 12 v (omega arith) (omega arith) (omega arith)
    ∙ ap some (to_int64-overflow (v * 1000000) large (omega arith))
