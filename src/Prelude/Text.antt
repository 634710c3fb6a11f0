-- ===== src/Prelude/Text.antt =====
-- What the program uses of Go's strings package, over native texts. Case mapping and white space
-- are those of ASCII.
pub mod Digits
use Prim.Native.Nat.{ℕ, zero, suc, ◌+◌, ◌-◌, ◌*◌, ◌/◌, ◌%◌}
use Prim.Native.Char.{Char, code}
use Prim.Native.String.{String, ◌++◌}
use mathlib.Core.Bool.{Bool, true, false, ◌&&◌, ◌||◌}
use mathlib.Core.List.{List, [], ◌∷◌}
use text.Mathlib.Text.{◌==◌ as str_eq}
use logsieve.Prelude.Tests.{ltb, leb, ◌==◌, if◌then◌else◌}

abbrev pub is_digit : ℕ → Bool
is_digit c = leb b'0' c && leb c b'9'

-- The class \s of package regexp.
abbrev pub is_space : ℕ → Bool
is_space c = c == 32 || c == 9 || c == 10 || c == 12 || c == 13

-- strings.HasPrefix
unfoldable pub has_prefix : String → String → Bool
has_prefix s String.[] = true
has_prefix String.[] (String.◌∷◌ d p) = false
has_prefix (String.◌∷◌ c s) (String.◌∷◌ d p) = code c == code d && has_prefix s p

-- strings.HasSuffix
unfoldable pub has_suffix : String → String → Bool
has_suffix String.[] p = str_eq "" p
has_suffix (String.◌∷◌ c s) p = str_eq (String.◌∷◌ c s) p || has_suffix s p

-- strings.TrimSuffix
unfoldable pub trim_suffix : String → String → String
trim_suffix String.[] p = ""
trim_suffix (String.◌∷◌ c s) p =
    let rest = trim_suffix s p in if str_eq (String.◌∷◌ c s) p then "" else String.◌∷◌ c rest

-- strings.Contains
unfoldable pub contains : String → String → Bool
unfolding has_prefix
contains String.[] p = str_eq "" p
contains (String.◌∷◌ c s) p = has_prefix (String.◌∷◌ c s) p || contains s p

-- strings.ReplaceAll of a delimiter of one byte by a space.
unfoldable pub replace_by_space : ℕ → String → String
replace_by_space d String.[] = ""
replace_by_space d (String.◌∷◌ c s) =
    if code c == d then " " ++ replace_by_space d s else String.◌∷◌ c (replace_by_space d s)

abbrev flush : String → List String → List String
flush word rest = if str_eq word "" then rest else word ∷ rest

words_from : (ℕ → Bool) → String → String → List String
words_from space word String.[] = flush word []
words_from space word (String.◌∷◌ c s) =
    let rest = words_from space (if space (code c) then "" else word ++ String.◌∷◌ c "") s in
    if space (code c) then flush word rest else rest

-- The maximal runs of what is no white space.
unfoldable pub words : String → List String
unfolding words_from
words s = words_from is_space "" s

-- strings.Join
unfoldable pub join : String → List String → String
join sep [] = ""
join sep (x ∷ []) = x
join sep (x ∷ y ∷ r) = x ++ (sep ++ join sep (y ∷ r))

-- A text of one or more decimal digits, and nothing else.
unfoldable pub all_digits : String → Bool
all_digits String.[] = true
all_digits (String.◌∷◌ c s) = is_digit (code c) && all_digits s

digit : ℕ → Char
digit zero = "0"
digit (suc zero) = "1"
digit (suc (suc zero)) = "2"
digit (suc (suc (suc zero))) = "3"
digit (suc (suc (suc (suc zero)))) = "4"
digit (suc (suc (suc (suc (suc zero))))) = "5"
digit (suc (suc (suc (suc (suc (suc zero)))))) = "6"
digit (suc (suc (suc (suc (suc (suc (suc zero))))))) = "7"
digit (suc (suc (suc (suc (suc (suc (suc (suc zero)))))))) = "8"
digit (suc (suc (suc (suc (suc (suc (suc (suc (suc n))))))))) = "9"

itoa_from : ℕ → ℕ → String → String
itoa_from zero n rest = rest
itoa_from (suc f) n rest =
    let more = itoa_from f (n / 10) (String.◌∷◌ (digit (n % 10)) rest) in
    if ltb n 10 then String.◌∷◌ (digit n) rest else more

-- strconv.Itoa; a number has no more digits than its value plus one.
unfoldable pub itoa : ℕ → String
unfolding itoa_from digit
itoa n = itoa_from (suc n) n ""

-- The code of a character's lower case.
abbrev lower : ℕ → ℕ
lower c = if leb 65 c && leb c 90 then c + 32 else c

has_prefix_lower : String → String → Bool
has_prefix_lower s String.[] = true
has_prefix_lower String.[] (String.◌∷◌ d p) = false
has_prefix_lower (String.◌∷◌ c s) (String.◌∷◌ d p) =
    lower (code c) == lower (code d) && has_prefix_lower s p

-- strings.Contains of the lower case of both texts.
unfoldable pub contains_lower : String → String → Bool
unfolding has_prefix_lower
contains_lower String.[] p = str_eq "" p
contains_lower (String.◌∷◌ c s) p = has_prefix_lower (String.◌∷◌ c s) p || contains_lower s p

-- Whether the lower case of the first text is the second.
unfoldable pub is_lower_of : String → String → Bool
is_lower_of String.[] p = str_eq "" p
is_lower_of (String.◌∷◌ c s) String.[] = false
is_lower_of (String.◌∷◌ c s) (String.◌∷◌ d p) = lower (code c) == code d && is_lower_of s p

unfoldable pub trim_end : String → String
trim_end String.[] = ""
trim_end (String.◌∷◌ c s) =
    let rest = trim_end s in if is_space (code c) && str_eq rest "" then "" else String.◌∷◌ c rest

-- strings.TrimSpace
unfoldable pub trim_space : String → String
unfolding trim_end
trim_space String.[] = ""
trim_space (String.◌∷◌ c s) = if is_space (code c) then trim_space s else trim_end (String.◌∷◌ c s)

-- The code of a character's upper case.
abbrev upper : ℕ → ℕ
upper c = if leb 97 c && leb c 122 then c - 32 else c

has_prefix_upper : String → String → Bool
has_prefix_upper s String.[] = true
has_prefix_upper String.[] (String.◌∷◌ d p) = false
has_prefix_upper (String.◌∷◌ c s) (String.◌∷◌ d p) =
    upper (code c) == code d && has_prefix_upper s p

-- strings.Contains of the upper case of a text.
unfoldable pub contains_upper : String → String → Bool
unfolding has_prefix_upper
contains_upper String.[] p = str_eq "" p
contains_upper (String.◌∷◌ c s) p = has_prefix_upper (String.◌∷◌ c s) p || contains_upper s p

-- len(s) and s[:n]
unfoldable pub text_length : String → ℕ
text_length String.[] = 0
text_length (String.◌∷◌ c s) = suc (text_length s)

unfoldable pub take_text : ℕ → String → String
take_text zero s = ""
take_text (suc n) String.[] = ""
take_text (suc n) (String.◌∷◌ c s) = String.◌∷◌ c (take_text n s)

-- The number that decimal digits write, after the digits that have been read.
unfoldable pub value_from : ℕ → String → ℕ
value_from read String.[] = read
value_from read (String.◌∷◌ c s) = value_from (read * 10 + (code c - b'0')) s
