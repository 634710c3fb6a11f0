-- ===== src/Prelude/Text/Digits.antt =====
-- Decimal digits: what strconv.Itoa writes can be read back.
use Prim.Native.Nat.{ℕ, zero, suc, ◌+◌, ◌*◌, ◌/◌, ◌%◌, ◌^◌, ◌≤◌, ◌<◌}
use Prim.Native.String.{String}
use Prim.Native.Char.{code}
use mathlib.Core.Path.{◌≡◌, refl, ap, ◌∙◌}
use mathlib.Core.Bool.{true}
use mathlib.Core.Logic.{inl, inr}
use native.Mathlib.Omega.{arith}
use logsieve.Prelude.Tests.{ltb, ltb→lt, if◌then◌else◌, Bool-cases}
use logsieve.Prelude.Text.{is_digit, all_digits, digit, itoa_from, itoa, text_length, value_from}

abbrev pub digit_count : ℕ → ℕ → ℕ
digit_count zero n = 0
digit_count (suc f) n = let more = digit_count f (n / 10) in if ltb n 10 then 1 else suc more

-- What a digit's character says.
digit_lem : (d : ℕ) → d < 10 → (code (digit d) ≡ d + 48) × (is_digit (code (digit d)) ≡ true)
unfolding digit
digit_lem zero h = (refl, refl)
digit_lem (suc zero) h = (refl, refl)
digit_lem (suc (suc zero)) h = (refl, refl)
digit_lem (suc (suc (suc zero))) h = (refl, refl)
digit_lem (suc (suc (suc (suc zero)))) h = (refl, refl)
digit_lem (suc (suc (suc (suc (suc zero))))) h = (refl, refl)
digit_lem (suc (suc (suc (suc (suc (suc zero)))))) h = (refl, refl)
digit_lem (suc (suc (suc (suc (suc (suc (suc zero))))))) h = (refl, refl)
digit_lem (suc (suc (suc (suc (suc (suc (suc (suc zero)))))))) h = (refl, refl)
digit_lem (suc (suc (suc (suc (suc (suc (suc (suc (suc n))))))))) h =
    let e : n ≡ 0 = omega arith in rw e (refl, refl)

value_from-itoa_from :
    (f n : ℕ) (rest : String) → n < f → value_from 0 (itoa_from f n rest) ≡ value_from n rest
unfolding value_from itoa_from
value_from-itoa_from zero n rest h = absurd (omega arith)
value_from-itoa_from (suc f) n rest h = elim (Bool-cases (ltb n 10)) [
  | inl small ↦
      rw small (ap (λ k. value_from k rest) (omega (arith, (digit_lem n (ltb→lt n 10 small)).0)))
  | inr big ↦ rw big (
      value_from-itoa_from f (n / 10) (String.◌∷◌ (digit (n % 10)) rest) (ground arith)
      ∙ ap (λ k. value_from k rest) (omega (arith, (digit_lem (n % 10) (omega arith)).0)))
]

text_length-itoa_from :
    (f n : ℕ) (rest : String)
    → text_length (itoa_from f n rest) ≡ digit_count f n + text_length rest
unfolding text_length itoa_from
text_length-itoa_from zero n rest = omega arith
text_length-itoa_from (suc f) n rest =
    ground (arith, text_length-itoa_from f (n / 10) (String.◌∷◌ (digit (n % 10)) rest))

all_digits-itoa_from :
    (f n : ℕ) (rest : String) → all_digits rest ≡ true → all_digits (itoa_from f n rest) ≡ true
unfolding all_digits itoa_from
all_digits-itoa_from zero n rest h = h
all_digits-itoa_from (suc f) n rest h = ground (
  arith,
  digit_lem n,
  digit_lem (n % 10),
  all_digits-itoa_from f (n / 10) (String.◌∷◌ (digit (n % 10)) rest),
)

pow_pos : (k : ℕ) → 1 ≤ 10 ^ k
pow_pos zero = omega arith
pow_pos (suc k) = omega (arith, pow_pos k)

digit_count_lem : (d f n : ℕ) → n < f → 10 ^ d ≤ n → n < 10 ^ suc d → digit_count f n ≡ suc d
digit_count_lem d zero n h lo hi = absurd (omega arith)
digit_count_lem zero (suc f) n h lo hi = ground arith
digit_count_lem (suc d) (suc f) n h lo hi =
    let p = pow-suc d in
    let q = pow-suc (suc d) in ground (arith, digit_count_lem d f (n / 10), p, q, pow_pos d)
  where
    pow-suc : (k : ℕ) → 10 ^ suc k ≡ 10 * 10 ^ k
    pow-suc k = omega arith

-- The digits of a number: their count, and that reading them gives the number.
pub text_length-itoa : (d n : ℕ) → 10 ^ d ≤ n → n < 10 ^ suc d → text_length (itoa n) ≡ suc d
unfolding itoa text_length
text_length-itoa d n lo hi =
    omega
      (arith, text_length-itoa_from (suc n) n "", digit_count_lem d (suc n) n (omega arith) lo hi)

pub value_from-itoa : (n : ℕ) → value_from 0 (itoa n) ≡ n
unfolding itoa value_from
value_from-itoa n = value_from-itoa_from (suc n) n "" (omega arith)

pub all_digits-itoa : (n : ℕ) → all_digits (itoa n) ≡ true
unfolding itoa all_digits
all_digits-itoa n = all_digits-itoa_from (suc n) n "" refl
