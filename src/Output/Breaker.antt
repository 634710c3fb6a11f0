-- ===== src/Output/Breaker.antt =====
-- The circuitBreaker of pkg/output/router.go. time.Now() is an argument, durations are numbers.
use logsieve.Prelude.{
  ℕ, ◌+◌, ◌<◌, Bool, ◌&&◌, List, [], ◌∷◌, ltb, leb, if◌then◌else◌, length, ◌≡◌, ◌∙◌, ap, ◌++◌, refl,
  arith,
}

pub record CircuitBreaker : Type 0 where
  pub failures : ℕ
  pub max_failures : ℕ
  pub cooldown : ℕ
  pub open_until : ℕ

-- The zero time lies before every reading of the clock.
unfoldable pub new_breaker : ℕ → ℕ → CircuitBreaker
new_breaker max_failures cooldown = record {
  failures = 0;
  max_failures = max_failures;
  cooldown = cooldown;
  open_until = 0;
}

unfoldable pub is_open : ℕ → CircuitBreaker → Bool
is_open now cb = ltb now cb.open_until

unfoldable pub on_failure : ℕ → CircuitBreaker → CircuitBreaker
on_failure now cb =
    let counted = record cb { failures = cb.failures + 1 } in
    if leb cb.max_failures counted.failures && ltb 0 cb.max_failures
    then record counted { open_until = now + cb.cooldown; failures = 0 }
    else counted

unfoldable pub on_success : CircuitBreaker → CircuitBreaker
on_success cb = record cb { failures = 0 }

-- Failures in a row, at the given times.
unfoldable pub fail_many : List ℕ → CircuitBreaker → CircuitBreaker
fail_many [] cb = cb
fail_many (now ∷ times) cb = fail_many times (on_failure now cb)

on_failure-below :
    (now : ℕ) (cb : CircuitBreaker)
    → cb.failures + 1 < cb.max_failures
    → on_failure now cb ≡ record cb { failures = cb.failures + 1 }
unfolding on_failure
on_failure-below now cb h = ground arith

on_failure-last :
    (now : ℕ) (cb : CircuitBreaker)
    → 0 < cb.max_failures
    → cb.failures + 1 ≡ cb.max_failures
    → on_failure now cb ≡ record cb { open_until = now + cb.cooldown; failures = 0 }
unfolding on_failure
on_failure-last now cb p h = ground arith

few_failures :
    (times : List ℕ) (cb : CircuitBreaker)
    → cb.failures + length times < cb.max_failures
    → (fail_many times cb) ≡ record cb { failures = cb.failures + length times }
unfolding fail_many
few_failures [] cb h = ground arith
few_failures (now ∷ times) cb h = rw (on_failure-below now cb (omega arith)) (
    few_failures times (record cb { failures = cb.failures + 1 }) (omega arith)
    ∙ ap (λ n. record cb { failures = n }) (omega arith))

fail_many-append_one :
    (times : List ℕ) (now : ℕ) (cb : CircuitBreaker)
    → fail_many (times ++ now ∷ []) cb ≡ on_failure now (fail_many times cb)
unfolding fail_many
fail_many-append_one [] now cb = refl
fail_many-append_one (t ∷ times) now cb = fail_many-append_one times now (on_failure t cb)

-- A breaker with no failures counted opens with exactly as many failures in a row as configured: one
-- fewer leaves it as open or shut as it was, and the last one opens it until its time plus the
-- cooldown and starts the count anew.
pub breaker_opens :
    (times : List ℕ) (now : ℕ) (cb : CircuitBreaker)
    → cb.failures ≡ 0
    → length times + 1 ≡ cb.max_failures
    → let opened = fail_many (times ++ now ∷ []) cb in
      ((t : ℕ) → is_open t (fail_many times cb) ≡ is_open t cb)
      × ((t : ℕ) → is_open t opened ≡ ltb t (now + cb.cooldown))
      × (opened.failures ≡ 0)
unfolding is_open
breaker_opens times now cb z e =
    let before = few_failures times cb (omega arith) in
    let last =
      fail_many-append_one times now cb
      ∙ (ap (on_failure now) before
          ∙ on_failure-last now (record cb { failures = cb.failures + length times }) (omega arith)
              (omega arith)) in
    (
      λ t. ap (λ b. ltb t b.open_until) before,
      λ t. ap (λ b. ltb t b.open_until) last,
      ap (λ b. b.failures) last,
    )
