-- ===== src/Output/Retry.antt =====
-- The retry loop of sendToOutput in pkg/output/router.go. Whether the i-th Send succeeds, and the
-- clock after it, are given by the environment.
use logsieve.Prelude.{
  ℕ, zero, suc, ◌+◌, ◌-◌, ◌*◌, ◌≤◌, ◌<◌, Bool, true, false, List, [], ◌∷◌, Option, none, some, ltb,
  if◌then◌else◌, length, All, ◌≡◌, refl, subst, arith,
}
use native.Mathlib.Nat.{add-zero}
use logsieve.Output.Breaker.{CircuitBreaker, on_failure, on_success}

-- The Sends that the loop makes meet this: the i-th succeeds or fails, and then the clock reads so.
pub record Environment : Type 0 where
  pub succeeds : ℕ → Bool
  pub clock : ℕ → ℕ

-- `successes` counts the Sends that returned no error.
pub record Sent : Type 0 where
  pub delivered : Bool
  pub successes : ℕ
  pub tries : ℕ
  pub sleeps : List ℕ
  pub breaker : Option CircuitBreaker

abbrev pub note_success : Option CircuitBreaker → Option CircuitBreaker
note_success none = none
note_success (some cb) = some (on_success cb)

abbrev pub note_failure : ℕ → Option CircuitBreaker → Option CircuitBreaker
note_failure now none = none
note_failure now (some cb) = some (on_failure now cb)

-- backoff = backoff * 2; if backoff > maxBackoff { backoff = maxBackoff }
abbrev pub next_backoff : ℕ → ℕ → ℕ
next_backoff max_backoff backoff =
    if ltb max_backoff (backoff * 2) then max_backoff else backoff * 2

-- The rounds that are left, and the round's number.
unfoldable pub send_loop : Environment → ℕ → ℕ → ℕ → ℕ → Option CircuitBreaker → Sent
send_loop env zero i max_backoff backoff br = record {
  delivered = false;
  successes = 0;
  tries = 0;
  sleeps = [];
  breaker = br;
}
send_loop env (suc left) i max_backoff backoff br =
    let failed = note_failure (env.clock i) br in
    let rest = send_loop env left (i + 1) max_backoff (next_backoff max_backoff backoff) failed in
    if env.succeeds i
    then record {
      delivered = true;
      successes = 1;
      tries = 1;
      sleeps = [];
      breaker = note_success br;
    }
    else record {
      delivered = rest.delivered;
      successes = rest.successes;
      tries = 1 + rest.tries;
      sleeps = if ltb 0 left then backoff ∷ rest.sleeps else rest.sleeps;
      breaker = rest.breaker;
    }

-- The loop ends with the first Send that returns no error.
pub successes-send_loop :
    (env : Environment) (n i max_backoff backoff : ℕ) (br : Option CircuitBreaker)
    → let sent = send_loop env n i max_backoff backoff br in
      sent.successes ≡ (if sent.delivered then 1 else 0)
unfolding send_loop
successes-send_loop env zero i mb b br = refl
successes-send_loop env (suc n) i mb b br = ground (
  arith,
  successes-send_loop env n (i + 1) mb (next_backoff mb b) (note_failure (env.clock i) br),
)

-- Fails at every round from i on, for n rounds.
abbrev pub FailsFor : Environment → ℕ → ℕ → Type 0
FailsFor env i zero = Unit {0}
FailsFor env i (suc n) = (env.succeeds i ≡ false) × FailsFor env (i + 1) n

send_loop_lost :
    (env : Environment) (n i max_backoff backoff : ℕ) (br : Option CircuitBreaker)
    → FailsFor env i n
    → let lost = send_loop env n i max_backoff backoff br in
      (lost.delivered ≡ false) × (lost.tries ≡ n) × (length lost.sleeps ≡ n - 1)
unfolding send_loop
send_loop_lost env zero i mb b br f = (refl, refl, refl)
send_loop_lost env (suc n) i mb b br f = ground (
  arith,
  f.0,
  send_loop_lost env n (i + 1) mb (next_backoff mb b) (note_failure (env.clock i) br) f.1,
)

send_loop_sent :
    (env : Environment) (n attempts i max_backoff backoff : ℕ) (br : Option CircuitBreaker)
    → FailsFor env i n
    → n < attempts
    → env.succeeds (i + n) ≡ true
    → let sent = send_loop env attempts i max_backoff backoff br in
      (sent.delivered ≡ true) × (sent.tries ≡ n + 1) × (length sent.sleeps ≡ n)
unfolding send_loop
send_loop_sent env n zero i mb b br f l s = absurd (omega arith)
send_loop_sent env zero (suc left) i mb b br f l s =
    rw (subst (λ j. env.succeeds j ≡ true) (add-zero i) s) (refl, refl, refl)
send_loop_sent env (suc n) (suc left) i mb b br f l s =
    let later = subst (λ j. env.succeeds j ≡ true) (shift i n) s in
    ground (
      arith,
      f.0,
      send_loop_sent env n left (i + 1) mb (next_backoff mb b) (note_failure (env.clock i) br) f.1
          (omega arith) later,
    )
  where
    shift : (a c : ℕ) → a + suc c ≡ (a + 1) + c
    shift a c = omega arith

-- Total outcome of the loop: when every allowed Send fails it gives up after all of them, asleep
-- between each two; when the first Sends fail and then one of the allowed ones succeeds, it has
-- delivered with that one, made no further Send, and slept once for each failure.
pub send_loop_outcome :
    (env : Environment) (n attempts max_backoff backoff : ℕ) (br : Option CircuitBreaker)
    → FailsFor env 0 n
    → let r = send_loop env attempts 0 max_backoff backoff br in
      (n ≡ attempts
        → (r.delivered ≡ false) × (r.tries ≡ attempts) × (length r.sleeps ≡ attempts - 1))
      × (n < attempts
          → env.succeeds n ≡ true
          → (r.delivered ≡ true) × (r.tries ≡ n + 1) × (length r.sleeps ≡ n))
send_loop_outcome env n attempts mb b br f = (
  λ e. send_loop_lost env attempts 0 mb b br (subst (FailsFor env 0) e f),
  λ l s.
      send_loop_sent env n attempts 0 mb b br f l
        (subst (λ j. env.succeeds j ≡ true) (zero_plus n) s),
)
  where
    zero_plus : (k : ℕ) → k ≡ 0 + k
    zero_plus k = omega arith

-- Every sleep of the loop lasts at most the longer of the first and the greatest backoff.
pub send_loop_sleeps :
    (env : Environment) (n i max_backoff backoff limit : ℕ) (br : Option CircuitBreaker)
    → max_backoff ≤ limit
    → backoff ≤ limit
    → All (λ t. t ≤ limit) (send_loop env n i max_backoff backoff br).sleeps
unfolding send_loop
send_loop_sleeps env zero i mb b limit br h k = tt
send_loop_sleeps env (suc n) i mb b limit br h k = ground (
  arith,
  send_loop_sleeps env n (i + 1) mb (next_backoff mb b) limit (note_failure (env.clock i) br) h,
)
