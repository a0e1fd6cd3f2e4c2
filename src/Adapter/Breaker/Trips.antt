-- ===== src/Adapter/Breaker/Trips.antt =====
-- The breaker over calls in sequence: when it trips, how long it stays open, how it recovers.
use posnet_adapter.Prelude.{
  ℕ, ◌+◌, ◌≤◌, ◌<◌, ◌≡◌, refl, false, List, [], ◌∷◌, arith, leb, length, if◌then◌else◌, Bool-cases,
  inl, inr,
}
use posnet_adapter.Prelude.Exec.{Result, ok, err, Exec}
use posnet_adapter.Adapter.Errors.{Failure, breaker_open}
use posnet_adapter.Adapter.Breaker.{closed, open_, half_open, CircuitBreaker, settle, call}

-- Calls one after another, each at its start and end, that all raise the error `e`.
abbrev pub fail_all : Failure → List (ℕ × ℕ) → CircuitBreaker → CircuitBreaker
fail_all e [] b = b
fail_all e ((start, end) ∷ times) b =
    fail_all e times (call {A = Unit {0}} start end (λ w. (err e, w)) (b, tt)).1.0

-- A closed breaker counts every error that is not excluded: short of `fail_max` it stays closed
-- with the exact count, and the error that makes the count `fail_max` opens it.
pub fail_all-trips :
    (e : Failure) (times : List (ℕ × ℕ)) (b : CircuitBreaker)
    → b.excluded e ≡ false
    → b.state ≡ closed
    → b.fail_count < b.fail_max
    → b.fail_count + length times ≤ b.fail_max
    → ((fail_all e times b).fail_count ≡ b.fail_count + length times)
      × ((fail_all e times b).state
          ≡ (if leb b.fail_max (b.fail_count + length times) then open_ else closed))
unfolding call
fail_all-trips e [] b counted shut below fits = ground arith
fail_all-trips e ((start, end) ∷ []) b counted shut below fits = ground arith
fail_all-trips e ((start, end) ∷ t ∷ times) b counted shut below fits = ground (
  arith,
  fail_all-trips e (t ∷ times) (call {A = Unit {0}} start end (λ w. (err e, w)) (b, tt)).1.0,
)

-- The breaker after the trial call that a half-open breaker lets through: success closes it and
-- clears the count, an error that counts opens it for another cooldown, an excluded one leaves it
-- half open.
abbrev pub after_trial : {A : Type 0} → ℕ → Result Failure A → CircuitBreaker → CircuitBreaker
after_trial end (ok _) b = record b { state = closed; fail_count = 0 }
after_trial end (err e) b =
    if b.excluded e
    then record b { state = half_open }
    else record b { state = open_; opened_at = end }

module _ {W A : Type 0} (start end : ℕ) (func : Exec Failure W A) (b : CircuitBreaker) (w : W) where
  settle_trial :
      (r : Result Failure A) → settle end r (record b { state = half_open }) ≡ after_trial end r b
  unfolding settle
  settle_trial (ok _) = refl
  settle_trial (err e) = ground arith

  -- While the breaker is open and its cooldown has not passed, a call raises at once: the function
  -- is not run, and neither the world nor the breaker changes. From the end of the cooldown on the
  -- function is run, and its outcome decides.
  pub call_open :
      b.state ≡ open_
      → call start end func (b, w) ≡ (
          if leb (b.opened_at + b.reset_timeout) start
          then (let (r, w') = func w in (r, (after_trial end r b, w')))
          else (err breaker_open, (b, w)))
  unfolding call
  call_open opened = elim (Bool-cases (leb (b.opened_at + b.reset_timeout) start)) [
    | inl passed ↦ simp (opened, passed, settle_trial (func w).0)
    | inr cooling ↦ simp (opened, cooling)
  ]
