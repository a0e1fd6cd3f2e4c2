-- ===== src/Adapter/Breaker.antt =====
-- libs/adapter/circuit_breaker.py. Clock readings of `monotonic()` are numbers of ticks. A call
-- awaits its function, so other calls run between its start and its end: `admit` and `settle` are
-- the two halves, and `call` is one call with nothing in between.
pub mod Trips
pub mod Interleaved
use posnet_adapter.Prelude.{
  ℕ, ◌+◌, Bool, true, false, not, ◌&&◌, ◌||◌, Option, none, some, List, [], ◌∷◌, leb, ◌==◌,
  if◌then◌else◌,
}
use posnet_adapter.Prelude.Exec.{Result, ok, err, Exec}
use posnet_adapter.Adapter.Errors.{Failure, breaker_open}

pub data State : Type 0 where
  closed open_ half_open : State

pub record CircuitBreaker : Type 0 where
  pub excluded : Failure → Bool
  pub fail_max : ℕ
  pub reset_timeout : ℕ
  pub state : State
  pub fail_count : ℕ
  pub opened_at : ℕ

-- `__init__`; `none` is the `ValueError`.
unfoldable pub new_breaker : ℕ → ℕ → (Failure → Bool) → Option CircuitBreaker
new_breaker fail_max reset_timeout excluded =
    if fail_max == 0 || reset_timeout == 0
    then none
    else some (record {
      excluded = excluded;
      fail_max = fail_max;
      reset_timeout = reset_timeout;
      state = closed;
      fail_count = 0;
      opened_at = 0;
    })

abbrev pub is_open : State → Bool
is_open open_ = true
is_open _ = false

abbrev pub is_half_open : State → Bool
is_half_open half_open = true
is_half_open _ = false

unfoldable pub maybe_recover : ℕ → CircuitBreaker → CircuitBreaker
maybe_recover now b =
    if is_open b.state && leb (b.opened_at + b.reset_timeout) now
    then record b { state = half_open }
    else b

-- `_open`.
abbrev pub open_breaker : ℕ → CircuitBreaker → CircuitBreaker
open_breaker now b = record b { state = open_; opened_at = now }

unfoldable pub record_failure : ℕ → CircuitBreaker → CircuitBreaker
record_failure now b =
    if is_half_open b.state
    then open_breaker now b
    else if leb b.fail_max (b.fail_count + 1)
    then open_breaker now (record b { fail_count = b.fail_count + 1 })
    else record b { fail_count = b.fail_count + 1 }

unfoldable pub record_success : CircuitBreaker → CircuitBreaker
record_success b = record b { state = closed; fail_count = 0 }

-- The start of `call`: whether the function is run, and the breaker after `_maybe_recover`.
unfoldable pub admit : ℕ → CircuitBreaker → Bool × CircuitBreaker
unfolding maybe_recover
admit now b = let b' = maybe_recover now b in (not (is_open b'.state), b')

-- The end of `call`, when the function has returned or raised.
unfoldable pub settle : {A : Type 0} → ℕ → Result Failure A → CircuitBreaker → CircuitBreaker
unfolding record_failure record_success
settle now (ok _) b = record_success b
settle now (err e) b = if b.excluded e then b else record_failure now b

-- `call`, at a clock reading for its start and one for its end, around a function that works on
-- the rest of the world.
unfoldable pub call :
    {W A : Type 0} → ℕ → ℕ → Exec Failure W A → Exec Failure (CircuitBreaker × W) A
unfolding admit settle
call start end func (b, w) =
    let (admitted, b') = admit start b in
    if admitted
    then (let (r, w') = func w in (r, (settle end r b', w')))
    else (err breaker_open, (b', w))
