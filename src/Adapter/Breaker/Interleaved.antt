-- ===== src/Adapter/Breaker/Interleaved.antt =====
-- The breaker under calls that overlap: starts and ends in any order.
use posnet_adapter.Prelude.{
  ℕ, ◌+◌, ◌≤◌, ◌<◌, ◌≡◌, ◌≢◌, refl, Bool, true, some, List, [], ◌∷◌, arith,
}
use posnet_adapter.Prelude.Exec.{Result, ok, err}
use posnet_adapter.Adapter.Errors.{Failure}
use posnet_adapter.Adapter.Breaker.{
  closed, open_, half_open, CircuitBreaker, new_breaker, admit, settle,
}

-- A call starts, or one that was let through ends.
pub data Event : Type 0 where
  start : ℕ → Event
  finish : ℕ → Result Failure (Unit {0}) → Event

abbrev pub step : Event → CircuitBreaker → CircuitBreaker
step (start now) b = (admit now b).1
step (finish now r) b = settle now r b

abbrev pub run : List Event → CircuitBreaker → CircuitBreaker
run [] b = b
run (e ∷ events) b = run events (step e b)

-- The counter is below `fail_max` exactly while the breaker is closed.
pub record IsValid (b : CircuitBreaker) : Type 0 where
  pub limited : 0 < b.fail_max
  pub closed_below : b.state ≡ closed → b.fail_count < b.fail_max
  pub tripped_above : b.state ≢ closed → b.fail_max ≤ b.fail_count

step-IsValid : (e : Event) (b : CircuitBreaker) → IsValid b → IsValid (step e b)
unfolding admit settle
step-IsValid (start now) b h = ground arith
step-IsValid (finish now (ok _)) b h = ground arith
step-IsValid (finish now (err e)) b h = ground arith

new_breaker-IsValid :
    (fail_max reset_timeout : ℕ) (excluded : Failure → Bool) (b : CircuitBreaker)
    → new_breaker fail_max reset_timeout excluded ≡ some b
    → IsValid b
unfolding new_breaker
new_breaker-IsValid fail_max reset_timeout excluded b h = ground arith

run-IsValid : (events : List Event) (b : CircuitBreaker) → IsValid b → IsValid (run events b)
run-IsValid [] b h = h
run-IsValid (e ∷ events) b h = run-IsValid events (step e b) (step-IsValid e b h)

-- A breaker that the constructor accepts, after any starts and ends of calls in any order: its
-- failure count is below `fail_max` if and only if it is closed.
pub run_count :
    (fail_max reset_timeout : ℕ) (excluded : Failure → Bool) (b : CircuitBreaker)
    (events : List Event)
    → new_breaker fail_max reset_timeout excluded ≡ some b
    → IsValid (run events b)
run_count fail_max reset_timeout excluded b events h =
    run-IsValid events b (new_breaker-IsValid fail_max reset_timeout excluded b h)

-- Starts one after another, with none of the calls ended yet; whether each was let through.
abbrev pub starts : List ℕ → CircuitBreaker → List Bool
starts [] b = []
starts (now ∷ times) b = (admit now b).0 ∷ starts times (admit now b).1

abbrev pub all_true : List ℕ → List Bool
all_true [] = []
all_true (_ ∷ times) = true ∷ all_true times

starts_half_open :
    (times : List ℕ) (b : CircuitBreaker) → b.state ≡ half_open → starts times b ≡ all_true times
unfolding admit
starts_half_open [] b h = refl
starts_half_open (now ∷ times) b h = ground (arith, starts_half_open times b h)

-- Once the cooldown of an open breaker has passed, every call that starts before one of them has
-- ended is let through, however many they are.
pub half_open_admits_all :
    (now : ℕ) (times : List ℕ) (b : CircuitBreaker)
    → b.state ≡ open_
    → b.opened_at + b.reset_timeout ≤ now
    → starts (now ∷ times) b ≡ all_true (now ∷ times)
unfolding admit
half_open_admits_all now times b opened passed =
    ground (arith, starts_half_open times (admit now b).1)
