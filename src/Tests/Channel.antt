-- ===== src/Tests/Channel.antt =====
-- The circuit breaker and the token bucket at small inputs: libs/adapter.
use posnet_adapter.Prelude.{
  ℕ, ◌*◌, ◌+◌, ◌-◌, ◌≤◌, ◌≡◌, refl, some, List, [], ◌∷◌, arith, length, leb, if◌then◌else◌,
}
use posnet_adapter.Prelude.Exec.{err}
use posnet_adapter.Adapter.Errors.{other_exception, is_excluded}
use posnet_adapter.Adapter.Breaker.{CircuitBreaker, closed, open_, new_breaker}
use posnet_adapter.Adapter.Breaker.Trips.{fail_all, fail_all-trips}
use posnet_adapter.Adapter.Breaker.Interleaved.{
  Event, start, finish, run, IsValid, run_count, starts, all_true, half_open_admits_all,
}
use posnet_adapter.Adapter.Bucket.{TokenBucket, new_bucket, acquire}
use posnet_adapter.Adapter.Bucket.Rate.{acquire_all, acquire_all_rate}

abbrev fresh : CircuitBreaker
fresh = record {
  excluded = is_excluded;
  fail_max = 2;
  reset_timeout = 60;
  state = closed;
  fail_count = 0;
  opened_at = 0;
}

fresh_lem : new_breaker 2 60 is_excluded ≡ some fresh
unfolding new_breaker
fresh_lem = refl

-- Two calls overlap; both fail.
abbrev overlapping : List Event
overlapping =
    start 1 ∷ start 2 ∷ finish 3 (err other_exception) ∷ finish 4 (err other_exception) ∷ []

run_count_example : IsValid (run overlapping fresh)
run_count_example = run_count 2 60 is_excluded fresh overlapping fresh_lem

abbrev two_calls : List (ℕ × ℕ)
two_calls = (1, 2) ∷ (3, 4) ∷ []

fail_all-trips_example :
    ((fail_all other_exception two_calls fresh).fail_count ≡ fresh.fail_count + length two_calls)
    × ((fail_all other_exception two_calls fresh).state
        ≡ (if leb fresh.fail_max (fresh.fail_count + length two_calls) then open_ else closed))
fail_all-trips_example =
    fail_all-trips other_exception two_calls fresh refl refl (omega arith) (omega arith)

abbrev tripped : CircuitBreaker
tripped = record fresh { state = open_; fail_count = 2; opened_at = 4 }

half_open_admits_all_example : starts (70 ∷ 71 ∷ 72 ∷ []) tripped ≡ all_true (70 ∷ 71 ∷ 72 ∷ [])
half_open_admits_all_example = half_open_admits_all 70 (71 ∷ 72 ∷ []) tripped refl (omega arith)

-- A burst of two, one token in ten ticks.
abbrev bucket : TokenBucket
bucket = record { capacity = 2; scale = 10; rate = 1; tokens = 20; last_refill = 0 }

bucket_lem : new_bucket 10 1 2 0 ≡ some bucket
unfolding new_bucket
bucket_lem = refl

abbrev callers : List (List ℕ)
callers = (1 ∷ []) ∷ (1 ∷ []) ∷ (1 ∷ 9 ∷ []) ∷ (12 ∷ []) ∷ []

granted_three : (acquire_all callers bucket).0 ≡ 3
unfolding acquire
granted_three = refl

acquire_all_rate_example :
    let (granted, b') = acquire_all callers bucket in
    (granted * 10 ≤ 2 * 10 + (b'.last_refill - 0) * 1) × (b'.tokens ≤ 2 * 10)
acquire_all_rate_example = acquire_all_rate 10 1 2 0 bucket callers bucket_lem
