-- ===== src/Sync/Guard.antt =====
-- services/core/app/sync/guard.py: the bucket and the breaker of each channel. The clock readings
-- that one call makes come with it as its `Timing`; a dict is the function of its lookups.
pub mod Isolation
pub mod Runs
use posnet_adapter.Prelude.{ℕ, Bool, true, false, Option, none, some, List, ◌==◌, if◌then◌else◌}
use posnet_adapter.Prelude.Exec.{Result, ok, err, Exec}
use posnet_adapter.Adapter.Errors.{
  Failure, adapter_error, breaker_open, rate_timeout, other_exception, is_excluded, is_final,
}
use posnet_adapter.Adapter.Breaker.{CircuitBreaker, new_breaker}
use posnet_adapter.Adapter.Breaker as Breaker
use posnet_adapter.Adapter.Bucket.{TokenBucket, new_bucket, acquire}

pub record GuardConfig : Type 0 where
  pub scale : ℕ
  pub rate : ℕ
  pub rate_burst : ℕ
  pub breaker_fail_max : ℕ
  pub breaker_reset : ℕ

pub record ChannelGuard : Type 0 where
  pub config : GuardConfig
  pub limiters : ℕ → Option TokenBucket
  pub breakers : ℕ → Option CircuitBreaker

-- The clock: as a bucket is made, as the bucket is read, as the call starts and ends.
pub record Timing : Type 0 where
  pub made : ℕ
  pub readings : List ℕ
  pub start : ℕ
  pub end : ℕ

abbrev pub put : {A : Type 0} → ℕ → A → (ℕ → Option A) → ℕ → Option A
put k a m j = if j == k then some a else m j

abbrev or_new : {A : Type 0} → Option A → Option A → Option A
or_new (some a) new = some a
or_new none new = new

-- `_limiter_for` and `_breaker_for`; `none` is the `ValueError` of the constructor.
unfoldable pub limiter_for : ℕ → ℕ → ChannelGuard → Option TokenBucket
limiter_for id now g =
    or_new (g.limiters id) (new_bucket g.config.scale g.config.rate g.config.rate_burst now)

unfoldable pub breaker_for : ℕ → ChannelGuard → Option CircuitBreaker
breaker_for id g =
    or_new (g.breakers id)
      (new_breaker g.config.breaker_fail_max g.config.breaker_reset is_excluded)

module _ {W A : Type 0} (id : ℕ) (t : Timing) (op : Exec Failure W A) where
  abbrev pub with_breaker : Option CircuitBreaker → Exec Failure (ChannelGuard × W) A
  with_breaker none (g, w) = (err other_exception, (g, w))
  with_breaker (some b) (g, w) =
      let (r, (b', w')) = Breaker.call t.start t.end op (b, w) in
      (r, (record g { breakers = put id b' g.breakers }, w'))

  abbrev pub with_limiter : Option TokenBucket → Exec Failure (ChannelGuard × W) A
  with_limiter none (g, w) = (err other_exception, (g, w))
  with_limiter (some b) (g, w) =
      let (granted, b') = acquire t.readings b in
      let g' = record g { limiters = put id b' g.limiters } in
      if granted then with_breaker (breaker_for id g') (g', w) else (err rate_timeout, (g', w))

  -- `call`.
  unfoldable pub call : Exec Failure (ChannelGuard × W) A
  unfolding breaker_for limiter_for
  call (g, w) = with_limiter (limiter_for id t.made g) (g, w)

-- `SyncDispatcher._guard` of services/core/app/sync/dispatcher.py: which outcomes are skipped,
-- `none`, and which go up.
abbrev pub classify : {A : Type 0} → Result Failure A → Result Failure (Option A)
classify (ok a) = ok (some a)
classify (err breaker_open) = ok none
classify (err (adapter_error e)) = if is_final e.kind then ok none else err (adapter_error e)
classify (err e) = err e
