-- ===== src/Sync/Guard/Runs.antt =====
-- What a call through the guard that returns has done.
use posnet_adapter.Prelude.{
  ℕ, ◌≡◌, refl, sym, Bool, true, false, Option, none, some, Bool-cases, inl, inr, if◌then◌else◌,
}
use posnet_adapter.Prelude.Exec.{Result, ok, err, Exec}
use posnet_adapter.Adapter.Errors.{Failure, breaker_open, rate_timeout}
use posnet_adapter.Adapter.Breaker as Breaker
use posnet_adapter.Adapter.Breaker.{CircuitBreaker, admit, settle}
use posnet_adapter.Adapter.Bucket.{TokenBucket, acquire}
use posnet_adapter.Sync.Guard.{
  ChannelGuard, Timing, put, limiter_for, breaker_for, with_breaker, with_limiter, call,
}

pair_path : {A B : Type 0} {p : A × B} {a : A} → p.0 ≡ a → p ≡ (a, p.1)
pair_path h = rw (sym h) refl

module _ {W A : Type 0} (id : ℕ) (t : Timing) (op : Exec Failure W A) (w : W) (a : A) where
  -- The call after `_maybe_recover`.
  abbrev admitted : Bool → CircuitBreaker → Result Failure A × (CircuitBreaker × W)
  admitted let_in b =
      if let_in
      then (let (r, w') = op w in (r, (settle t.end r b, w')))
      else (err breaker_open, (b, w))

  admitted_runs :
      (let_in : Bool) (b : CircuitBreaker)
      → (admitted let_in b).0 ≡ ok a
      → op w ≡ (ok a, (admitted let_in b).1.1)
  admitted_runs true b h = pair_path h
  admitted_runs false b h = cc

  breaker_runs :
      (b : CircuitBreaker)
      → (Breaker.call t.start t.end op (b, w)).0 ≡ ok a
      → op w ≡ (ok a, (Breaker.call t.start t.end op (b, w)).1.1)
  unfolding Breaker.call
  breaker_runs b h = admitted_runs (admit t.start b).0 (admit t.start b).1 h

  with_breaker_runs :
      (o : Option CircuitBreaker) (g : ChannelGuard)
      → (with_breaker id t op o (g, w)).0 ≡ ok a
      → op w ≡ (ok a, (with_breaker id t op o (g, w)).1.1)
  with_breaker_runs none g h = cc
  with_breaker_runs (some b) g h = breaker_runs b h

  with_limiter_runs :
      (o : Option TokenBucket) (g : ChannelGuard)
      → (with_limiter id t op o (g, w)).0 ≡ ok a
      → op w ≡ (ok a, (with_limiter id t op o (g, w)).1.1)
  with_limiter_runs none g h = cc
  with_limiter_runs (some b) g h =
      let g' = record g { limiters = put id (acquire t.readings b).1 g.limiters } in
      elim (Bool-cases (acquire t.readings b).0) [
        | inl granted ↦ rw granted (with_breaker_runs (breaker_for id g') g' (rw granted at h))
        | inr late ↦ let k : err rate_timeout ≡ ok a = rw late at h in cc
      ]

  -- A call through the guard that returns has run what it was given, once, and returns what that
  -- returned.
  pub call_runs :
      (g : ChannelGuard) → (call id t op (g, w)).0 ≡ ok a → op w ≡ (ok a, (call id t op (g, w)).1.1)
  unfolding call
  call_runs g h = with_limiter_runs (limiter_for id t.made g) g h
