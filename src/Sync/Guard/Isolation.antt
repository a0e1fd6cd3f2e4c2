-- ===== src/Sync/Guard/Isolation.antt =====
-- One channel's calls against the state of another's.
use posnet_adapter.Prelude.{
  ℕ, ◌+◌, ◌≡◌, refl, ap, ◌∙◌, leb, Bool, true, false, Option, none, some, ◌==◌, Bool-cases, inl,
  inr,
}
use posnet_adapter.Prelude.Exec.{Result, ok, err, Exec}
use posnet_adapter.Adapter.Errors.{Failure, breaker_open}
use posnet_adapter.Adapter.Breaker.{CircuitBreaker, open_}
use posnet_adapter.Adapter.Breaker.Trips.{call_open}
use posnet_adapter.Adapter.Bucket.{TokenBucket, acquire}
use posnet_adapter.Sync.Guard.{
  ChannelGuard, Timing, put, limiter_for, breaker_for, with_breaker, with_limiter, call,
}

module _ {W A : Type 0} (id k : ℕ) (t : Timing) (op : Exec Failure W A)
    (other : (k == id) ≡ false) where
  abbrev Same : ChannelGuard → ChannelGuard → Type 0
  Same g g' = (g'.limiters k ≡ g.limiters k) × (g'.breakers k ≡ g.breakers k)

  with_breaker-Same :
      (b : Option CircuitBreaker) (g : ChannelGuard) (w : W)
      → Same g (with_breaker id t op b (g, w)).1.0
  with_breaker-Same none g w = (refl, refl)
  with_breaker-Same (some b) g w = (refl, rw (other, put) refl)

  with_limiter-Same :
      (b : Option TokenBucket) (g : ChannelGuard) (w : W)
      → Same g (with_limiter id t op b (g, w)).1.0
  with_limiter-Same none g w = (refl, refl)
  with_limiter-Same (some b) g w =
      let g' = record g { limiters = put id (acquire t.readings b).1 g.limiters } in
      let (limiters, breakers) = with_breaker-Same (breaker_for id g') g' w in
      elim (Bool-cases (acquire t.readings b).0) [
        | inl granted ↦ rw granted (limiters ∙ rw (other, put) refl, breakers)
        | inr late ↦ rw late (rw (other, put) refl, refl)
      ]

  -- A call for one channel, however it ends, leaves the bucket and the breaker of every other
  -- channel as they were.
  pub call_isolated :
      (g : ChannelGuard) (w : W)
      → let g' = (call id t op (g, w)).1.0 in
        (g'.limiters k ≡ g.limiters k) × (g'.breakers k ≡ g.breakers k)
  unfolding call
  call_isolated g w = with_limiter-Same (limiter_for id t.made g) g w

abbrev pub is_ok : {A : Type 0} → Result Failure A → Bool
is_ok (ok _) = true
is_ok (err _) = false

module _ {W A : Type 0} (id : ℕ) (t : Timing) (op : Exec Failure W A) (w : W)
    (b : CircuitBreaker) where
  cooling_breaker :
      (g : ChannelGuard)
      → b.state ≡ open_
      → leb (b.opened_at + b.reset_timeout) t.start ≡ false
      → with_breaker id t op (some b) (g, w)
        ≡ (err breaker_open, (record g { breakers = put id b g.breakers }, w))
  cooling_breaker g opened cooling =
      ap
        (λ (x : Result Failure A × (CircuitBreaker × W)).
          (x.0, (record g { breakers = put id x.1.0 g.breakers }, x.1.1)))
        (call_open t.start t.end op b w opened ∙ rw cooling refl)

  breaker_held : (g : ChannelGuard) → g.breakers id ≡ some b → breaker_for id g ≡ some b
  unfolding breaker_for
  breaker_held g held = rw held refl

  cooling_limiter :
      (g : ChannelGuard)
      → g.breakers id ≡ some b
      → b.state ≡ open_
      → leb (b.opened_at + b.reset_timeout) t.start ≡ false
      → (l : Option TokenBucket)
      → ((with_limiter id t op l (g, w)).1.1 ≡ w)
        × (is_ok (with_limiter id t op l (g, w)).0 ≡ false)
  cooling_limiter g held opened cooling none = (refl, refl)
  cooling_limiter g held opened cooling (some l) = elim (Bool-cases (acquire t.readings l).0) [
    | inl granted ↦
        let g' = record g { limiters = put id (acquire t.readings l).1 g.limiters } in
        let e =
          ap (λ o. with_breaker id t op o (g', w)) (breaker_held g' held)
          ∙ cooling_breaker g' opened cooling in
        rw granted (rw e (refl, refl))
    | inr late ↦ rw late (refl, refl)
  ]

  -- While a channel's breaker is open and its cooldown has not passed, a call for it raises, and
  -- what it was to run is not run.
  pub call_cooling :
      (g : ChannelGuard)
      → g.breakers id ≡ some b
      → b.state ≡ open_
      → leb (b.opened_at + b.reset_timeout) t.start ≡ false
      → ((call id t op (g, w)).1.1 ≡ w) × (is_ok (call id t op (g, w)).0 ≡ false)
  unfolding call
  call_cooling g held opened cooling =
      cooling_limiter g held opened cooling (limiter_for id t.made g)
