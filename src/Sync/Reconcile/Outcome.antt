-- ===== src/Sync/Reconcile/Outcome.antt =====
-- Which errors end a run of the reconciliation.
use posnet_adapter.Prelude.{
  ℕ, String, ◌≡◌, refl, sym, Bool, true, false, ◌||◌, Option, none, some, List, [], ◌∷◌, Bool-cases,
  inl, inr,
}
use posnet_adapter.Prelude.Exec.{Result, ok, err, Exec, Result-cases, pure, lift, ◌>>=◌}
use posnet_adapter.CanonicalModel.{CanonicalProduct}
use posnet_adapter.Adapter.Errors.{Failure, other_exception}
use posnet_adapter.Tables.{Variant, Scope}
use posnet_adapter.Catalog.{Catalog}
use posnet_adapter.Sync.Canonical.{BuildError, built}
use posnet_adapter.Sync.Guard.{ChannelGuard, Timing, call}
use posnet_adapter.Sync.Dispatcher.{Channel}
use posnet_adapter.Sync.Reconcile.{
  ChannelListingSnapshot, ChannelAdapter, is_caught, sift, attempt, repair_stock, repair_price,
  when, repair, compare_listing, against, reconcile_one, price_of, stock_drifts, price_drifts,
  compared, landed, Setting, reconcile_variants, reconcile_channel,
}

-- The step raises no error that a `try` of the run is there to catch.
abbrev pub OnlyUncaught : {S A : Type 0} → Exec Failure S A → Type 0
OnlyUncaught m = (s : _) (e : Failure) → (m s).0 ≡ err e → is_caught e ≡ false

abbrev failed : {A : Type 0} → Failure → Result Failure A
failed e = err e

sift_err : {A : Type 0} (r : Result Failure A) (e : Failure) → sift r ≡ err e → is_caught e ≡ false
sift_err (ok a) e h = cc
sift_err {A} (err x) e h = elim (Bool-cases (is_caught x)) [
  | inl caught ↦ let t : ok (failed {A = A} x) ≡ err e = rw caught at h in cc
  | inr missed ↦
      let t : failed {A = Result Failure A} x ≡ err e = rw missed at h in
      let k : x ≡ e = cc in rw (sym k) missed
]

module _ {S A : Type 0} where
  pure-OnlyUncaught : (a : A) → OnlyUncaught {S = S} (pure a)
  pure-OnlyUncaught a s e h = cc

  attempt-OnlyUncaught : (m : Exec Failure S A) → OnlyUncaught (attempt m)
  attempt-OnlyUncaught m s e h = sift_err (m s).0 e h

bind-OnlyUncaught :
    {S A B : Type 0} (m : Exec Failure S A) (f : A → Exec Failure S B)
    → OnlyUncaught m
    → ((a : A) → OnlyUncaught (f a))
    → OnlyUncaught (m >>= f)
bind-OnlyUncaught {B} m f hm hf s e h = elim (Result-cases (m s).0) [
  | inl (a, fine) ↦ hf a (m s).1 e (rw fine at h)
  | inr (x, raised) ↦
      let t : failed {A = B} x ≡ err e = rw raised at h in
      let k : x ≡ e = cc in rw (sym k) (hm s x raised)
]

built-OnlyUncaught :
    {S : Type 0} (r : Result BuildError (Option CanonicalProduct))
    → OnlyUncaught {S = S} (lift (built r))
built-OnlyUncaught (ok p) s e h = cc
built-OnlyUncaught (err x) s e h = let k : other_exception ≡ e = cc in rw (sym k) refl

module _ {W : Type 0} (channel : Channel) (adapter : ChannelAdapter W) (timing : ℕ → Timing) where
  repair_stock-OnlyUncaught :
      (p : CanonicalProduct) → OnlyUncaught (repair_stock channel adapter timing p)
  unfolding repair_stock
  repair_stock-OnlyUncaught p =
      bind-OnlyUncaught _ _
        (attempt-OnlyUncaught (call channel.id (timing 1) (adapter.push_stock p.sku p.stock_qty)))
        (λ r. pure-OnlyUncaught (landed r))

  repair_price-OnlyUncaught :
      (p : CanonicalProduct) → OnlyUncaught (repair_price channel adapter timing p)
  unfolding repair_price
  repair_price-OnlyUncaught p =
      bind-OnlyUncaught _ _
        (attempt-OnlyUncaught (call channel.id (timing 2) (adapter.push_price p.sku (price_of p))))
        (λ r. pure-OnlyUncaught (landed r))

  when-OnlyUncaught :
      (b : Bool) (m : Exec Failure (ChannelGuard × W) Bool)
      → OnlyUncaught m
      → OnlyUncaught (when channel adapter timing b m)
  when-OnlyUncaught true m h = h
  when-OnlyUncaught false m h = pure-OnlyUncaught false

  repair-OnlyUncaught :
      (p : CanonicalProduct) (stock price : Bool)
      → OnlyUncaught (repair channel adapter timing p stock price)
  unfolding repair
  repair-OnlyUncaught p stock price =
      bind-OnlyUncaught _ _ (when-OnlyUncaught stock _ (repair_stock-OnlyUncaught p)) (λ stocked.
        bind-OnlyUncaught _ _ (when-OnlyUncaught price _ (repair_price-OnlyUncaught p))
          (λ priced. pure-OnlyUncaught (stocked || priced)))

  compare-OnlyUncaught :
      (sku : String) (p : CanonicalProduct) (r : Result Failure (Option ChannelListingSnapshot))
      → OnlyUncaught (compare_listing channel adapter timing sku p r)
  unfolding compare_listing
  compare-OnlyUncaught sku p (err e) = pure-OnlyUncaught _
  compare-OnlyUncaught sku p (ok none) = pure-OnlyUncaught _
  compare-OnlyUncaught sku p (ok (some s)) =
      bind-OnlyUncaught _ _
        (when-OnlyUncaught _ _ (repair-OnlyUncaught p (stock_drifts s p) (price_drifts s p)))
        (λ repaired. pure-OnlyUncaught (compared sku channel.code p s repaired))

  against-OnlyUncaught :
      (sku : String) (o : Option CanonicalProduct)
      → OnlyUncaught (against channel adapter timing sku o)
  against-OnlyUncaught sku none = pure-OnlyUncaught _
  against-OnlyUncaught sku (some p) =
      bind-OnlyUncaught _ _
        (attempt-OnlyUncaught (call channel.id (timing 0) (adapter.fetch_listing sku)))
        (λ r. compare-OnlyUncaught sku p r)

  reconcile_one-OnlyUncaught :
      (is_currency : String → Bool) (scope : Scope) (c : Catalog) (at : ℕ) (v : Variant)
      → OnlyUncaught (reconcile_one channel adapter timing is_currency scope c at v)
  unfolding reconcile_one
  reconcile_one-OnlyUncaught is_currency scope c at v =
      bind-OnlyUncaught _ _ (built-OnlyUncaught _) (λ o. against-OnlyUncaught v.sku o)

module _ {W : Type 0} (x : Setting) (channel : Channel) (adapter : ChannelAdapter W) where
  reconcile_variants-OnlyUncaught :
      (rows : List Variant) → OnlyUncaught (reconcile_variants x channel adapter rows)
  unfolding reconcile_variants
  reconcile_variants-OnlyUncaught [] = pure-OnlyUncaught []
  reconcile_variants-OnlyUncaught (v ∷ rows) =
      bind-OnlyUncaught _ _
        (reconcile_one-OnlyUncaught channel adapter (x.timing channel.id v.id) x.is_currency x.scope
          x.catalog (x.clock v.id) v)
        (λ r.
          bind-OnlyUncaught _ _ (reconcile_variants-OnlyUncaught rows)
            (λ rest. pure-OnlyUncaught (r ∷ rest)))

  -- Whatever the channel does, the run over its listings is ended by no error of an adapter and by
  -- no open breaker: what ends it is the limiter's timeout or another exception.
  pub reconcile_channel-OnlyUncaught :
      (s : ChannelGuard × W) (e : Failure)
      → (reconcile_channel x channel adapter s).0 ≡ err e
      → is_caught e ≡ false
  unfolding reconcile_channel
  reconcile_channel-OnlyUncaught s e h = reconcile_variants-OnlyUncaught _ s e h
