-- ===== src/Tests/Listings.antt =====
-- A run of the reconciliation over one listing: services/core/app/sync/reconcile.py. The world is
-- the listing that the channel has.
use posnet_adapter.Prelude.{
  ℕ, String, Bool, ◌≡◌, refl, sym, ap, ◌∙◌, true, false, Option, none, some, [], ◌∷◌,
}
use posnet_adapter.Prelude.Int.{ℤ, pos, ◌+ℤ◌, ◌-ℤ◌}
use posnet_adapter.Prelude.Exec.{Result, ok, err}
use posnet_adapter.CanonicalModel.{CanonicalProduct, active}
use posnet_adapter.Adapter.Errors.{Failure, rate_timeout}
use posnet_adapter.Adapter.Breaker as Breaker
use posnet_adapter.Adapter.Breaker.{new_breaker}
use posnet_adapter.Adapter.Bucket.{new_bucket, acquire}
use posnet_adapter.Sync.Canonical.{build_canonical_product}
use posnet_adapter.Sync.Guard.{ChannelGuard, Timing, call}
use posnet_adapter.Sync.Dispatcher.{Channel}
use posnet_adapter.Sync.Reconcile.{
  ChannelListingSnapshot, ChannelAdapter, ListingReconcileResult, ReconcileReport, Setting, Made,
  made, is_caught, repair_stock, reconcile_one, reconcile_channel, reconcile_channels,
  reconcile_tenant,
}
use posnet_adapter.Sync.Reconcile.Outcome.{reconcile_channel-OnlyUncaught}
use posnet_adapter.Sync.Reconcile.Faithful.{IsFaithful, Agrees}
use posnet_adapter.Sync.Reconcile.Healing.{reconcile_one_heals, reconcile_one_rests}
use posnet_adapter.Tests.Prices.{tea, catalog, any_currency}
use posnet_adapter.Tests.Dispatch.{guard, web, listing}

abbrev adapter : ChannelAdapter ChannelListingSnapshot
adapter = record {
  fetch_listing = λ sku w. (ok (some w), w);
  push_stock = λ sku q w. (ok tt, record w { stock = q });
  push_price = λ sku c w. (ok tt, record w { price_minor = c.price_minor; currency = c.currency });
}

abbrev listed : String → ChannelListingSnapshot → Option ChannelListingSnapshot
listed sku w = some w

abbrev pushed :
    (ChannelListingSnapshot → ChannelListingSnapshot)
    → ChannelListingSnapshot
    → Result Failure (Unit {0}) × ChannelListingSnapshot
pushed f w = (ok tt, f w)

pushed_lem :
    (f : ChannelListingSnapshot → ChannelListingSnapshot) (w w' s : ChannelListingSnapshot)
    (a : Unit {0})
    → pushed f w ≡ (ok a, w')
    → some w ≡ some s
    → some w' ≡ some (f s)
pushed_lem f w w' s a h there =
    let e : w ≡ s = cc in sym (ap (λ x. some x.1) h) ∙ ap (λ x. some (f x)) e

abbrev fetched :
    ChannelListingSnapshot → Result Failure (Option ChannelListingSnapshot) × ChannelListingSnapshot
fetched w = (ok (some w), w)

fetched_lem :
    (w w' : ChannelListingSnapshot) (o : Option ChannelListingSnapshot)
    → fetched w ≡ (ok o, w')
    → (some w ≡ o) × (some w' ≡ o)
fetched_lem w w' o h = let e : some w ≡ o = cc in (e, sym (ap (λ x. some x.1) h) ∙ e)

adapter-IsFaithful : IsFaithful adapter listed
adapter-IsFaithful = record {
  fetch_reads = λ sku w w' o h. fetched_lem w w' o h;
  stock_lands = λ sku q w w' a s h there. pushed_lem (λ x. record x { stock = q }) w w' s a h there;
  price_lands = λ sku c w w' a s h there.
      pushed_lem (λ x. record x { price_minor = c.price_minor; currency = c.currency }) w w' s a h
        there;
}

abbrev roomy : ChannelGuard
roomy = record guard { config = record guard.config { rate_burst = 10 } }

abbrev timing : ℕ → Timing
timing _ = record { made = 110; readings = 110 ∷ []; start = 111; end = 112 }

-- The tea as the POS has it: five of seven free, and an override of the price.
abbrev pos_tea : CanonicalProduct
pos_tea = record {
  sku = "TEA";
  barcode = none;
  name = "Tea";
  attributes = [];
  category_path = [];
  price_minor = pos 200;
  currency = "AZN";
  stock_qty = pos 5;
  images = [];
  status = active;
}

tea_shown : build_canonical_product any_currency (some 1) 5 15 catalog ≡ ok (some pos_tea)
unfolding build_canonical_product ◌+ℤ◌ ◌-ℤ◌
tea_shown = refl

abbrev listing_of : ℤ → ChannelListingSnapshot
listing_of stock = record { stock = stock; price_minor = pos 200; currency = "AZN" }

abbrev outcome : ℤ → Bool → ListingReconcileResult
outcome stock drift = record {
  sku = "TEA";
  channel_code = "web";
  pos_stock = some (pos 5);
  channel_stock = some stock;
  stock_drift = drift;
  price_drift = false;
  repaired = drift;
  note = none;
}

-- `_reconcile_one` of the tea, on the channel's listing.
abbrev one :
    ChannelListingSnapshot
    → Result Failure ListingReconcileResult × (ChannelGuard × ChannelListingSnapshot)
one w = reconcile_one web adapter timing any_currency (some 1) catalog 15 tea (roomy, w)

drifted_run : one (listing_of (pos 1)) ≡ (ok (outcome (pos 1) true), (one (listing_of (pos 1))).1)
unfolding reconcile_one repair_stock build_canonical_product call new_bucket acquire new_breaker
    Breaker.call ◌+ℤ◌ ◌-ℤ◌
drifted_run = refl

reconcile_one_heals_example : Agrees (listed "TEA" (one (listing_of (pos 1))).1.1) pos_tea
reconcile_one_heals_example =
    reconcile_one_heals web adapter listed adapter-IsFaithful timing pos_tea any_currency (some 1)
      catalog 15 tea tea_shown refl roomy (listing_of (pos 1)) (outcome (pos 1) true) _ drifted_run
      refl refl refl

level_run : one (listing_of (pos 5)) ≡ (ok (outcome (pos 5) false), (one (listing_of (pos 5))).1)
unfolding reconcile_one build_canonical_product call new_bucket acquire new_breaker Breaker.call
    ◌+ℤ◌ ◌-ℤ◌
level_run = refl

reconcile_one_rests_example :
    (false ≡ false)
    × (false ≡ false)
    × ((one (listing_of (pos 5))).1
        ≡ (call 1 (timing 0) (adapter.fetch_listing "TEA") (roomy, listing_of (pos 5))).1)
reconcile_one_rests_example =
    reconcile_one_rests web adapter listed adapter-IsFaithful timing pos_tea any_currency (some 1)
      catalog 15 tea tea_shown refl roomy (listing_of (pos 5)) (outcome (pos 5) false) _ level_run
      (listing_of (pos 5), refl, refl, refl, refl)

-- `late` has no reading at which the bucket has a token.
abbrev late : ℕ → Timing
late _ = record { made = 110; readings = []; start = 111; end = 112 }

abbrev setting : (ℕ → Timing) → Setting
setting readings = record {
  is_currency = any_currency;
  scope = some 1;
  catalog = catalog;
  listings = record (listing 1 5) { external_listing_id = some "L-1" } ∷ [];
  channels = web ∷ [];
  before = λ a b. true;
  clock = λ v. 15;
  timing = λ channel v. readings;
}

abbrev start : ChannelGuard × ChannelListingSnapshot
start = (roomy, listing_of (pos 1))

call-late :
    call 1 (late 0) (adapter.fetch_listing "TEA") start
    ≡ (err rate_timeout, (call 1 (late 0) (adapter.fetch_listing "TEA") start).1)
unfolding call new_bucket acquire
call-late = refl

late_run : (reconcile_channel (setting late) web adapter start).0 ≡ err rate_timeout
unfolding reconcile_channel reconcile_one build_canonical_product call new_bucket acquire ◌+ℤ◌ ◌-ℤ◌
late_run = refl

reconcile_channel-OnlyUncaught_example : is_caught rate_timeout ≡ false
reconcile_channel-OnlyUncaught_example =
    reconcile_channel-OnlyUncaught (setting late) web adapter start rate_timeout late_run

abbrev report : ReconcileReport
report = record { checked = 1; drifted = 1; repaired = 1; results = outcome (pos 1) true ∷ [] }

abbrev factory : Channel → Made ChannelListingSnapshot
factory _ = made adapter

reported : (reconcile_tenant (setting timing) factory start).0 ≡ ok report
unfolding reconcile_tenant reconcile_channels reconcile_channel reconcile_one repair_stock
    build_canonical_product call new_bucket acquire new_breaker Breaker.call ◌+ℤ◌ ◌-ℤ◌
reported = refl
