-- ===== src/Tests/Dispatch.antt =====
-- Two channels, one of them with an open breaker: services/core/app/sync/guard.py and
-- services/core/app/sync/dispatcher.py.
use posnet_adapter.Prelude.{
  ℕ, String, ◌≡◌, refl, true, Option, none, some, List, [], ◌∷◌, ◌++◌, map,
}
use posnet_adapter.Prelude.Int.{ℤ, pos, ◌+ℤ◌, ◌-ℤ◌}
use posnet_adapter.Prelude.Exec.{Result, ok}
use posnet_adapter.Adapter.Errors.{Failure, is_excluded}
use posnet_adapter.Adapter.Breaker.{CircuitBreaker, open_}
use posnet_adapter.Adapter.Bucket.{TokenBucket}
use posnet_adapter.Sync.Guard.{ChannelGuard, Timing, put, call}
use posnet_adapter.Sync.Guard.Isolation.{call_isolated}
use posnet_adapter.Sync.Dispatcher.{Channel, ChannelListing, Dispatch, PushStock, guarded}
use posnet_adapter.Sync.Dispatcher.Handlers.{
  ChannelListingResult, SyncAdapter, list_one, on_variant_added, dispatch,
}
use posnet_adapter.Sync.Dispatcher.Tenants.{foreign, dispatch-foreign}
use posnet_adapter.Tables.{variant_added}
use posnet_adapter.Adapter.Breaker as Breaker
use posnet_adapter.Adapter.Breaker.{new_breaker}
use posnet_adapter.Adapter.Bucket.{new_bucket, acquire}
use posnet_adapter.Sync.Canonical.{build_canonical_product}
use posnet_adapter.Tests.Prices.{catalog, any_currency}

abbrev tripped : CircuitBreaker
tripped = record {
  excluded = is_excluded;
  fail_max = 2;
  reset_timeout = 60;
  state = open_;
  fail_count = 2;
  opened_at = 100;
}

abbrev no_bucket : ℕ → Option TokenBucket
no_bucket _ = none

abbrev no_breaker : ℕ → Option CircuitBreaker
no_breaker _ = none

abbrev pub guard : ChannelGuard
guard = record {
  config = record { scale = 1; rate = 1; rate_burst = 1; breaker_fail_max = 2; breaker_reset = 60 };
  limiters = no_bucket;
  breakers = put 2 tripped no_breaker;
}

abbrev timing : ℕ → Timing
timing _ = record { made = 110; readings = 110 ∷ []; start = 111; end = 112 }

-- The world is the list of the pushes.
abbrev push : PushStock (List (String × ℤ))
push sku qty w = (ok tt, w ++ ((sku, qty) ∷ []))

abbrev factory : Channel → Result Failure (PushStock (List (String × ℤ)))
factory _ = ok push

abbrev pub web : Channel
web = record { id = 1; tenant_id = 1; code = "web"; is_active = true; safety_stock = some 2 }

abbrev pub listing : ℕ → ℕ → ChannelListing
listing channel v = record {
  tenant_id = 1;
  channel_id = channel;
  variant_id = v;
  status = "active";
  external_listing_id = none;
  last_synced_at = none;
}

abbrev state : Dispatch (List (String × ℤ))
state = record { listings = listing 1 5 ∷ listing 1 6 ∷ []; guard = guard; world = [] }

call_isolated_example :
    let g' = (call 1 (timing 1) (push "TEA" (pos 3)) (guard, [])).1.0 in
    (g'.limiters 2 ≡ guard.limiters 2) × (g'.breakers 2 ≡ guard.breakers 2)
call_isolated_example = call_isolated 1 2 (timing 1) (push "TEA" (pos 3)) refl guard []

abbrev listed_tea : ChannelListingResult
listed_tea = record { sku = "TEA"; external_listing_id = "W-1"; status = "active" }

abbrev web_adapter : SyncAdapter (List (String × ℤ))
web_adapter = record {
  push_listing =
      λ products w. (ok (listed_tea ∷ []), w ++ map (λ p. (p.sku, p.stock_qty)) products);
  push_stock = push;
  push_price = λ sku price w. (ok tt, w ++ ((sku, price.price_minor) ∷ []));
}

abbrev adapters : Channel → Result Failure (SyncAdapter (List (String × ℤ)))
adapters _ = ok web_adapter

abbrev fresh : Dispatch (List (String × ℤ))
fresh = record state { listings = record (listing 9 5) { tenant_id = 2 } ∷ [] }

-- Five of seven units are free, and the channel holds back two.
variant_listed :
    let d =
      (dispatch adapters timing 15 any_currency none catalog
        (web ∷ [])
        1
        (variant_added 5)
        fresh).1 in
    (d.world ≡ (("TEA", pos 3) ∷ []))
    × (d.listings
        ≡ record (listing 9 5) { tenant_id = 2 }
          ∷ record (listing 1 5) { external_listing_id = some "W-1"; last_synced_at = some 15 }
          ∷ [])
unfolding dispatch on_variant_added list_one build_canonical_product call new_bucket acquire
    new_breaker Breaker.call guarded ◌+ℤ◌ ◌-ℤ◌
variant_listed = (refl, refl)

dispatch-foreign_example :
    foreign 1
      (dispatch adapters timing 15 any_currency none catalog
        (web ∷ [])
        1
        (variant_added 5)
        fresh).1.listings
    ≡ foreign 1 fresh.listings
dispatch-foreign_example =
    dispatch-foreign 1 timing 15 adapters any_currency none catalog (web ∷ []) (variant_added 5)
      fresh
