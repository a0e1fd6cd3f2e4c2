-- ===== src/Sync/Dispatcher/Handlers.antt =====
-- services/core/app/sync/dispatcher.py: the handlers of new variants and of price overrides, and
-- the dispatch of an event. An error of the domain or of a schema is, to the consumer, another
-- exception. That two listings of a channel may not have one external id is left to the flush of
-- the transaction.
use posnet_adapter.Prelude.{
  ℕ, String, Bool, not, ◌&&◌, Option, none, some, List, [], ◌∷◌, ◌++◌, map, ◌==◌, find?, is_some,
  select, if◌then◌else◌,
}
use posnet_adapter.Prelude.Int.{pos, ◌-ℤ◌, max_ℤ}
use posnet_adapter.Prelude.Exec.{
  Result, ok, err, Exec, pure, gets, lift, raise_if, or_raise, modify, ◌>>=◌, ◌>>◌,
}
use posnet_adapter.CanonicalModel.{CanonicalProduct, CanonicalPrice}
use posnet_adapter.Adapter.Errors.{Failure, other_exception}
use posnet_adapter.Tables.{
  Payload, variant_added, movement_applied, override_set, Scope, visible, Error,
}
use posnet_adapter.Pricing.{ResolvedPrice, resolve_price}
use posnet_adapter.Catalog.{Catalog}
use posnet_adapter.Sync.Canonical.{built, build_canonical_product}
use posnet_adapter.Sync.Guard.{Timing}
use posnet_adapter.Sync.Dispatcher.{
  Channel, ChannelListing, Dispatch, PushStock, sku_of, active_listings, stamp_landed, guarded,
  on_movement_applied,
}

-- `ChannelListingResult` of libs/adapter/protocol.py.
pub record ChannelListingResult : Type 0 where
  pub sku : String
  pub external_listing_id : String
  pub status : String

-- The methods of a channel's adapter that the dispatcher calls.
pub record SyncAdapter (W : Type 0) : Type 0 where
  pub push_listing : List CanonicalProduct → Exec Failure W (List ChannelListingResult)
  pub push_stock : PushStock W
  pub push_price : String → CanonicalPrice → Exec Failure W (Unit {0})

-- `_active_channels`.
abbrev pub active_channels : ℕ → List Channel → List Channel
active_channels tenant channels = select (λ c. c.tenant_id == tenant && c.is_active) channels

abbrev pub is_listing : ℕ → ℕ → ChannelListing → Bool
is_listing channel v l = l.channel_id == channel && l.variant_id == v

abbrev pub pending_row : ℕ → ℕ → ℕ → ChannelListing
pending_row tenant channel v = record {
  tenant_id = tenant;
  channel_id = channel;
  variant_id = v;
  status = "pending";
  external_listing_id = none;
  last_synced_at = none;
}

-- What is sent to a channel that holds back a buffer.
abbrev pub held_back : ℕ → CanonicalProduct → CanonicalProduct
held_back buffer p =
    if buffer == 0 then p else record p { stock_qty = max_ℤ (p.stock_qty -ℤ pos buffer) (pos 0) }

-- The three assignments after a push of a listing that landed.
abbrev pub list_row : ℕ → ℕ → ℕ → ChannelListingResult → ℕ → ChannelListing → ChannelListing
list_row tenant channel v result now l =
    if l.tenant_id == tenant && is_listing channel v l
    then record l {
      external_listing_id = some result.external_listing_id;
      status = result.status;
      last_synced_at = some now;
    }
    else l

-- The price for a channel, whose currency the schema checks.
abbrev pub price_for :
    (String → Bool) → String → Result Error ResolvedPrice → Result Failure CanonicalPrice
price_for is_currency sku (err _) = err other_exception
price_for is_currency sku (ok r) =
    if is_currency r.currency
    then ok (record { sku = sku; price_minor = r.effective_price_minor; currency = r.currency })
    else err other_exception

abbrev pub stock_push : {W : Type 0} → Result Failure (SyncAdapter W) → Result Failure (PushStock W)
stock_push (ok adapter) = ok adapter.push_stock
stock_push (err e) = err e

module _ {W : Type 0} where
  -- `_ensure_listing`; a row of another tenant under the key is refused by the constraint.
  unfoldable pub ensure_listing : ℕ → ℕ → ℕ → Exec Failure (Dispatch W) (Unit {0})
  ensure_listing tenant channel v = do
    own ← gets (λ d. find? (λ l. l.tenant_id == tenant && is_listing channel v l) d.listings)
    taken ← gets (λ d. find? (is_listing channel v) d.listings)
    raise_if (is_some taken && not (is_some own)) other_exception
    modify (λ d.
        if is_some own
        then d
        else record d { listings = d.listings ++ (pending_row tenant channel v ∷ []) })

  abbrev pub list_landed :
      ℕ → ℕ → ℕ → ℕ → Option (List ChannelListingResult) → Dispatch W → Dispatch W
  list_landed tenant channel v now (some (result ∷ _)) d = record d {
    listings = map (list_row tenant channel v result now) d.listings;
  }
  list_landed tenant channel v now _ d = d

  module _ (factory : Channel → Result Failure (SyncAdapter W)) (timing : ℕ → Timing)
      (now : ℕ) where
    -- One round of the loop of `_on_variant_added`.
    unfoldable pub list_one :
        ℕ → ℕ → CanonicalProduct → Channel → Exec Failure (Dispatch W) (Unit {0})
    unfolding ensure_listing
    list_one tenant v p c = do
      ensure_listing tenant c.id v
      adapter ← lift (factory c)
      buffer ← or_raise c.safety_stock other_exception
      results ← guarded c.id (timing c.id) (adapter.push_listing (held_back buffer p ∷ []))
      modify (list_landed tenant c.id v now results)

    unfoldable pub list_all :
        ℕ → ℕ → CanonicalProduct → List Channel → Exec Failure (Dispatch W) (Unit {0})
    unfolding list_one
    list_all tenant v p [] = pure tt
    list_all tenant v p (c ∷ channels) = do list_one tenant v p c; list_all tenant v p channels

    abbrev pub list_shown :
        ℕ → ℕ → List Channel → Option CanonicalProduct → Exec Failure (Dispatch W) (Unit {0})
    list_shown tenant v channels none = pure tt
    list_shown tenant v channels (some p) = list_all tenant v p (active_channels tenant channels)

    -- One round of the loop of `_on_override_set`.
    unfoldable pub price_one :
        CanonicalPrice → ChannelListing → Channel → Exec Failure (Dispatch W) (Unit {0})
    price_one price l c = do
      adapter ← lift (factory c)
      outcome ← guarded c.id (timing c.id) (adapter.push_price price.sku price)
      modify (stamp_landed l now outcome)

    unfoldable pub price_all :
        CanonicalPrice → List (ChannelListing × Channel) → Exec Failure (Dispatch W) (Unit {0})
    unfolding price_one
    price_all price [] = pure tt
    price_all price ((l, c) ∷ pairs) = do price_one price l c; price_all price pairs

    module _ (is_currency : String → Bool) (scope : Scope) (c : Catalog) (channels : List Channel)
        (tenant : ℕ) where
      unfoldable pub on_variant_added : ℕ → Exec Failure (Dispatch W) (Unit {0})
      unfolding list_all
      on_variant_added v = do
        p ← lift (built (build_canonical_product is_currency scope v now c))
        list_shown tenant v channels p

      abbrev pub reprice_sku : ℕ → Option String → Exec Failure (Dispatch W) (Unit {0})
      reprice_sku v none = pure tt
      reprice_sku v (some sku) = do
        price ← lift (price_for is_currency sku (resolve_price scope v now none c.prices).0)
        pairs ← gets (λ d. active_listings v tenant channels d.listings)
        price_all price pairs

      unfoldable pub on_override_set : ℕ → Exec Failure (Dispatch W) (Unit {0})
      unfolding price_all
      on_override_set v =
          reprice_sku v
            (sku_of tenant v (select (λ x. visible scope x.tenant_id) c.prices.db.variants))

      -- `__call__`, for an event of the tenant.
      unfoldable pub dispatch : Payload → Exec Failure (Dispatch W) (Unit {0})
      unfolding on_variant_added on_override_set
      dispatch (variant_added v) = on_variant_added v
      dispatch (movement_applied v w kind qty new_qty new_reserved version) =
          on_movement_applied (λ x. stock_push (factory x)) timing now
            (select (λ x. visible scope x.tenant_id) c.prices.db.variants) channels tenant v new_qty
            new_reserved
      dispatch (override_set v) = on_override_set v
      dispatch _ = pure tt
