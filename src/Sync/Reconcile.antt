-- ===== src/Sync/Reconcile.antt =====
-- services/core/app/sync/reconcile.py. A run reads the tables and only calls the channels, so its
-- state is the guard and the world `W` behind the adapters. `timing` has the clock readings of the
-- calls for a listing: 0 for the fetch, 1 for the push of stock, 2 for that of the price.
pub mod Faithful
pub mod Outcome
pub mod Healing
pub mod Report
use posnet_adapter.Prelude.{
  ℕ, suc, ◌+◌, String, Bool, true, false, not, ◌&&◌, ◌||◌, Option, none, some, List, [], ◌∷◌, ◌++◌,
  ◌==◌, is_some, select, sort_by, length, if◌then◌else◌, str_eq,
}
use posnet_adapter.Prelude.Int.{ℤ, ◌==ℤ◌}
use posnet_adapter.Prelude.Exec.{Result, ok, err, Exec, pure, raise, lift, ◌>>=◌, ◌>>◌}
use posnet_adapter.CanonicalModel.{CanonicalProduct, CanonicalPrice}
use posnet_adapter.Adapter.Errors.{Failure, adapter_error, breaker_open}
use posnet_adapter.Tables.{Variant, Scope, visible}
use posnet_adapter.Catalog.{Catalog}
use posnet_adapter.Sync.Canonical.{built, build_canonical_product}
use posnet_adapter.Sync.Guard.{ChannelGuard, Timing, call}
use posnet_adapter.Sync.Dispatcher.{Channel, ChannelListing, is_live}

-- `ChannelListingSnapshot` of libs/adapter/protocol.py, the fields that a run compares.
pub record ChannelListingSnapshot : Type 0 where
  pub stock : ℤ
  pub price_minor : ℤ
  pub currency : String

-- The methods of a channel's adapter that a run calls.
pub record ChannelAdapter (W : Type 0) : Type 0 where
  pub fetch_listing : String → Exec Failure W (Option ChannelListingSnapshot)
  pub push_stock : String → ℤ → Exec Failure W (Unit {0})
  pub push_price : String → CanonicalPrice → Exec Failure W (Unit {0})

pub data Note : Type 0 where
  unpublished not_listed : Note
  fetch_failed : Failure → Note

pub record ListingReconcileResult : Type 0 where
  pub sku : String
  pub channel_code : String
  pub pos_stock : Option ℤ
  pub channel_stock : Option ℤ
  pub stock_drift : Bool
  pub price_drift : Bool
  pub repaired : Bool
  pub note : Option Note

pub record ReconcileReport : Type 0 where
  pub checked : ℕ
  pub drifted : ℕ
  pub repaired : ℕ
  pub results : List ListingReconcileResult

-- `_skip`.
abbrev pub skip : String → String → Option ℤ → Note → ListingReconcileResult
skip sku code pos_stock note = record {
  sku = sku;
  channel_code = code;
  pos_stock = pos_stock;
  channel_stock = none;
  stock_drift = false;
  price_drift = false;
  repaired = false;
  note = some note;
}

-- `except (AdapterError, CircuitBreakerOpenError)`.
abbrev pub is_caught : Failure → Bool
is_caught (adapter_error _) = true
is_caught breaker_open = true
is_caught _ = false

abbrev pub sift : {A : Type 0} → Result Failure A → Result Failure (Result Failure A)
sift (ok a) = ok (ok a)
sift (err e) = if is_caught e then ok (err e) else err e

-- A `try` with that clause.
abbrev pub attempt : {S A : Type 0} → Exec Failure S A → Exec Failure S (Result Failure A)
attempt m s = let (r, s') = m s in (sift r, s')

abbrev pub landed : {A : Type 0} → Result Failure A → Bool
landed (ok _) = true
landed (err _) = false

abbrev pub stock_drifts : ChannelListingSnapshot → CanonicalProduct → Bool
stock_drifts s p = not (s.stock ==ℤ p.stock_qty)

abbrev pub price_drifts : ChannelListingSnapshot → CanonicalProduct → Bool
price_drifts s p = not (s.price_minor ==ℤ p.price_minor) || not (str_eq s.currency p.currency)

abbrev pub price_of : CanonicalProduct → CanonicalPrice
price_of p = record { sku = p.sku; price_minor = p.price_minor; currency = p.currency }

abbrev pub compared :
    String → String → CanonicalProduct → ChannelListingSnapshot → Bool → ListingReconcileResult
compared sku code p s repaired = record {
  sku = sku;
  channel_code = code;
  pos_stock = some p.stock_qty;
  channel_stock = some s.stock;
  stock_drift = stock_drifts s p;
  price_drift = price_drifts s p;
  repaired = repaired;
  note = none;
}

module _ {W : Type 0} (channel : Channel) (adapter : ChannelAdapter W) (timing : ℕ → Timing) where
  -- The two halves of `_repair`: whether the push landed.
  unfoldable pub repair_stock : CanonicalProduct → Exec Failure (ChannelGuard × W) Bool
  repair_stock p = do
    r ← attempt (call channel.id (timing 1) (adapter.push_stock p.sku p.stock_qty))
    pure (landed r)

  unfoldable pub repair_price : CanonicalProduct → Exec Failure (ChannelGuard × W) Bool
  repair_price p = do
    r ← attempt (call channel.id (timing 2) (adapter.push_price p.sku (price_of p)))
    pure (landed r)

  abbrev pub when :
      Bool → Exec Failure (ChannelGuard × W) Bool → Exec Failure (ChannelGuard × W) Bool
  when true m = m
  when false m = pure false

  unfoldable pub repair : CanonicalProduct → Bool → Bool → Exec Failure (ChannelGuard × W) Bool
  repair p stock_drift price_drift = do
    stocked ← when stock_drift (repair_stock p)
    priced ← when price_drift (repair_price p)
    pure (stocked || priced)

  -- From the snapshot on; a repair is tried only if there is a drift.
  unfoldable pub compare_listing :
      String
      → CanonicalProduct
      → Result Failure (Option ChannelListingSnapshot)
      → Exec Failure (ChannelGuard × W) ListingReconcileResult
  unfolding repair
  compare_listing sku p (err e) = pure (skip sku channel.code (some p.stock_qty) (fetch_failed e))
  compare_listing sku p (ok none) = pure (skip sku channel.code (some p.stock_qty) not_listed)
  compare_listing sku p (ok (some s)) = do
    repaired ←
        when (stock_drifts s p || price_drifts s p) (repair p (stock_drifts s p) (price_drifts s p))
    pure (compared sku channel.code p s repaired)

  abbrev pub against :
      String → Option CanonicalProduct → Exec Failure (ChannelGuard × W) ListingReconcileResult
  against sku none = pure (skip sku channel.code none unpublished)
  against sku (some p) = do
    fetched ← attempt (call channel.id (timing 0) (adapter.fetch_listing sku))
    compare_listing sku p fetched

  -- `_reconcile_one`, at the time `at` of the tables.
  unfoldable pub reconcile_one :
      (String → Bool)
      → Scope
      → Catalog
      → ℕ
      → Variant
      → Exec Failure (ChannelGuard × W) ListingReconcileResult
  unfolding compare_listing
  reconcile_one is_currency scope c at v = do
    p ← lift (built (build_canonical_product is_currency scope v.id at c))
    against v.sku p

-- The variants with an active listing on the channel that was pushed, one for each such listing.
abbrev pub is_pushed : ℕ → ℕ → ChannelListing → Bool
is_pushed channel v l =
    (l.channel_id == channel && l.variant_id == v) && (is_live l && is_some l.external_listing_id)

abbrev repeated : Variant → List ChannelListing → List Variant
repeated v [] = []
repeated v (_ ∷ rows) = v ∷ repeated v rows

abbrev pub joined : Scope → ℕ → List ChannelListing → List Variant → List Variant
joined scope channel listings [] = []
joined scope channel listings (v ∷ rows) =
    let own = select (λ l. is_pushed channel v.id l && visible scope l.tenant_id) listings in
    let rest = joined scope channel listings rows in
    if visible scope v.tenant_id then repeated v own ++ rest else rest

-- What a run is given beside its state: the currency check, the tables, the order of SKUs, the
-- time at each variant and the clock readings of its calls.
pub record Setting : Type 0 where
  pub is_currency : String → Bool
  pub scope : Scope
  pub catalog : Catalog
  pub listings : List ChannelListing
  pub channels : List Channel
  pub before : Variant → Variant → Bool
  pub clock : ℕ → ℕ
  pub timing : ℕ → ℕ → ℕ → Timing

-- What the adapter factory gives for a channel; `unknown_code` is the `AdapterNotFoundError`.
pub data Made (W : Type 0) : Type 0 where
  made : ChannelAdapter W → Made W
  unknown_code : Made W
  broken : Failure → Made W

module _ {W : Type 0} (x : Setting) where
  unfoldable pub reconcile_variants :
      Channel
      → ChannelAdapter W
      → List Variant
      → Exec Failure (ChannelGuard × W) (List ListingReconcileResult)
  reconcile_variants channel adapter [] = pure []
  reconcile_variants channel adapter (v ∷ rows) = do
    r ←
        reconcile_one channel adapter (x.timing channel.id v.id) x.is_currency x.scope x.catalog
          (x.clock v.id) v
    rest ← reconcile_variants channel adapter rows
    pure (r ∷ rest)

  unfoldable pub reconcile_channel :
      Channel → ChannelAdapter W → Exec Failure (ChannelGuard × W) (List ListingReconcileResult)
  unfolding reconcile_variants
  reconcile_channel channel adapter =
      reconcile_variants channel adapter
        (sort_by x.before (joined x.scope channel.id x.listings x.catalog.variants))

  abbrev pub with_adapter :
      Channel → Made W → Exec Failure (ChannelGuard × W) (List ListingReconcileResult)
  with_adapter channel (made adapter) = reconcile_channel channel adapter
  with_adapter channel unknown_code = pure []
  with_adapter channel (broken e) = raise e

  unfoldable pub reconcile_channels :
      (Channel → Made W)
      → List Channel
      → Exec Failure (ChannelGuard × W) (List ListingReconcileResult)
  reconcile_channels factory [] = pure []
  reconcile_channels factory (channel ∷ rows) = do
    results ← with_adapter channel (factory channel)
    rest ← reconcile_channels factory rows
    pure (results ++ rest)

abbrev pub count : (ListingReconcileResult → Bool) → List ListingReconcileResult → ℕ
count p [] = 0
count p (r ∷ rest) = (if p r then 1 else 0) + count p rest

abbrev pub is_drifted : ListingReconcileResult → Bool
is_drifted r = r.stock_drift || r.price_drift

abbrev pub is_repaired : ListingReconcileResult → Bool
is_repaired r = r.repaired

abbrev pub report_of : List ListingReconcileResult → ReconcileReport
report_of results = record {
  checked = length results;
  drifted = count is_drifted results;
  repaired = count is_repaired results;
  results = results;
}

-- `reconcile_tenant`.
unfoldable pub reconcile_tenant :
    {W : Type 0} → Setting → (Channel → Made W) → Exec Failure (ChannelGuard × W) ReconcileReport
reconcile_tenant x factory = do
  results ←
      reconcile_channels x factory
        (select (λ c. c.is_active && visible x.scope c.tenant_id) x.channels)
  pure (report_of results)
