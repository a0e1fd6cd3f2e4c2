-- ===== src/Tests/Prices.antt =====
-- A price with two overrides, and the snapshot of its variant:
-- services/core/app/domain/pricing.py and services/core/app/sync/canonical.py.
use posnet_adapter.Prelude.{String, Bool, ◌≡◌, refl, true, none, some, [], ◌∷◌}
use posnet_adapter.Prelude.Int.{pos, max_ℤ}
use posnet_adapter.Prelude.Exec.{ok}
use posnet_adapter.Tables.{Product, Variant}
use posnet_adapter.CanonicalModel.{CanonicalProduct}
use posnet_adapter.OrderIngest.{online_warehouse_ids}
use posnet_adapter.OrderIngest.Covered.{online_stock}
use posnet_adapter.Catalog.{Catalog}
use posnet_adapter.Sync.Canonical.{build_canonical_product}
use posnet_adapter.Sync.Canonical.Shown.{build_canonical_product_lem}
use posnet_adapter.Pricing.{ResolvedPrice, Prices, override, resolve_price}
use posnet_adapter.Pricing.Resolution.{IsResolved, resolve_price-IsResolved}

abbrev pub tea : Variant
tea = record {
  id = 5;
  tenant_id = 1;
  product_id = 4;
  sku = "TEA";
  barcode = none;
  name = none;
  attributes = [];
  base_price_minor = pos 250;
  cost_price_minor = none;
}

abbrev pub drinks : Product
drinks = record {
  id = 4;
  tenant_id = 1;
  store_id = none;
  brand = none;
  name = "Tea";
  category_path = [];
  currency = "AZN";
  status = "active";
  online_published = true;
}

abbrev prices : Prices
prices = record {
  db = record {
    warehouses = [];
    products = drinks ∷ [];
    variants = tea ∷ [];
    inventory = [];
    movements = [];
    outbox = [];
    tenants = 1 ∷ [];
    channels = [];
    channel_orders = [];
    next_id = 100;
  };
  stores = record { id = 3; tenant_id = 1 } ∷ [];
  overrides =
      record {
        id = 20;
        tenant_id = 1;
        variant_id = 5;
        store_id = none;
        price_minor = pos 200;
        valid_from = none;
        valid_to = none;
        created_at = 9;
      }
      ∷ record {
        id = 21;
        tenant_id = 1;
        variant_id = 5;
        store_id = some 3;
        price_minor = pos 180;
        valid_from = some 10;
        valid_to = some 20;
        created_at = 8;
      }
      ∷ [];
}

resolve_price-IsResolved_example :
    (r : ResolvedPrice) × (resolve_price (some 1) 5 15 (some 3) prices ≡ (ok r, prices))
    × (r.variant_id ≡ 5)
    × (r.base_price_minor ≡ pos 250)
    × IsResolved (some 1) 5 15 (some 3) prices r
resolve_price-IsResolved_example =
    resolve_price-IsResolved (some 1) 5 15 (some 3) prices tea drinks (refl, refl)

-- In the window of the store's own override that one wins, although the other is newer.
in_store :
    (resolve_price (some 1) 5 15 (some 3) prices).0
    ≡ ok (record {
      variant_id = 5;
      currency = "AZN";
      base_price_minor = pos 250;
      effective_price_minor = pos 180;
      source = override;
      override_id = some 21;
    })
unfolding resolve_price
in_store = refl

abbrev pub catalog : Catalog
catalog = record {
  prices = record prices {
    db = record prices.db {
      warehouses = record { id = 10; tenant_id = 1; is_online_sellable = true } ∷ [];
      inventory =
          record {
            tenant_id = 1;
            variant_id = 5;
            warehouse_id = 10;
            qty = pos 7;
            reserved_qty = pos 2;
            version = 3;
          }
          ∷ [];
    };
  };
  images = [];
}

abbrev pub any_currency : String → Bool
any_currency _ = true

build_canonical_product_lem_example :
    (p : CanonicalProduct) × (r : ResolvedPrice) × (build_canonical_product any_currency
        (some 1)
        5
        15
        catalog
      ≡ ok (some p))
    × (resolve_price (some 1) 5 15 none catalog.prices ≡ (ok r, catalog.prices))
    × (p.price_minor ≡ r.effective_price_minor)
    × (p.stock_qty
        ≡ max_ℤ
            (online_stock
              (some 1)
              1
              5
              (online_warehouse_ids (some 1) 1 catalog.prices.db)
              catalog.prices.db)
            (pos 0))
build_canonical_product_lem_example =
    build_canonical_product_lem any_currency 1 5 15 catalog tea drinks (refl, refl) refl refl
