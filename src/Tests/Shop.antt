-- ===== src/Tests/Shop.antt =====
-- A catalogue with one product, its publication, its pages, and a run of the POS sync:
-- services/core/app/domain/catalog.py and services/core/app/sync/pos_ingest.py.
use posnet_adapter.Prelude.{
  String, ◌*◌, ◌≤◌, Bool, ◌≡◌, refl, true, none, some, List, [], ◌∷◌, arith, length, leb,
}
use posnet_adapter.Prelude.Int.{ℤ, pos, ◌+ℤ◌, ◌-ℤ◌}
use posnet_adapter.Prelude.Exec.{ok}
use posnet_adapter.CanonicalModel.{CanonicalProduct, active}
use posnet_adapter.Tables.{Inventory, Product, Db, reserve}
use posnet_adapter.Inventory.{
  Movement, apply_movement, effect, find_level, sees_variant, sees_warehouse,
}
use posnet_adapter.Inventory.Journal.{IsConsistent, apply_movement-IsConsistent}
use posnet_adapter.Catalog.{
  VariantSpec, create_product, add_variant, set_online_published, count_products,
  find_variant_by_sku, find_variant_by_barcode, new_variant,
}
use posnet_adapter.Catalog.Codes.{
  IsDistinct, Request, variant_request, publish_request, run, step, run-IsDistinct,
  find-add_variant,
}
use posnet_adapter.Sync.PosIngest.{PosSyncReport, set_stock, sync_product, sync_catalog_from_pos}
use posnet_adapter.Sync.PosIngest.Stock.{IsDriven, set_stock_lem}
use posnet_adapter.Tests.Prices.{catalog}
use posnet_adapter.Tests.Stock.{shop, shop-IsConsistent, shop_knows}

abbrev green : VariantSpec
green = record {
  sku = "GREEN";
  base_price_minor = pos 300;
  barcode = some "4760001";
  name = none;
  attributes = [];
  cost_price_minor = none;
}

-- The second request repeats the codes of the first and is refused.
abbrev requests : List Request
requests =
    variant_request (some 1) 1 4 green
    ∷ variant_request (some 1) 1 4 green
    ∷ publish_request (some 1) 1 4 true
    ∷ []

two_variants : length (run requests catalog).prices.db.variants ≡ 2
unfolding run step add_variant set_online_published
two_variants = refl

run-IsDistinct_example : IsDistinct (run requests catalog).prices.db.variants
run-IsDistinct_example = run-IsDistinct requests catalog (tt, tt)

find-add_variant_example :
    let (r, c') = add_variant (some 1) 1 4 green catalog in
    (r ≡ ok (new_variant 100 1 4 green))
    × (find_variant_by_sku (some 1) "GREEN" c' ≡ some (new_variant 100 1 4 green))
    × ((code : String)
        → some "4760001" ≡ some code
        → find_variant_by_barcode (some 1) code c' ≡ some (new_variant 100 1 4 green))
find-add_variant_example = find-add_variant 1 4 green catalog refl refl refl refl

abbrev any_text : String → String → Bool
any_text _ _ = true

abbrev by_id : Product → Product → Bool
by_id a b = leb a.id b.id

one_product : count_products any_text (some 1) none catalog ≤ 1 * 2
unfolding count_products
one_product = omega arith

abbrev level : Inventory
level = record {
  tenant_id = 1;
  variant_id = 5;
  warehouse_id = 10;
  qty = pos 3;
  reserved_qty = pos 0;
  version = 1;
}

shop_places : sees_warehouse none 10 shop ≡ true
unfolding apply_movement effect ◌+ℤ◌
shop_places = refl

shop_level : find_level none 5 10 shop.inventory ≡ some level
unfolding apply_movement effect ◌+ℤ◌
shop_level = refl

set_stock_lem_example :
    (told : Bool) × (db' : Db) × (set_stock none 1 5 10 (pos 8) shop ≡ (ok told, db'))
    × IsDriven none 1 5 10 (pos 8) level told db'
set_stock_lem_example =
    set_stock_lem none 1 5 10 (pos 8) shop level shop-IsConsistent shop_knows shop_places shop_level
      refl refl

abbrev hold : Movement
hold = record {
  tenant_id = 1;
  variant_id = 5;
  warehouse_id = 10;
  kind = reserve;
  qty = pos 2;
  reference = none;
  expected_version = none;
}

abbrev held_shop : Db
held_shop = (apply_movement none hold shop).1

held_shop-IsConsistent : IsConsistent held_shop
held_shop-IsConsistent = apply_movement-IsConsistent none hold shop shop-IsConsistent

held_knows : (sees_variant none 5 held_shop ≡ true) × (sees_warehouse none 10 held_shop ≡ true)
unfolding apply_movement effect ◌+ℤ◌ ◌-ℤ◌
held_knows = (refl, refl)

held_level :
    find_level none 5 10 held_shop.inventory
    ≡ some (record level { reserved_qty = pos 2; version = 2 })
unfolding apply_movement effect ◌+ℤ◌ ◌-ℤ◌
held_level = refl

abbrev pulled_product : String → ℤ → ℤ → CanonicalProduct
pulled_product sku price stock = record {
  sku = sku;
  barcode = none;
  name = sku;
  attributes = [];
  category_path = [];
  price_minor = price;
  currency = "AZN";
  stock_qty = stock;
  images = [];
  status = active;
}

abbrev pulled : List CanonicalProduct
pulled = pulled_product "TEA" (pos 260) (pos 9) ∷ pulled_product "MINT" (pos 400) (pos 0) ∷ []

abbrev report : PosSyncReport
report = record { pulled = 2; created = 1; updated = 1; restocked = 1 }

synced :
    sync_catalog_from_pos (some 1) 1 pulled 10 catalog
    ≡ (ok report, (sync_catalog_from_pos (some 1) 1 pulled 10 catalog).1)
unfolding sync_catalog_from_pos sync_product create_product add_variant find_variant_by_sku
    set_stock apply_movement effect ◌+ℤ◌ ◌-ℤ◌
synced = refl
