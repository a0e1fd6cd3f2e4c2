-- ===== src/Sync/PosIngest.antt =====
-- services/core/app/sync/pos_ingest.py. What `pull_catalog` of the POS returns is an argument; what
-- it raises goes up before anything is written.
pub mod Stock
pub mod Report
use posnet_adapter.Prelude.{
  ℕ, suc, ◌+◌, String, Bool, true, false, not, ◌&&◌, Option, none, some, List, [], ◌∷◌, map, ◌==◌,
  ltb, find?, select, length, if◌then◌else◌,
}
use posnet_adapter.Prelude.Int.{ℤ, pos, ◌-ℤ◌, ◌==ℤ◌, leb_ℤ}
use posnet_adapter.Prelude.Exec.{Exec, pure, gets, modify, ◌>>=◌, ◌>>◌}
use posnet_adapter.CanonicalModel.{CanonicalProduct}
use posnet_adapter.Tables.{
  MovementKind, in_, adjust, Warehouse, Variant, Inventory, Db, Scope, visible, Error,
}
use posnet_adapter.Inventory.{Movement, apply_movement}
use posnet_adapter.Catalog.{
  Catalog, VariantSpec, with_db, create_product, add_variant, find_variant_by_sku,
}

pub record PosSyncReport : Type 0 where
  pub pulled : ℕ
  pub created : ℕ
  pub updated : ℕ
  pub restocked : ℕ

-- A function of the stock side, called with the same session.
abbrev pub in_db : {A : Type 0} → Exec Error Db A → Exec Error Catalog A
in_db m c = let (r, db') = m c.prices.db in (r, with_db (λ _. db') c)

-- `get_inventory` of services/core/app/domain/inventory.py.
abbrev pub get_inventory : Scope → ℕ → Db → List Inventory
get_inventory scope v db = select (λ r. r.variant_id == v && visible scope r.tenant_id) db.inventory

abbrev pub level_in : ℕ → List Inventory → Option Inventory
level_in w levels = find? (λ r. r.warehouse_id == w) levels

abbrev pub pos_movement : ℕ → ℕ → ℕ → MovementKind → ℤ → Movement
pos_movement tenant v w kind qty = record {
  tenant_id = tenant;
  variant_id = v;
  warehouse_id = w;
  kind = kind;
  qty = qty;
  reference = some "posnet-sync";
  expected_version = none;
}

abbrev pub apply_and_tell : Scope → Movement → Exec Error Db Bool
apply_and_tell scope m = do apply_movement scope m; pure true

-- `_set_stock`, from the level that was read on.
abbrev pub drive_to : Scope → ℕ → ℕ → ℕ → ℤ → Option Inventory → Exec Error Db Bool
drive_to scope tenant v w target none =
    if leb_ℤ target (pos 0)
    then pure false
    else apply_and_tell scope (pos_movement tenant v w in_ target)
drive_to scope tenant v w target (some level) =
    if (target -ℤ level.qty) ==ℤ pos 0
    then pure false
    else apply_and_tell scope (pos_movement tenant v w adjust (target -ℤ level.qty))

unfoldable pub set_stock : Scope → ℕ → ℕ → ℕ → ℤ → Exec Error Db Bool
set_stock scope tenant v w target = do
  levels ← gets (get_inventory scope v)
  drive_to scope tenant v w target (level_in w levels)

abbrev pub spec_of : CanonicalProduct → VariantSpec
spec_of cp = record {
  sku = cp.sku;
  base_price_minor = cp.price_minor;
  barcode = cp.barcode;
  name = none;
  attributes = [];
  cost_price_minor = none;
}

abbrev pub reprice_row : ℕ → ℤ → Variant → Variant
reprice_row id price v = if v.id == id then record v { base_price_minor = price } else v

abbrev pub reprice : ℕ → ℤ → Catalog → Catalog
reprice id price c =
    with_db (λ db. record db { variants = map (reprice_row id price) db.variants }) c

-- The variant that the product goes to, and whether it was created.
abbrev pub upsert : Scope → ℕ → CanonicalProduct → Option Variant → Exec Error Catalog (ℕ × Bool)
upsert scope tenant cp none = do
  product ← create_product scope tenant cp.name cp.currency none none cp.category_path []
  v ← add_variant scope tenant product.id (spec_of cp)
  pure (v.id, true)
upsert scope tenant cp (some v) = do
  modify (if v.base_price_minor ==ℤ cp.price_minor then (λ c. c) else reprice v.id cp.price_minor)
  pure (v.id, false)

-- One round of the loop of `sync_catalog_from_pos`: whether the variant was created, and whether
-- its stock was moved.
unfoldable pub sync_product : Scope → ℕ → ℕ → CanonicalProduct → Exec Error Catalog (Bool × Bool)
sync_product scope tenant w cp = do
  found ← gets (find_variant_by_sku scope cp.sku)
  placed ← upsert scope tenant cp found
  moved ← in_db (set_stock scope tenant placed.0 w cp.stock_qty)
  pure (placed.1, moved)

abbrev pub counted : Bool → ℕ → ℕ
counted true n = suc n
counted false n = n

abbrev pub tally : PosSyncReport → Bool × Bool → PosSyncReport
tally report (created, restocked) = record report {
  created = counted created report.created;
  updated = counted (not created) report.updated;
  restocked = counted restocked report.restocked;
}

unfoldable pub sync_products :
    Scope → ℕ → ℕ → List CanonicalProduct → PosSyncReport → Exec Error Catalog PosSyncReport
sync_products scope tenant w [] report = pure report
sync_products scope tenant w (cp ∷ rest) report = do
  done ← sync_product scope tenant w cp
  sync_products scope tenant w rest (tally report done)

unfoldable pub sync_catalog_from_pos :
    Scope → ℕ → List CanonicalProduct → ℕ → Exec Error Catalog PosSyncReport
unfolding sync_products
sync_catalog_from_pos scope tenant products w =
    sync_products scope tenant w products
      (record { pulled = length products; created = 0; updated = 0; restocked = 0 })

abbrev lesser : Warehouse → Option ℕ → ℕ
lesser w none = w.id
lesser w (some id) = if ltb id w.id then id else w.id

abbrev least_warehouse : List Warehouse → Option ℕ
least_warehouse [] = none
least_warehouse (w ∷ rows) = some (lesser w (least_warehouse rows))

-- The tenant's first warehouse for online sale, in the order of the ids.
unfoldable pub primary_warehouse : Scope → ℕ → Db → Option ℕ
primary_warehouse scope tenant db = least_warehouse (
    select (λ w. (w.tenant_id == tenant && w.is_online_sellable) && visible scope w.tenant_id)
      db.warehouses)

abbrev sync_into :
    Scope → ℕ → List CanonicalProduct → Option ℕ → Exec Error Catalog (Option PosSyncReport)
sync_into scope tenant products none = pure none
sync_into scope tenant products (some w) = do
  report ← sync_catalog_from_pos scope tenant products w
  pure (some report)

-- `sync_tenant_catalog_from_pos`.
unfoldable pub sync_tenant_catalog_from_pos :
    Scope → ℕ → List CanonicalProduct → Exec Error Catalog (Option PosSyncReport)
sync_tenant_catalog_from_pos scope tenant products = do
  w ← gets (λ c. primary_warehouse scope tenant c.prices.db)
  sync_into scope tenant products w
