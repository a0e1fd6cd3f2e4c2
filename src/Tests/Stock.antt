-- ===== src/Tests/Stock.antt =====
-- Movements and orders on a small shop: services/core/app/domain/inventory.py and
-- services/core/app/sync/order_ingest.py.
use Prim.Native.String.{◌++◌ as str_append}
use posnet_adapter.Prelude.{ℕ, String, ◌≡◌, refl, true, none, [], ◌∷◌, ◌⊎◌, arith}
use posnet_adapter.Prelude.Int.{ℤ, pos, ◌+ℤ◌, ◌-ℤ◌}
use posnet_adapter.Prelude.Exec.{ok, err, savepoint}
use posnet_adapter.CanonicalModel.{CanonicalOrder, CanonicalOrderLine, pending}
use posnet_adapter.Tables.{in_, reserve, Db, data_error, conflict, insufficient_online}
use posnet_adapter.Inventory.{Movement, effect, sees_variant, apply_movement, transfer_stock}
use posnet_adapter.Inventory.Levels.{stock_at}
use posnet_adapter.Inventory.Stock.{Decides, shift, effect-Decides}
use posnet_adapter.Inventory.Journal.{IsConsistent, apply_movement-IsConsistent}
use posnet_adapter.Inventory.Ledger.{
  ledger, Refines, Transfers, apply_movement-Refines, transfer_stock-Transfers,
}
use posnet_adapter.OrderIngest.{
  reserve_order, ingest_channel_order, reservation, redelivery, rejection,
}
use posnet_adapter.OrderIngest.Covered.{LineOutcome, reserve_variant_lem}
use posnet_adapter.OrderIngest.Ingest.{
  IsRedelivery, IsUnlisted, IsRefused, IsAccepted, ingest_outcome,
}

-- Tenant 1 has two warehouses for online sale, one that is not, and one variant.
abbrev empty_shop : Db
empty_shop = record {
  warehouses =
      record { id = 10; tenant_id = 1; is_online_sellable = true }
      ∷ record { id = 11; tenant_id = 1; is_online_sellable = true }
      ∷ [];
  products = [];
  variants =
      record {
        id = 5;
        tenant_id = 1;
        product_id = 4;
        sku = "TEA";
        barcode = none;
        name = none;
        attributes = [];
        base_price_minor = pos 250;
        cost_price_minor = none;
      }
      ∷ [];
  inventory = [];
  movements = [];
  outbox = [];
  tenants = 1 ∷ [];
  channels = 9 ∷ [];
  channel_orders = [];
  next_id = 100;
}

empty_shop-IsConsistent : IsConsistent empty_shop
empty_shop-IsConsistent = record { sound = tt; unique = tt; journaled = λ v w. refl }

abbrev delivery : ℕ → ℤ → Movement
delivery w qty = record {
  tenant_id = 1;
  variant_id = 5;
  warehouse_id = w;
  kind = in_;
  qty = qty;
  reference = none;
  expected_version = none;
}

abbrev pub shop : Db
shop =
    (apply_movement none (delivery 11 (pos 2))
      (apply_movement none (delivery 10 (pos 3)) empty_shop).1).1

apply_movement-IsConsistent_example :
    IsConsistent (apply_movement none (delivery 10 (pos 3)) empty_shop).1
apply_movement-IsConsistent_example =
    apply_movement-IsConsistent none (delivery 10 (pos 3)) empty_shop empty_shop-IsConsistent

pub shop-IsConsistent : IsConsistent shop
shop-IsConsistent =
    apply_movement-IsConsistent none (delivery 11 (pos 2)) _
      (apply_movement-IsConsistent none (delivery 10 (pos 3)) empty_shop empty_shop-IsConsistent)

abbrev line : ℤ → CanonicalOrderLine
line qty = record {
  sku = "TEA";
  name = "Tea";
  qty = qty;
  unit_price_minor = pos 250;
  currency = "AZN";
}

abbrev pub order : ℤ → CanonicalOrder
order qty = record {
  channel_order_id = "A-1";
  lines = line qty ∷ [];
  totals = record {
    subtotal_minor = pos 0;
    grand_total_minor = pos 0;
    currency = "AZN";
    shipping_minor = pos 0;
    tax_minor = pos 0;
  };
  status = pending;
  customer = none;
  fulfillment = none;
}

-- Four units take the three of the first warehouse and one of the second.
order_splits : (ingest_channel_order none 1 9 (order (pos 4)) shop).0 ≡ ok (reservation "A-1")
unfolding ingest_channel_order reserve_order apply_movement effect ◌+ℤ◌ ◌-ℤ◌
order_splits = refl

order_splits_stock :
    stock_at 5 10 (ingest_channel_order none 1 9 (order (pos 4)) shop).1.inventory ≡ (pos 3, pos 3)
unfolding ingest_channel_order reserve_order apply_movement effect ◌+ℤ◌ ◌-ℤ◌
order_splits_stock = refl

order_short :
    (ingest_channel_order none 1 9 (order (pos 6)) shop).0
    ≡ ok (rejection "A-1" (conflict (insufficient_online (pos 6) "TEA")))
unfolding ingest_channel_order reserve_order apply_movement effect ◌+ℤ◌ ◌-ℤ◌
order_short = refl

-- An order id of 201 characters ends the ingest with the database's error, and an order of a channel
-- that is not there is answered as a duplicate; neither leaves anything.
abbrev ten : String → String
ten s = str_append s (
    str_append s (
      str_append s (
        str_append s (str_append s (str_append s (str_append s (str_append s (str_append s s))))))))

abbrev long_order : CanonicalOrder
long_order = record (order (pos 4)) {
  channel_order_id = str_append "A" (str_append (ten (ten "0")) (ten (ten "0")));
}

order_too_long : ingest_channel_order none 1 9 long_order shop ≡ (err data_error, shop)
unfolding ingest_channel_order
order_too_long = refl

order_unlisted : ingest_channel_order none 1 8 (order (pos 4)) shop ≡ (ok (redelivery "A-1"), shop)
unfolding ingest_channel_order apply_movement effect ◌+ℤ◌
order_unlisted = refl

ingest_outcome_example :
    IsRedelivery none 1 9 (order (pos 4)) shop
    ⊎ (IsUnlisted none 1 9 (order (pos 4)) shop
        ⊎ (IsRefused none 1 9 (order (pos 4)) shop ⊎ IsAccepted none 1 9 (order (pos 4)) shop))
ingest_outcome_example = ingest_outcome none 1 9 (order (pos 4)) shop shop-IsConsistent refl refl

effect-Decides_example :
    Decides (shift reserve (pos 2) (pos 3, pos 2)) (effect reserve (pos 2) (pos 3) (pos 2))
effect-Decides_example = effect-Decides reserve (pos 2) (pos 3) (pos 2) (omega arith) (omega arith)

pub shop_knows : sees_variant none 5 shop ≡ true
unfolding apply_movement effect ◌+ℤ◌
shop_knows = refl

reserve_variant_lem_example : LineOutcome none 1 5 "channel-order:A-1" shop (line (pos 4))
reserve_variant_lem_example =
    reserve_variant_lem none 1 5 "channel-order:A-1" shop shop-IsConsistent.unique
      shop-IsConsistent.sound shop_knows (line (pos 4))

apply_movement-Refines_example :
    Refines (delivery 10 (pos 3)) (ledger shop) (apply_movement none (delivery 10 (pos 3)) shop)
apply_movement-Refines_example =
    apply_movement-Refines none (delivery 10 (pos 3)) shop shop-IsConsistent

-- Two of the three units go to the other warehouse; four would be too many.
transfer_two :
    let db' = (savepoint (transfer_stock none 1 5 10 11 (pos 2) none) shop).1 in
    (ledger db' 5 10 ≡ (pos 1, pos 0)) × (ledger db' 5 11 ≡ (pos 4, pos 0))
unfolding transfer_stock apply_movement effect ◌+ℤ◌ ◌-ℤ◌
transfer_two = (refl, refl)

transfer_stock-Transfers_example :
    Transfers 5 10 11 (pos 2) shop (savepoint (transfer_stock none 1 5 10 11 (pos 2) none) shop)
transfer_stock-Transfers_example =
    transfer_stock-Transfers 1 5 10 11 (pos 2) none none shop shop-IsConsistent
