-- ===== src/Tables.antt =====
-- services/core/app/infrastructure/db/models.py: the tables that the stock side of the hub works
-- on, as lists of rows in order of insertion, and row level security (migrations 0002 and 0006).
-- Ids are UUIDs in the source, which are only compared and ordered: here they are numbers, and a
-- new row takes the next unused one.
use Prim.Native.String.{count}
use posnet_adapter.Prelude.{
  ℕ, String, Bool, true, false, not, Option, none, some, List, leb, ◌==◌, find?, is_some,
}
use posnet_adapter.Prelude.Int.{ℤ}
use posnet_adapter.CanonicalModel.{CanonicalOrder}

-- `MOVEMENT_KINDS` of services/core/app/domain/inventory.py.
pub data MovementKind : Type 0 where
  in_ out reserve unreserve adjust : MovementKind

pub record Warehouse : Type 0 where
  pub id : ℕ
  pub tenant_id : ℕ
  pub is_online_sellable : Bool

pub record Variant : Type 0 where
  pub id : ℕ
  pub tenant_id : ℕ
  pub product_id : ℕ
  pub sku : String
  pub barcode : Option String
  pub name : Option String
  pub attributes : List (String × String)
  pub base_price_minor : ℤ
  pub cost_price_minor : Option ℤ

pub record Product : Type 0 where
  pub id : ℕ
  pub tenant_id : ℕ
  pub store_id : Option ℕ
  pub brand : Option String
  pub name : String
  pub category_path : List String
  pub currency : String
  pub status : String
  pub online_published : Bool

pub record Inventory : Type 0 where
  pub tenant_id : ℕ
  pub variant_id : ℕ
  pub warehouse_id : ℕ
  pub qty : ℤ
  pub reserved_qty : ℤ
  pub version : ℕ

pub record StockMovement : Type 0 where
  pub tenant_id : ℕ
  pub variant_id : ℕ
  pub warehouse_id : ℕ
  pub kind : MovementKind
  pub qty : ℤ
  pub reference : Option String

-- The event types of services/core/app/domain/events.py, each with the part of its payload that a
-- handler reads.
pub data Payload : Type 0 where
  product_created : ℕ → Payload
  variant_added : ℕ → Payload
  -- variant, warehouse, kind, qty, new_qty, new_reserved_qty, version
  movement_applied : ℕ → ℕ → MovementKind → ℤ → ℤ → ℤ → ℕ → Payload
  override_set : ℕ → Payload
  other : String → Payload

pub record OutboxEvent : Type 0 where
  pub id : ℕ
  pub tenant_id : ℕ
  pub payload : Payload
  pub published : Bool

-- `channel_orders.status`.
pub data OrderState : Type 0 where
  received reserved rejected : OrderState

pub record ChannelOrder : Type 0 where
  pub tenant_id : ℕ
  pub channel_id : ℕ
  pub channel_order_id : String
  pub canonical_payload : CanonicalOrder
  pub status : OrderState

-- Of `tenants` and `channels` only the ids, which foreign keys refer to.
pub record Db : Type 0 where
  pub tenants : List ℕ
  pub channels : List ℕ
  pub warehouses : List Warehouse
  pub products : List Product
  pub variants : List Variant
  pub inventory : List Inventory
  pub movements : List StockMovement
  pub outbox : List OutboxEvent
  pub channel_orders : List ChannelOrder
  pub next_id : ℕ

-- The tenant that row level security confines a session to; `none` is the owner pool, which is
-- exempt. The same test decides which rows are seen and which may be inserted (`WITH CHECK`).
abbrev pub Scope : Type 0
Scope = Option ℕ

abbrev pub visible : Scope → ℕ → Bool
visible none tenant = true
visible (some current) tenant = tenant == current

-- A foreign key to the row with an id.
abbrev pub refers : ℕ → List ℕ → Bool
refers id rows = is_some (find? (λ x. x == id) rows)

-- The texts that a VARCHAR(n) refuses. Postgres stores a longer text if all that it has too many is
-- spaces, and cuts them off; here it is refused too.
abbrev pub too_long : ℕ → String → Bool
too_long n s = not (leb (count s) n)

abbrev pub too_long_if : ℕ → Option String → Bool
too_long_if n none = false
too_long_if n (some s) = too_long n s

-- What a domain function raises. `integrity` is a failed constraint, `row_security` a failed
-- `WITH CHECK` and `data_error` a value that its column cannot hold: the database's own errors.
pub data Reason : Type 0 where
  no_variant no_warehouse no_destination no_level : Reason
  insufficient_to_remove insufficient_to_reserve over_unreserve below_reserved : Reason
  concurrently_created stale_version : Reason
  qty_not_positive same_warehouse : Reason
  unknown_sku : String → Reason
  insufficient_online : ℤ → String → Reason
  no_product duplicate_variant no_store bad_window : Reason
  no_cashier no_shift already_open already_closed closed_shift : Reason

pub data Error : Type 0 where
  not_found conflict validation : Reason → Error
  integrity row_security data_error : Error
