-- ===== src/OrderIngest.antt =====
-- services/core/app/sync/order_ingest.py: an inbound channel order is persisted once and reserves
-- stock in the online-sellable warehouses, all of its lines or none.
pub mod Plan
pub mod Reserves
pub mod Amount
pub mod Line
pub mod Covered
pub mod Order
pub mod Ingest
use Prim.Native.String.{◌++◌ as str_append}
use posnet_adapter.Prelude.{
  ℕ, String, ◌≡◌, Bool, true, false, not, ◌&&◌, Option, none, some, List, [], ◌∷◌, ◌++◌, map, ◌==◌,
  leb, find?, is_some, select, str_eq, if◌then◌else◌,
}
use posnet_adapter.Prelude.Int.{ℤ, pos, ◌-ℤ◌, ltb_ℤ, leb_ℤ, ◌==ℤ◌, min_ℤ}
use posnet_adapter.Prelude.Exec.{
  Result, ok, err, Exec, pure, raise, gets, raise_if, or_raise, modify, savepoint, ◌>>=◌, ◌>>◌,
}
use posnet_adapter.CanonicalModel.{CanonicalOrderLine, CanonicalOrder}
use posnet_adapter.Tables.{
  Warehouse, Variant, Inventory, ChannelOrder, OrderState, received, reserved, rejected, Db, Scope,
  visible, refers, too_long, data_error, reserve, Error, Reason, not_found, conflict, validation,
  integrity, row_security, unknown_sku, insufficient_online,
}
use posnet_adapter.Inventory.{Movement, apply_movement}

abbrev pub contains : ℕ → List ℕ → Bool
contains k [] = false
contains k (x ∷ xs) = if x == k then true else contains k xs

-- The first query of `reserve_order`.
unfoldable pub online_warehouse_ids : Scope → ℕ → Db → List ℕ
online_warehouse_ids scope tenant db =
    map (λ w. w.id)
      (select (λ w. (w.tenant_id == tenant && w.is_online_sellable) && visible scope w.tenant_id)
        db.warehouses)

-- ORDER BY warehouse_id.
abbrev pub insert_by_warehouse : Inventory → List Inventory → List Inventory
insert_by_warehouse r [] = r ∷ []
insert_by_warehouse r (x ∷ rows) =
    if leb r.warehouse_id x.warehouse_id then r ∷ x ∷ rows else x ∷ insert_by_warehouse r rows

abbrev pub order_by_warehouse : List Inventory → List Inventory
order_by_warehouse [] = []
order_by_warehouse (r ∷ rows) = insert_by_warehouse r (order_by_warehouse rows)

-- The WHERE of the planning query.
abbrev pub is_planned : Scope → ℕ → ℕ → List ℕ → Inventory → Bool
is_planned scope tenant v ids r =
    ((r.tenant_id == tenant && r.variant_id == v) && contains r.warehouse_id ids)
    && visible scope r.tenant_id

-- The rows that the planning query reads, in its order.
unfoldable pub planned_rows : Scope → ℕ → ℕ → List ℕ → Db → List Inventory
planned_rows scope tenant v ids db =
    order_by_warehouse (select (is_planned scope tenant v ids) db.inventory)

-- The columns that it reads of a row.
pub record Planned : Type 0 where
  pub warehouse_id : ℕ
  pub qty : ℤ
  pub reserved_qty : ℤ

abbrev pub columns : Inventory → Planned
columns r = record { warehouse_id = r.warehouse_id; qty = r.qty; reserved_qty = r.reserved_qty }

abbrev pub order_reference : CanonicalOrder → String
order_reference order = str_append "channel-order:" order.channel_order_id

abbrev pub take_movement : ℕ → ℕ → String → ℕ → ℤ → Movement
take_movement tenant v reference w take = record {
  tenant_id = tenant;
  variant_id = v;
  warehouse_id = w;
  kind = reserve;
  qty = take;
  reference = some reference;
  expected_version = none;
}

-- The loop over the planned rows; it returns what remains to be reserved.
unfoldable pub reserve_planned : Scope → ℕ → ℕ → String → List Planned → ℤ → Exec Error Db ℤ
reserve_planned scope tenant v reference [] remaining = pure remaining
reserve_planned scope tenant v reference (p ∷ plan) remaining =
    let take = min_ℤ (p.qty -ℤ p.reserved_qty) remaining in
    let skip = reserve_planned scope tenant v reference plan remaining in
    let take_and_go_on = (do
      apply_movement scope (take_movement tenant v reference p.warehouse_id take)
      reserve_planned scope tenant v reference plan (remaining -ℤ take)) in
    if remaining ==ℤ pos 0
    then pure remaining
    else if leb_ℤ take (pos 0)
    then skip
    else take_and_go_on

abbrev is_empty : List ℕ → Bool
is_empty [] = true
is_empty (_ ∷ _) = false

abbrev pub variant_of_sku : Scope → ℕ → String → Db → Option Variant
variant_of_sku scope tenant sku db =
    find? (λ r. (r.tenant_id == tenant && str_eq r.sku sku) && visible scope r.tenant_id)
      db.variants

-- One round of the loop over the order's lines, after the SKU lookup.
unfoldable pub reserve_variant :
    Scope → ℕ → List ℕ → String → CanonicalOrderLine → ℕ → Exec Error Db (Unit {0})
unfolding reserve_planned planned_rows
reserve_variant scope tenant ids reference line v = do
  rows ← gets (planned_rows scope tenant v ids)
  remaining ←
      if is_empty ids
      then pure line.qty
      else reserve_planned scope tenant v reference (map columns rows) line.qty
  raise_if (ltb_ℤ (pos 0) remaining) (conflict (insufficient_online line.qty line.sku))

unfoldable pub reserve_line :
    Scope → ℕ → List ℕ → String → CanonicalOrderLine → Exec Error Db (Unit {0})
unfolding reserve_variant
reserve_line scope tenant ids reference line = do
  found ← gets (variant_of_sku scope tenant line.sku)
  variant ← or_raise found (not_found (unknown_sku line.sku))
  reserve_variant scope tenant ids reference line variant.id

unfoldable pub reserve_lines :
    Scope → ℕ → List ℕ → String → List CanonicalOrderLine → Exec Error Db (Unit {0})
unfolding reserve_line
reserve_lines scope tenant ids reference [] = pure tt
reserve_lines scope tenant ids reference (line ∷ lines) = do
  reserve_line scope tenant ids reference line
  reserve_lines scope tenant ids reference lines

unfoldable pub reserve_order : Scope → ℕ → CanonicalOrder → Exec Error Db (Unit {0})
unfolding reserve_lines online_warehouse_ids
reserve_order scope tenant order = do
  ids ← gets (online_warehouse_ids scope tenant)
  reserve_lines scope tenant ids (order_reference order) order.lines

pub data IngestStatus : Type 0 where
  reserved_status rejected_status duplicate : IngestStatus

-- `IngestOutcome`. The reason of a rejection is the error whose text the source keeps.
pub record IngestOutcome : Type 0 where
  pub channel_order_id : String
  pub status : IngestStatus
  pub ack_status : Option String
  pub reason : Option Error

abbrev pub same_order : ℕ → String → ChannelOrder → Bool
same_order channel id row = row.channel_id == channel && str_eq row.channel_order_id id

abbrev pub order_at : ℕ → String → Db → Option ChannelOrder
order_at channel id db = find? (same_order channel id) db.channel_orders

abbrev pub order_row : ℕ → ℕ → CanonicalOrder → OrderState → ChannelOrder
order_row tenant channel order state = record {
  tenant_id = tenant;
  channel_id = channel;
  channel_order_id = order.channel_order_id;
  canonical_payload = order;
  status = state;
}

-- The foreign keys of channel_orders.
abbrev pub has_parents : ℕ → ℕ → Db → Bool
has_parents tenant channel db = refers tenant db.tenants && refers channel db.channels

-- INSERT INTO channel_orders, whose order id is a VARCHAR(200), under UNIQUE (channel_id,
-- channel_order_id) and the foreign keys.
abbrev pub insert_order : Scope → ℕ → ℕ → CanonicalOrder → Exec Error Db (Unit {0})
insert_order scope tenant channel order = do
  raise_if (too_long 200 order.channel_order_id) data_error
  taken ← gets (order_at channel order.channel_order_id)
  known ← gets (has_parents tenant channel)
  raise_if (not (visible scope tenant)) row_security
  raise_if (is_some taken) integrity
  raise_if (not known) integrity
  modify (λ db. record db {
    channel_orders = db.channel_orders ++ order_row tenant channel order received ∷ [];
  })

-- The assignment to `order_row.status`.
abbrev pub set_state : ℕ → String → OrderState → List ChannelOrder → List ChannelOrder
set_state channel id state [] = []
set_state channel id state (row ∷ rows) =
    if same_order channel id row
    then record row { status = state } ∷ rows
    else row ∷ set_state channel id state rows

abbrev pub mark_order : ℕ → String → OrderState → Db → Db
mark_order channel id state db = record db {
  channel_orders = set_state channel id state db.channel_orders;
}

-- `except (ConflictError, NotFoundError, ValidationError)`.
abbrev pub is_rejection : Error → Bool
is_rejection (not_found _) = true
is_rejection (conflict _) = true
is_rejection (validation _) = true
is_rejection integrity = false
is_rejection row_security = false
is_rejection data_error = false

abbrev pub rejection : String → Error → IngestOutcome
rejection id e = record {
  channel_order_id = id;
  status = rejected_status;
  ack_status = some "cancelled";
  reason = some e;
}

abbrev pub reservation : String → IngestOutcome
reservation id = record {
  channel_order_id = id;
  status = reserved_status;
  ack_status = some "confirmed";
  reason = none;
}

abbrev pub redelivery : String → IngestOutcome
redelivery id = record {
  channel_order_id = id;
  status = duplicate;
  ack_status = none;
  reason = none;
}

-- What follows the reservation, by its outcome.
abbrev pub conclude : ℕ → String → Result Error (Unit {0}) → Exec Error Db IngestOutcome
conclude channel id (ok _) db = (ok (reservation id), mark_order channel id reserved db)
conclude channel id (err e) db =
    if is_rejection e then (ok (rejection id e), mark_order channel id rejected db) else (err e, db)

-- What follows the INSERT: any `IntegrityError`, and no other error, means a redelivery.
abbrev pub after_insert :
    Scope → ℕ → ℕ → CanonicalOrder → Result Error (Unit {0}) → Exec Error Db IngestOutcome
after_insert scope tenant channel order (ok _) db =
    let (r, db') = savepoint (reserve_order scope tenant order) db in
    conclude channel order.channel_order_id r db'
after_insert scope tenant channel order (err integrity) db =
    (ok (redelivery order.channel_order_id), db)
after_insert scope tenant channel order (err e) db = (err e, db)

unfoldable pub ingest_channel_order : Scope → ℕ → ℕ → CanonicalOrder → Exec Error Db IngestOutcome
ingest_channel_order scope tenant channel order db =
    let (r, db') = savepoint (insert_order scope tenant channel order) db in
    after_insert scope tenant channel order r db'
