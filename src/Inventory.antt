-- ===== src/Inventory.antt =====
-- services/core/app/domain/inventory.py: `_effect`, `apply_movement` and `transfer_stock`.
-- A movement reads the level, checks the version, applies `_effect`, and writes the level, a
-- journal row and an outbox event.
pub mod Levels
pub mod Stock
pub mod Journal
pub mod Ledger
use posnet_adapter.Prelude.{
  ℕ, ◌+◌, suc, String, ◌≡◌, Bool, true, false, not, ◌&&◌, ◌||◌, Option, none, some, List, [], ◌∷◌,
  ◌++◌, ◌==◌, find?, is_some, if◌then◌else◌,
}
use posnet_adapter.Prelude.Int.{ℤ, pos, ◌+ℤ◌, ◌-ℤ◌, ltb_ℤ, leb_ℤ}
use posnet_adapter.Prelude.Exec.{
  Result, ok, err, Exec, pure, gets, raise_if, lift, modify, ◌>>=◌, ◌>>◌,
}
use posnet_adapter.Tables.{
  MovementKind, in_, out, reserve, unreserve, adjust, Inventory, StockMovement, OutboxEvent,
  Payload, movement_applied, Db, Scope, visible, Error, not_found, conflict, validation, no_variant,
  no_warehouse, no_destination, no_level, insufficient_to_remove, insufficient_to_reserve,
  over_unreserve, below_reserved, concurrently_created, stale_version, qty_not_positive,
  same_warehouse, integrity, row_security,
}

-- `_effect`: the new `(qty, reserved_qty)`.
unfoldable pub effect : MovementKind → ℤ → ℤ → ℤ → Result Error (ℤ × ℤ)
effect in_ qty on_hand reserved = ok (on_hand +ℤ qty, reserved)
effect out qty on_hand reserved =
    if ltb_ℤ (on_hand -ℤ reserved) qty
    then err (conflict insufficient_to_remove)
    else ok (on_hand -ℤ qty, reserved)
effect reserve qty on_hand reserved =
    if ltb_ℤ (on_hand -ℤ reserved) qty
    then err (conflict insufficient_to_reserve)
    else ok (on_hand, reserved +ℤ qty)
effect unreserve qty on_hand reserved =
    if ltb_ℤ reserved qty then err (validation over_unreserve) else ok (on_hand, reserved -ℤ qty)
effect adjust qty on_hand reserved =
    if ltb_ℤ (on_hand +ℤ qty) reserved
    then err (validation below_reserved)
    else ok (on_hand +ℤ qty, reserved)

-- The arguments of `apply_movement`.
pub record Movement : Type 0 where
  pub tenant_id : ℕ
  pub variant_id : ℕ
  pub warehouse_id : ℕ
  pub kind : MovementKind
  pub qty : ℤ
  pub reference : Option String
  pub expected_version : Option ℕ

-- The row that UNIQUE (variant_id, warehouse_id) identifies.
abbrev pub same_level : ℕ → ℕ → Inventory → Bool
same_level v w r = r.variant_id == v && r.warehouse_id == w

abbrev pub level_at : ℕ → ℕ → List Inventory → Option Inventory
level_at v w rows = find? (same_level v w) rows

-- `select(Inventory).where(...)` as the session sees the table.
abbrev pub find_level : Scope → ℕ → ℕ → List Inventory → Option Inventory
find_level scope v w rows = find? (λ r. same_level v w r && visible scope r.tenant_id) rows

-- The UPDATE of a row.
abbrev pub write_level : Inventory → List Inventory → List Inventory
write_level inv [] = []
write_level inv (r ∷ rows) =
    if same_level inv.variant_id inv.warehouse_id r then inv ∷ rows else r ∷ write_level inv rows

abbrev pub sees_variant : Scope → ℕ → Db → Bool
sees_variant scope v db = is_some (find? (λ r. r.id == v && visible scope r.tenant_id) db.variants)

abbrev pub sees_warehouse : Scope → ℕ → Db → Bool
sees_warehouse scope w db =
    is_some (find? (λ r. r.id == w && visible scope r.tenant_id) db.warehouses)

abbrev creates_level : MovementKind → Bool
creates_level in_ = true
creates_level adjust = true
creates_level _ = false

abbrev pub new_level : Movement → Inventory
new_level m = record {
  tenant_id = m.tenant_id;
  variant_id = m.variant_id;
  warehouse_id = m.warehouse_id;
  qty = pos 0;
  reserved_qty = pos 0;
  version = 0;
}

-- The rest of the read: a missing level is created where the kind allows it, and the INSERT trips
-- on the unique constraint if another session's row is there.
located : Scope → Movement → Option Inventory → Exec Error Db Inventory
located scope m (some inv) db = (ok inv, db)
located scope m none db =
    if not (creates_level m.kind)
    then (err (validation no_level), db)
    else if not (visible scope m.tenant_id)
    then (err row_security, db)
    else if is_some (level_at m.variant_id m.warehouse_id db.inventory)
    then (err (conflict concurrently_created), db)
    else (ok (new_level m), record db { inventory = db.inventory ++ new_level m ∷ [] })

unfoldable pub lock_level : Scope → Movement → Exec Error Db Inventory
unfolding located
lock_level scope m db =
    located scope m (find_level scope m.variant_id m.warehouse_id db.inventory) db

abbrev pub is_stale : Option ℕ → ℕ → Bool
is_stale none version = false
is_stale (some expected) version = not (expected == version)

-- The CHECK constraints of the table.
abbrev pub passes_checks : Inventory → Bool
passes_checks r = leb_ℤ (pos 0) r.qty && leb_ℤ (pos 0) r.reserved_qty && leb_ℤ r.reserved_qty r.qty

abbrev pub journal_row : Movement → StockMovement
journal_row m = record {
  tenant_id = m.tenant_id;
  variant_id = m.variant_id;
  warehouse_id = m.warehouse_id;
  kind = m.kind;
  qty = m.qty;
  reference = m.reference;
}

abbrev pub movement_event : Movement → Inventory → ℕ → OutboxEvent
movement_event m inv id = record {
  id = id;
  tenant_id = m.tenant_id;
  payload =
      movement_applied m.variant_id m.warehouse_id m.kind m.qty inv.qty inv.reserved_qty
        inv.version;
  published = false;
}

-- Both flushes and the `enqueue`.
unfoldable pub record_movement : Movement → Inventory → Db → Db
record_movement m inv db = record db {
  inventory = write_level inv db.inventory;
  movements = db.movements ++ journal_row m ∷ [];
  outbox = db.outbox ++ movement_event m inv db.next_id ∷ [];
  next_id = suc db.next_id;
}

abbrev pub moved : Inventory → ℤ × ℤ → Inventory
moved inv (qty, reserved) = record inv {
  qty = qty;
  reserved_qty = reserved;
  version = inv.version + 1;
}

-- The part of `apply_movement` that works on the locked row.
unfoldable pub move_level : Scope → Movement → Inventory → Exec Error Db Inventory
unfolding record_movement
move_level scope m inv = do
  raise_if (is_stale m.expected_version inv.version) (conflict stale_version)
  after ← lift (effect m.kind m.qty inv.qty inv.reserved_qty)
  raise_if (not (passes_checks (moved inv after))) integrity
  raise_if (not (visible scope m.tenant_id)) row_security
  modify (record_movement m (moved inv after))
  pure (moved inv after)

unfoldable pub apply_movement : Scope → Movement → Exec Error Db Inventory
unfolding lock_level move_level
apply_movement scope m = do
  known ← gets (sees_variant scope m.variant_id)
  raise_if (not known) (not_found no_variant)
  placed ← gets (sees_warehouse scope m.warehouse_id)
  raise_if (not placed) (not_found no_warehouse)
  inv ← lock_level scope m
  move_level scope m inv

abbrev leg : ℕ → ℕ → ℕ → MovementKind → ℤ → Option String → Movement
leg tenant v w kind qty reference = record {
  tenant_id = tenant;
  variant_id = v;
  warehouse_id = w;
  kind = kind;
  qty = qty;
  reference = reference;
  expected_version = none;
}

-- `transfer_stock`: an `out` of the source, then an `in` to the destination.
unfoldable pub transfer_stock :
    Scope → ℕ → ℕ → ℕ → ℕ → ℤ → Option String → Exec Error Db (Inventory × Inventory)
transfer_stock scope tenant v from to qty reference = do
  raise_if (leb_ℤ qty (pos 0)) (validation qty_not_positive)
  raise_if (from == to) (validation same_warehouse)
  known ← gets (sees_warehouse scope to)
  raise_if (not known) (not_found no_destination)
  source ← apply_movement scope (leg tenant v from out qty reference)
  destination ← apply_movement scope (leg tenant v to in_ qty reference)
  pure (source, destination)
