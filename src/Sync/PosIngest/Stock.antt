-- ===== src/Sync/PosIngest/Stock.antt =====
-- `_set_stock` drives a level to the figure of the POS.
use posnet_adapter.Prelude.{
  ℕ, ◌≡◌, refl, sym, ap, ◌∙◌, Bool, true, false, not, ◌&&◌, some, List, [], ◌∷◌, ◌==◌, arith,
  select, Bool-cases, inl, inr,
}
use posnet_adapter.Prelude.Int.{ℤ, pos, ◌+ℤ◌, ◌-ℤ◌, ◌==ℤ◌, ◌≤ℤ◌, leb_ℤ, ltb_ℤ, int_laws}
use posnet_adapter.Prelude.Exec.{ok, err, pure_then}
use posnet_adapter.Tables.{Inventory, Db, Scope, visible, validation, below_reserved, adjust}
use posnet_adapter.Inventory.{
  level_at, find_level, write_level, moved, record_movement, effect, sees_variant, sees_warehouse,
  apply_movement, lock_level, move_level, passes_checks,
}
use posnet_adapter.Inventory.Levels.{
  IsSoundLevel, IsUnique, find_level-level_at, level_at-IsSoundLevel, level_at_key,
}
use posnet_adapter.Inventory.Journal.{IsConsistent}
use posnet_adapter.Sync.PosIngest.{level_in, pos_movement, drive_to, set_stock}

-- The level that `_set_stock` reads.
level_in-select :
    (scope : Scope) (v w : ℕ) (rows : List Inventory)
    → level_in w (select (λ r. r.variant_id == v && visible scope r.tenant_id) rows)
      ≡ find_level scope v w rows
level_in-select scope v w [] = refl
level_in-select scope v w (r ∷ rows) = ground (arith, level_in-select scope v w rows)

cancel : (a b : ℤ) → a +ℤ (b -ℤ a) ≡ b
cancel a b = grind int_laws

not_below : (a b : ℤ) → leb_ℤ a b ≡ true → ltb_ℤ b a ≡ false
not_below a b h = ground (arith, h)

below : (a b : ℤ) → leb_ℤ a b ≡ false → ltb_ℤ b a ≡ true
below a b h = ground (arith, h)

zero_delta : (a b : ℤ) → ((b -ℤ a) ==ℤ pos 0) ≡ true → a ≡ b
zero_delta a b h = grind (int_laws, h)

no_delta : (a : ℤ) → ((a -ℤ a) ==ℤ pos 0) ≡ true
no_delta a = grind int_laws

some_delta : (a b c : ℤ) → c ≤ℤ a → leb_ℤ c b ≡ false → ((b -ℤ a) ==ℤ pos 0) ≡ false
some_delta a b c h k = grind (int_laws, h, k)

find_level-write_self :
    (scope : Scope) (inv r : Inventory) (rows : List Inventory)
    → visible scope inv.tenant_id ≡ true
    → level_at inv.variant_id inv.warehouse_id rows ≡ some r
    → find_level scope inv.variant_id inv.warehouse_id (write_level inv rows) ≡ some inv
find_level-write_self scope inv r [] own h = ground arith
find_level-write_self scope inv r (x ∷ rows) own h =
    ground (arith, own, h, find_level-write_self scope inv r rows own)

module _ (scope : Scope) (tenant v w : ℕ) (target : ℤ) (db : Db) (r : Inventory) where
  abbrev after : Inventory
  after = moved r (target, r.reserved_qty)

  adjusted :
      sees_variant scope v db ≡ true
      → sees_warehouse scope w db ≡ true
      → visible scope tenant ≡ true
      → find_level scope v w db.inventory ≡ some r
      → IsSoundLevel r
      → leb_ℤ r.reserved_qty target ≡ true
      → apply_movement scope (pos_movement tenant v w adjust (target -ℤ r.qty)) db
        ≡ (ok after, record_movement (pos_movement tenant v w adjust (target -ℤ r.qty)) after db)
  unfolding apply_movement lock_level move_level effect
  adjusted known placed own found sound fits =
      let checks : passes_checks after ≡ true = ground (arith, sound, fits) in
      rw
        (
          known,
          placed,
          found,
          cancel r.qty target,
          not_below r.reserved_qty target fits,
          checks,
          own,
        )
        refl

  refused :
      sees_variant scope v db ≡ true
      → sees_warehouse scope w db ≡ true
      → find_level scope v w db.inventory ≡ some r
      → leb_ℤ r.reserved_qty target ≡ false
      → apply_movement scope (pos_movement tenant v w adjust (target -ℤ r.qty)) db
        ≡ (err (validation below_reserved), db)
  unfolding apply_movement lock_level move_level effect
  refused known placed found short =
      rw (known, placed, found, cancel r.qty target, below r.reserved_qty target short) refl

module _ (scope : Scope) (tenant v w : ℕ) (target : ℤ) where
  set_stock_read :
      (db : Db)
      → set_stock scope tenant v w target db
        ≡ drive_to scope tenant v w target (find_level scope v w db.inventory) db
  unfolding set_stock
  set_stock_read db =
      ap (λ o. drive_to scope tenant v w target o db) (level_in-select scope v w db.inventory)

  set_stock_at :
      (db : Db) (r : Inventory)
      → find_level scope v w db.inventory ≡ some r
      → r.qty ≡ target
      → set_stock scope tenant v w target db ≡ (ok false, db)
  set_stock_at db r found at =
      set_stock_read db ∙ (rw (found, drive_to, at) (rw (no_delta target) refl))

  -- The row as the session finds it again, after its UPDATE.
  found_again :
      (db : Db) (r : Inventory)
      → IsUnique db.inventory
      → find_level scope v w db.inventory ≡ some r
      → find_level scope v w (write_level (after scope tenant v w target db r) db.inventory)
        ≡ some (after scope tenant v w target db r)
  found_again db r unique found =
      let (at, own) = find_level-level_at scope v w db.inventory r unique found in
      let (ev, ew) = level_at_key v w db.inventory r at in
      let here : level_at r.variant_id r.warehouse_id db.inventory ≡ some r =
        ap (λ k. level_at k r.warehouse_id db.inventory) ev
        ∙ ap (λ k. level_at v k db.inventory) ew
        ∙ at in
      let inv = after scope tenant v w target db r in
      ap (λ k. find_level scope k w (write_level inv db.inventory)) (sym ev)
      ∙ ap (λ k. find_level scope r.variant_id k (write_level inv db.inventory)) (sym ew)
      ∙ find_level-write_self scope inv r db.inventory own here

  -- The level that is there, after it was driven to the target: its quantity is the target, its
  -- reservation as before, and driving it again changes nothing.
  abbrev pub IsDriven : Inventory → Bool → Db → Type 0
  IsDriven r told db' =
      ((r' : Inventory) × (find_level scope v w db'.inventory ≡ some r')
        × (r'.qty ≡ target)
        × (r'.reserved_qty ≡ r.reserved_qty))
      × (told ≡ not ((target -ℤ r.qty) ==ℤ pos 0))
      × (set_stock scope tenant v w target db' ≡ (ok false, db'))

  module _ (db : Db) (r : Inventory) (consistent : IsConsistent db)
      (known : sees_variant scope v db ≡ true) (placed : sees_warehouse scope w db ≡ true)
      (found : find_level scope v w db.inventory ≡ some r) where
    sound : IsSoundLevel r
    sound =
        level_at-IsSoundLevel v w db.inventory r consistent.sound
          (find_level-level_at scope v w db.inventory r consistent.unique found).0

    -- On consistent tables, a level that the tenant's session sees, with its variant and warehouse,
    -- and whose reservation fits under the figure of the POS, is driven to that figure: its
    -- reservation stays, a movement is told exactly if the figure differed, and driving it again
    -- changes nothing.
    pub set_stock_lem :
        visible scope tenant ≡ true
        → leb_ℤ r.reserved_qty target ≡ true
        → (told : Bool) × (db' : Db) × (set_stock scope tenant v w target db ≡ (ok told, db'))
          × IsDriven r told db'
    unfolding record_movement
    set_stock_lem own fits = elim (Bool-cases ((target -ℤ r.qty) ==ℤ pos 0)) [
      | inl same ↦
          let at = zero_delta r.qty target same in
          let idle = set_stock_at db r found at in
          (false, db, idle, ((r, found, at, refl), rw same refl, idle))
      | inr differs ↦
          let r' = after scope tenant v w target db r in
          let m = pos_movement tenant v w adjust (target -ℤ r.qty) in
          let db' = record_movement m r' db in
          let again = found_again db r consistent.unique found in
          (
            true,
            db',
            set_stock_read db
                ∙ (rw (found, drive_to)
                    (rw differs (
                      pure_then (apply_movement scope m) true db db' r' (
                        adjusted scope tenant v w target db r known placed own found sound fits)))),
            ((r', again, refl, refl), rw differs refl, set_stock_at db' r' again refl),
          )
    ]

    -- On consistent tables, a level that the session sees, with its variant and warehouse, and that
    -- has more reserved than the POS has in stock is refused, and nothing is written.
    pub set_stock_below :
        leb_ℤ r.reserved_qty target ≡ false
        → set_stock scope tenant v w target db ≡ (err (validation below_reserved), db)
    set_stock_below short =
        set_stock_read db
        ∙ (rw (found, drive_to)
            (rw (some_delta r.qty target r.reserved_qty sound.1 short)
              (rw (refused scope tenant v w target db r known placed found short) refl)))
