-- ===== src/Inventory/Levels.antt =====
-- The table of stock levels: what an UPDATE and an INSERT do to the rows and to the sums over a
-- variant (`domain/inventory.py`, table `inventory`).
use posnet_adapter.Prelude.{
  ℕ, ◌≡◌, refl, true, false, Option, none, some, List, [], ◌∷◌, ◌++◌, arith, All, if◌then◌else◌,
}
use posnet_adapter.Prelude.Int.{ℤ, pos, ◌+ℤ◌, ◌≤ℤ◌, int_laws}
use posnet_adapter.Tables.{Inventory, Scope, visible}
use posnet_adapter.Inventory.{same_level, level_at, find_level, write_level}

-- What the CHECK constraints say of a row.
abbrev pub IsSoundPair : ℤ × ℤ → Type 0
IsSoundPair (qty, reserved) = (pos 0 ≤ℤ reserved) × (reserved ≤ℤ qty)

abbrev pub IsSoundLevel : Inventory → Type 0
IsSoundLevel r = IsSoundPair (r.qty, r.reserved_qty)

-- UNIQUE (variant_id, warehouse_id).
abbrev pub IsUnique : List Inventory → Type 0
IsUnique [] = Unit
IsUnique (r ∷ rows) = (level_at r.variant_id r.warehouse_id rows ≡ none) × IsUnique rows

-- Quantity and reservation of a variant in a warehouse, nothing where there is no row.
abbrev pub pair_of : Option Inventory → ℤ × ℤ
pair_of none = (pos 0, pos 0)
pair_of (some r) = (r.qty, r.reserved_qty)

abbrev pub stock_at : ℕ → ℕ → List Inventory → ℤ × ℤ
stock_at v w rows = pair_of (level_at v w rows)

pub level_at-write_self :
    (inv r : Inventory) (rows : List Inventory)
    → level_at inv.variant_id inv.warehouse_id rows ≡ some r
    → level_at inv.variant_id inv.warehouse_id (write_level inv rows) ≡ some inv
level_at-write_self inv r [] h = ground arith
level_at-write_self inv r (x ∷ rows) h = ground (arith, level_at-write_self inv r rows)

pub level_at-write_ne :
    (v w : ℕ) (inv : Inventory) (rows : List Inventory)
    → same_level v w inv ≡ false
    → level_at v w (write_level inv rows) ≡ level_at v w rows
level_at-write_ne v w inv [] h = refl
level_at-write_ne v w inv (x ∷ rows) h = ground (arith, level_at-write_ne v w inv rows h)

pub level_at-append :
    (v w : ℕ) (inv : Inventory) (rows : List Inventory)
    → level_at inv.variant_id inv.warehouse_id rows ≡ none
    → level_at v w (rows ++ inv ∷ []) ≡ (if same_level v w inv then some inv else level_at v w rows)
level_at-append v w inv [] h = ground arith
level_at-append v w inv (x ∷ rows) h = ground (arith, level_at-append v w inv rows)

-- A row that is found bears the key that was asked for.
pub level_at_key :
    (v w : ℕ) (rows : List Inventory) (r : Inventory)
    → level_at v w rows ≡ some r
    → (r.variant_id ≡ v) × (r.warehouse_id ≡ w)
level_at_key v w [] r h = ground arith
level_at_key v w (x ∷ rows) r h = ground (arith, level_at_key v w rows r)

-- With the unique constraint, what a session sees under a key is the row of that key.
pub find_level-level_at :
    (scope : Scope) (v w : ℕ) (rows : List Inventory) (r : Inventory)
    → IsUnique rows
    → find_level scope v w rows ≡ some r
    → (level_at v w rows ≡ some r) × (visible scope r.tenant_id ≡ true)
find_level-level_at scope v w [] r u h = ground arith
find_level-level_at scope v w (x ∷ rows) r u h =
    ground (arith, find_level-level_at scope v w rows r u.1, level_at_key v w rows r)

-- A write under one key leaves what a session finds under another.
pub find_level-write_ne :
    (scope : Scope) (v w : ℕ) (inv : Inventory) (rows : List Inventory)
    → same_level v w inv ≡ false
    → find_level scope v w (write_level inv rows) ≡ find_level scope v w rows
find_level-write_ne scope v w inv [] h = refl
find_level-write_ne scope v w inv (x ∷ rows) h =
    ground (arith, find_level-write_ne scope v w inv rows h)

pub level_at-IsSoundLevel :
    (v w : ℕ) (rows : List Inventory) (r : Inventory)
    → All IsSoundLevel rows
    → level_at v w rows ≡ some r
    → IsSoundLevel r
level_at-IsSoundLevel v w [] r a h = ground arith
level_at-IsSoundLevel v w (x ∷ rows) r a h = ground (arith, level_at-IsSoundLevel v w rows r a.1)

pub write_level-IsSoundLevel :
    (inv : Inventory) (rows : List Inventory)
    → IsSoundLevel inv
    → All IsSoundLevel rows
    → All IsSoundLevel (write_level inv rows)
write_level-IsSoundLevel inv [] s a = tt
write_level-IsSoundLevel inv (x ∷ rows) s a =
    ground (arith, write_level-IsSoundLevel inv rows s a.1)

pub write_level-IsUnique :
    (inv : Inventory) (rows : List Inventory) → IsUnique rows → IsUnique (write_level inv rows)
write_level-IsUnique inv [] u = tt
write_level-IsUnique inv (x ∷ rows) u = ground (
  arith,
  write_level-IsUnique inv rows u.1,
  level_at-write_ne x.variant_id x.warehouse_id inv rows,
)

pub append-IsUnique :
    (inv : Inventory) (rows : List Inventory)
    → level_at inv.variant_id inv.warehouse_id rows ≡ none
    → IsUnique rows
    → IsUnique (rows ++ inv ∷ [])
append-IsUnique inv [] h u = (refl, tt)
append-IsUnique inv (x ∷ rows) h u =
    ground (arith, append-IsUnique inv rows, level_at-append x.variant_id x.warehouse_id inv rows)

-- A sum over the rows of a table, of a figure of each row.
abbrev pub sum_over : (Inventory → ℤ) → List Inventory → ℤ
sum_over f [] = pos 0
sum_over f (r ∷ rows) = f r +ℤ sum_over f rows

-- An UPDATE changes a sum by the change of its row.
pub sum_over-write :
    (f : Inventory → ℤ) (inv r : Inventory) (rows : List Inventory)
    → level_at inv.variant_id inv.warehouse_id rows ≡ some r
    → sum_over f (write_level inv rows) +ℤ f r ≡ sum_over f rows +ℤ f inv
sum_over-write f inv r [] h = ground arith
sum_over-write f inv r (x ∷ rows) h = grind (int_laws, sum_over-write f inv r rows)

pub sum_over-append :
    (f : Inventory → ℤ) (inv : Inventory) (rows : List Inventory)
    → sum_over f (rows ++ inv ∷ []) ≡ sum_over f rows +ℤ f inv
sum_over-append f inv [] = omega int_laws
sum_over-append f inv (x ∷ rows) = rw (sum_over-append f inv rows) (omega int_laws)
