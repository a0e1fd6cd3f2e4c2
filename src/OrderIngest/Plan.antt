-- ===== src/OrderIngest/Plan.antt =====
-- The planning query of `reserve_order`: what its rows have in common, and the sums over them.
use mathlib.Core.Path.{subst}
use posnet_adapter.Prelude.{
  ℕ, ◌≡◌, ◌≢◌, refl, sym, All-map, All-zip, Bool, true, false, none, some, List, [], ◌∷◌, arith,
  leb, All, select, Bool-cases, inl, inr,
}
use posnet_adapter.Prelude.Int.{ℤ, ◌+ℤ◌, ◌-ℤ◌, int_laws}
use posnet_adapter.Tables.{Inventory, Db, Scope, visible}
use posnet_adapter.Inventory.{same_level, level_at, find_level}
use posnet_adapter.Inventory.Levels.{IsSoundLevel, IsUnique, sum_over}
use posnet_adapter.OrderIngest.{
  contains, insert_by_warehouse, order_by_warehouse, is_planned, planned_rows,
}

-- `available`, the property of a level.
abbrev pub available_of : Inventory → ℤ
available_of r = r.qty -ℤ r.reserved_qty

-- No two rows are in one warehouse.
abbrev pub IsSpread : List Inventory → Type 0
IsSpread [] = Unit
IsSpread (r ∷ rows) = All (λ x. x.warehouse_id ≢ r.warehouse_id) rows × IsSpread rows

insert_by_warehouse-All :
    (P : Inventory → Type 0) (r : Inventory) (rows : List Inventory)
    → P r
    → All P rows
    → All P (insert_by_warehouse r rows)
insert_by_warehouse-All P r [] p a = (p, tt)
insert_by_warehouse-All P r (x ∷ rows) p a = elim (Bool-cases (leb r.warehouse_id x.warehouse_id)) [
  | inl first ↦ rw first (p, a)
  | inr later ↦ rw later (a.0, insert_by_warehouse-All P r rows p a.1)
]

pub order_by_warehouse-All :
    (P : Inventory → Type 0) (rows : List Inventory) → All P rows → All P (order_by_warehouse rows)
order_by_warehouse-All P [] a = tt
order_by_warehouse-All P (r ∷ rows) a =
    insert_by_warehouse-All P r (order_by_warehouse rows) a.0 (order_by_warehouse-All P rows a.1)

insert_by_warehouse-IsSpread :
    (r : Inventory) (rows : List Inventory)
    → All (λ x. x.warehouse_id ≢ r.warehouse_id) rows
    → IsSpread rows
    → IsSpread (insert_by_warehouse r rows)
insert_by_warehouse-IsSpread r [] a s = (tt, tt)
insert_by_warehouse-IsSpread r (x ∷ rows) a s =
    elim (Bool-cases (leb r.warehouse_id x.warehouse_id)) [
      | inl first ↦ rw first (a, s)
      | inr later ↦ rw later (
        insert_by_warehouse-All (λ y. y.warehouse_id ≢ x.warehouse_id) r rows (λ e. a.0 (sym e))
            s.0,
        insert_by_warehouse-IsSpread r rows a.1 s.1,
      )
    ]

pub order_by_warehouse-IsSpread :
    (rows : List Inventory) → IsSpread rows → IsSpread (order_by_warehouse rows)
order_by_warehouse-IsSpread [] s = tt
order_by_warehouse-IsSpread (r ∷ rows) s =
    insert_by_warehouse-IsSpread r (order_by_warehouse rows)
      (order_by_warehouse-All (λ x. x.warehouse_id ≢ r.warehouse_id) rows s.0)
      (order_by_warehouse-IsSpread rows s.1)

sum_over-insert :
    (f : Inventory → ℤ) (r : Inventory) (rows : List Inventory)
    → sum_over f (insert_by_warehouse r rows) ≡ f r +ℤ sum_over f rows
sum_over-insert f r [] = refl
sum_over-insert f r (x ∷ rows) = grind (int_laws, sum_over-insert f r rows)

-- The order of the rows does not matter to a sum over them.
pub sum_over-order :
    (f : Inventory → ℤ) (rows : List Inventory)
    → sum_over f (order_by_warehouse rows) ≡ sum_over f rows
sum_over-order f [] = refl
sum_over-order f (r ∷ rows) =
    rw (sum_over-insert f r (order_by_warehouse rows)) (rw (sum_over-order f rows) refl)

module _ (p : Inventory → Bool) where
  -- A selected row passes the test and has whatever every row has.
  pub select-All :
      (P : Inventory → Type 0) (rows : List Inventory)
      → All P rows
      → All (λ r. P r × (p r ≡ true)) (select p rows)
  select-All P [] a = tt
  select-All P (r ∷ rows) a = elim (Bool-cases (p r)) [
    | inl passes ↦ rw passes ((a.0, passes), select-All P rows a.1)
    | inr fails ↦ rw fails (select-All P rows a.1)
  ]

-- Where a row is free of a key, so is every selection.
level_at-none :
    (v w : ℕ) (rows : List Inventory)
    → level_at v w rows ≡ none
    → All (λ x. same_level v w x ≡ false) rows
level_at-none v w [] h = tt
level_at-none v w (x ∷ rows) h = elim (Bool-cases (same_level v w x)) [
  | inl here ↦ ground arith
  | inr other ↦ (other, level_at-none v w rows (ground arith))
]

-- Under the unique constraint, looking up the key of a visible row finds the row.
find_level_self :
    (scope : Scope) (rows : List Inventory)
    → IsUnique rows
    → All
        (λ r.
          visible scope r.tenant_id ≡ true
          → find_level scope r.variant_id r.warehouse_id rows ≡ some r)
        rows
find_level_self scope [] u = tt
find_level_self scope (r ∷ rows) u = (
  (λ seen. ground arith),
  All-map _ _ rows (λ x h seen. skip x h.1 (h.0 seen))
      (All-zip _ _ rows (find_level_self scope rows u.1)
        (level_at-none r.variant_id r.warehouse_id rows u.0)),
)
  where
    skip :
        (x : Inventory)
        → same_level r.variant_id r.warehouse_id x ≡ false
        → find_level scope x.variant_id x.warehouse_id rows ≡ some x
        → find_level scope x.variant_id x.warehouse_id (r ∷ rows) ≡ some x
    skip x other found = ground arith

module _ (scope : Scope) (tenant v : ℕ) (ids : List ℕ) where
  -- What is known of a planned row.
  pub record Fits (db : Db) (r : Inventory) : Type 0 where
    pub variant : r.variant_id ≡ v
    pub listed : contains r.warehouse_id ids ≡ true
    pub tenant_seen : visible scope tenant ≡ true
    pub found : find_level scope v r.warehouse_id db.inventory ≡ some r
    pub sound : IsSoundLevel r

  select-IsSpread :
      (rows : List Inventory)
      → IsUnique rows
      → IsSpread (select (is_planned scope tenant v ids) rows)
  select-IsSpread [] u = tt
  select-IsSpread (r ∷ rows) u = elim (Bool-cases (is_planned scope tenant v ids r)) [
    | inl passes ↦ rw passes (
      All-map _ _ (select (is_planned scope tenant v ids) rows) (λ x h. elsewhere x passes h.0 h.1)
          (select-All (is_planned scope tenant v ids) _ rows
            (level_at-none r.variant_id r.warehouse_id rows u.0)),
      select-IsSpread rows u.1,
    )
    | inr fails ↦ rw fails (select-IsSpread rows u.1)
  ]
    where
      elsewhere :
          (x : Inventory)
          → is_planned scope tenant v ids r ≡ true
          → same_level r.variant_id r.warehouse_id x ≡ false
          → is_planned scope tenant v ids x ≡ true
          → x.warehouse_id ≢ r.warehouse_id
      elsewhere x a b c = ground arith

  pub planned_rows-IsSpread :
      (db : Db) → IsUnique db.inventory → IsSpread (planned_rows scope tenant v ids db)
  unfolding planned_rows
  planned_rows-IsSpread db u = order_by_warehouse-IsSpread _ (select-IsSpread db.inventory u)

  planned_parts :
      (r : Inventory)
      → is_planned scope tenant v ids r ≡ true
      → (r.variant_id ≡ v)
        × (contains r.warehouse_id ids ≡ true)
        × (visible scope r.tenant_id ≡ true)
        × (visible scope tenant ≡ true)
  planned_parts r passes = ground arith

  fits :
      (db : Db) (r : Inventory)
      → (visible scope r.tenant_id ≡ true
          → find_level scope r.variant_id r.warehouse_id db.inventory ≡ some r)
      → IsSoundLevel r
      → is_planned scope tenant v ids r ≡ true
      → Fits db r
  fits db r found sound passes =
      let (e, listed, seen, own) = planned_parts r passes in
      record {
        variant = e;
        listed = listed;
        tenant_seen = own;
        found = subst (λ k. find_level scope k r.warehouse_id db.inventory ≡ some r) e (found seen);
        sound = sound;
      }

  pub planned_rows-Fits :
      (db : Db)
      → IsUnique db.inventory
      → All IsSoundLevel db.inventory
      → All (Fits db) (planned_rows scope tenant v ids db)
  unfolding planned_rows
  planned_rows-Fits db u s =
      order_by_warehouse-All (Fits db) (select (is_planned scope tenant v ids) db.inventory) (
        All-map _ _ (select (is_planned scope tenant v ids) db.inventory)
          (λ r h. fits db r h.0.0 h.0.1 h.1)
          (select-All (is_planned scope tenant v ids) _ db.inventory
            (All-zip _ _ db.inventory (find_level_self scope db.inventory u) s)))
