-- ===== src/OrderIngest/Covered.antt =====
-- One order line against the online stock of its variant (`reserve_order`, the body of the loop
-- over the lines).
use mathlib.Core.Path.{subst}
use posnet_adapter.Prelude.{
  ℕ, String, ◌⊎◌, ◌≡◌, refl, ◌∙◌, Bool, true, false, ◌&&◌, List, [], ◌∷◌, arith, ◌==◌, map, All,
  if◌then◌else◌, Bool-cases, inl, inr, All-map, find?, is_some, select,
}
use posnet_adapter.Prelude.Int.{ℤ, pos, ◌≤ℤ◌, ◌==ℤ◌, ltb_ℤ, leb_ℤ, min_ℤ, max_ℤ, int_laws}
use posnet_adapter.Prelude.Exec.{ok, err, pure, raise_if}
use posnet_adapter.CanonicalModel.{CanonicalOrderLine}
use posnet_adapter.Tables.{Inventory, Warehouse, Db, Scope, visible, conflict, insufficient_online}
use posnet_adapter.Inventory.{sees_variant, sees_warehouse}
use posnet_adapter.Inventory.Levels.{IsSoundLevel, IsUnique, sum_over}
use posnet_adapter.OrderIngest.{
  contains, is_planned, online_warehouse_ids, columns, reserve_planned, planned_rows,
  reserve_variant, is_empty,
}
use posnet_adapter.OrderIngest.Plan.{
  available_of, planned_rows-Fits, planned_rows-IsSpread, sum_over-order,
}
use posnet_adapter.OrderIngest.Reserves.{Reserves, only, Reserves-refl, Reserves-ext}
use posnet_adapter.OrderIngest.Amount.{
  left_over, negative_quantity, covered_quantity, short_quantity, nonneg_quantity,
}
use posnet_adapter.OrderIngest.Line.{
  Leaves, Ready, sound_rows, available_nonneg, reserve_planned_lem,
}

-- The stock of a variant that is for sale online: the available figures of its rows in the
-- warehouses `ids`.
abbrev pub online_stock : Scope → ℕ → ℕ → List ℕ → Db → ℤ
online_stock scope tenant v ids db =
    sum_over (λ r. if is_planned scope tenant v ids r then available_of r else pos 0) db.inventory

sum_over-select :
    (p : Inventory → Bool) (rows : List Inventory)
    → sum_over available_of (select p rows)
      ≡ sum_over (λ r. if p r then available_of r else pos 0) rows
sum_over-select p [] = refl
sum_over-select p (r ∷ rows) = elim (Bool-cases (p r)) [
  | inl passes ↦ rw passes (rw (sum_over-select p rows) refl)
  | inr fails ↦ rw fails (rw (sum_over-select p rows) (omega int_laws))
]

pub sum_over-planned :
    (scope : Scope) (tenant v : ℕ) (ids : List ℕ) (db : Db)
    → sum_over available_of (planned_rows scope tenant v ids db)
      ≡ online_stock scope tenant v ids db
unfolding planned_rows
sum_over-planned scope tenant v ids db =
    sum_over-order available_of (select (is_planned scope tenant v ids) db.inventory)
    ∙ sum_over-select (is_planned scope tenant v ids) db.inventory

online_sees :
    (scope : Scope) (tenant w : ℕ) (rows : List Warehouse)
    → contains w (
        map
          (λ x. x.id)
          (select
            (λ x. (x.tenant_id == tenant && x.is_online_sellable) && visible scope x.tenant_id)
            rows))
      ≡ true
    → is_some (find? (λ x. x.id == w && visible scope x.tenant_id) rows) ≡ true
online_sees scope tenant w [] h = cc
online_sees scope tenant w (x ∷ rows) h = ground (arith, online_sees scope tenant w rows)

-- A warehouse that the first query lists is one that a movement finds.
pub online_warehouse_ids-sees :
    (scope : Scope) (tenant w : ℕ) (db : Db)
    → contains w (online_warehouse_ids scope tenant db) ≡ true
    → sees_warehouse scope w db ≡ true
unfolding online_warehouse_ids
online_warehouse_ids-sees scope tenant w db h = online_sees scope tenant w db.warehouses h

module _ (scope : Scope) (tenant v : ℕ) where
  select_nothing : (rows : List Inventory) → select (is_planned scope tenant v []) rows ≡ []
  select_nothing [] = refl
  select_nothing (r ∷ rows) = ground (arith, select_nothing rows)

  -- With no online warehouse the loop would do nothing.
  skip_or_loop :
      (ids : List ℕ) (reference : String) (n : ℤ) (db : Db)
      → (if is_empty ids
            then pure n
            else reserve_planned scope tenant v reference
                (map columns (planned_rows scope tenant v ids db))
                n)
          db
        ≡ reserve_planned scope tenant v reference
            (map columns (planned_rows scope tenant v ids db))
            n
            db
  unfolding planned_rows reserve_planned
  skip_or_loop [] reference n db = rw (select_nothing db.inventory) refl
  skip_or_loop (w ∷ ids) reference n db = refl

module _ (scope : Scope) (tenant v : ℕ) (reference : String) (db : Db) where
  abbrev ids : List ℕ
  ids = online_warehouse_ids scope tenant db

  planned-Ready :
      IsUnique db.inventory
      → All IsSoundLevel db.inventory
      → sees_variant scope v db ≡ true
      → Ready scope tenant v ids reference db (planned_rows scope tenant v ids db)
  planned-Ready unique sound known =
      let fits = planned_rows-Fits scope tenant v ids db unique sound in
      (
        known,
        All-map _ _ (planned_rows scope tenant v ids db)
            (λ r h. online_warehouse_ids-sees scope tenant r.warehouse_id db h.listed) fits,
        fits,
        planned_rows-IsSpread scope tenant v ids db unique,
        unique,
      )

  -- A line of negative quantity passes the loop untouched.
  reserve_planned_negative :
      (rows : List Inventory) (n : ℤ)
      → ltb_ℤ n (pos 0) ≡ true
      → reserve_planned scope tenant v reference (map columns rows) n db ≡ (ok n, db)
  unfolding reserve_planned
  reserve_planned_negative [] n h = refl
  reserve_planned_negative (r ∷ rows) n h =
      rw (not_zero n h, nothing_taken (available_of r) n h) (reserve_planned_negative rows n h)
    where
      not_zero : (k : ℤ) → ltb_ℤ k (pos 0) ≡ true → (k ==ℤ pos 0) ≡ false
      not_zero k low = grind int_laws

      nothing_taken : (a k : ℤ) → ltb_ℤ k (pos 0) ≡ true → leb_ℤ (min_ℤ a k) (pos 0) ≡ true
      nothing_taken a k low = grind int_laws

  -- The quantity that a line asks for: nothing below zero.
  abbrev asked : CanonicalOrderLine → ℤ
  asked line = max_ℤ line.qty (pos 0)

  abbrev stock : ℤ
  stock = online_stock scope tenant v ids db

  abbrev planned : List Inventory
  planned = planned_rows scope tenant v ids db

  -- The end of the line, given how the loop ended.
  finish :
      (line : CanonicalOrderLine) (rest : ℤ) (db' : Db)
      → reserve_planned scope tenant v reference (map columns planned) line.qty db ≡ (ok rest, db')
      → reserve_variant scope tenant ids reference line v db
        ≡ raise_if (ltb_ℤ (pos 0) rest) (conflict (insufficient_online line.qty line.sku)) db'
  unfolding reserve_variant
  finish line rest db' run = rw (skip_or_loop scope tenant v ids reference line.qty db ∙ run) refl

  -- What one line does: where the online stock of its variant covers it, it reserves its quantity;
  -- where not, it raises the conflict.
  abbrev pub LineOutcome : CanonicalOrderLine → Type 0
  LineOutcome line =
      ((asked line ≤ℤ stock)
        × (db' : Db) × (reserve_variant scope tenant ids reference line v db ≡ (ok tt, db'))
        × Reserves ids (only v (asked line)) db db')
      ⊎ (¬ (asked line ≤ℤ stock)
          × (db' : Db) × (reserve_variant scope tenant ids reference line v db
              ≡ (err (conflict (insufficient_online line.qty line.sku)), db')))

  module _ (unique : IsUnique db.inventory) (sound : All IsSoundLevel db.inventory)
      (known : sees_variant scope v db ≡ true) where
    stock_nonneg : pos 0 ≤ℤ stock
    stock_nonneg =
        subst (λ k. pos 0 ≤ℤ k) (sum_over-planned scope tenant v ids db)
          (available_nonneg scope tenant v ids reference planned (
            sound_rows scope tenant v ids reference planned db
              (planned-Ready unique sound known).2))

    negative_line : (line : CanonicalOrderLine) → ltb_ℤ line.qty (pos 0) ≡ true → LineOutcome line
    negative_line line low =
        let (fits, done, _) = negative_quantity v 0 line.qty stock low stock_nonneg in
        inl (
          fits,
          db,
          finish line line.qty db (reserve_planned_negative planned line.qty low) ∙ rw done refl,
          Reserves-ext ids _ _ db db
              (λ u. (negative_quantity v u line.qty stock low stock_nonneg).2)
              (Reserves-refl ids db unique),
        )

    loop_result :
        (line : CanonicalOrderLine)
        → ltb_ℤ line.qty (pos 0) ≡ false
        → Leaves scope tenant v ids reference planned line.qty (left_over line.qty stock) db
    loop_result line high =
        subst (λ k. Leaves scope tenant v ids reference planned line.qty (left_over line.qty k) db)
          (sum_over-planned scope tenant v ids db)
          (reserve_planned_lem scope tenant v ids reference planned line.qty db
            (nonneg_quantity line.qty high) (planned-Ready unique sound known))

    nonneg_line : (line : CanonicalOrderLine) → ltb_ℤ line.qty (pos 0) ≡ false → LineOutcome line
    nonneg_line line high =
        let (db', run, kept) = loop_result line high in
        elim (Bool-cases (leb_ℤ line.qty stock)) [
          | inl fits ↦
              let (covered, done, _) = covered_quantity v 0 line.qty stock high fits stock_nonneg in
              inl (
                covered,
                db',
                finish line _ db' run ∙ rw done refl,
                Reserves-ext ids _ _ db db'
                    (λ u. (covered_quantity v u line.qty stock high fits stock_nonneg).2) kept,
              )
          | inr short ↦
              let (uncovered, left) = short_quantity line.qty stock high short in
              inr (uncovered, db', finish line _ db' run ∙ rw left refl)
        ]

    -- A line is reserved in full exactly when the online stock of its variant covers it, and the
    -- loop raises nothing but the conflict.
    pub reserve_variant_lem : (line : CanonicalOrderLine) → LineOutcome line
    reserve_variant_lem line = elim (Bool-cases (ltb_ℤ line.qty (pos 0))) [
      | inl low ↦ negative_line line low
      | inr high ↦ nonneg_line line high
    ]
