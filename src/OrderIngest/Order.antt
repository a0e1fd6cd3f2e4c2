-- ===== src/OrderIngest/Order.antt =====
-- `reserve_order`: the loop over the lines keeps the tables consistent, raises nothing but a
-- rejection, and where it returns has reserved the demand of the whole order.
use mathlib.Core.Path.{subst}
use posnet_adapter.Prelude.{
  ℕ, String, ◌≡◌, refl, sym, ◌∙◌, true, ◌&&◌, Option, none, some, List, [], ◌∷◌, arith, ◌==◌, map,
  Bool-cases, Option-cases, inl, inr, find?, is_some, str_eq,
}
use posnet_adapter.Prelude.Int.{ℤ, pos, ◌+ℤ◌, ◌-ℤ◌, ◌==ℤ◌, ltb_ℤ, leb_ℤ, min_ℤ, max_ℤ}
use posnet_adapter.Prelude.Exec.{Result, ok, err, continue, raise_if, Result-cases}
use posnet_adapter.CanonicalModel.{CanonicalOrderLine, CanonicalOrder}
use posnet_adapter.Tables.{Variant, Db, Scope, visible, Error, conflict, insufficient_online}
use posnet_adapter.Inventory.{apply_movement}
use posnet_adapter.Inventory.Journal.{IsConsistent, apply_movement-IsConsistent}
use posnet_adapter.OrderIngest.{
  Planned, columns, take_movement, online_warehouse_ids, planned_rows, variant_of_sku,
  reserve_planned, reserve_variant, reserve_line, reserve_lines, reserve_order, is_rejection,
  order_reference,
}
use posnet_adapter.OrderIngest.Reserves.{
  Reserves, only, Reserves-refl, Reserves-trans, Reserves-ext,
}
use posnet_adapter.OrderIngest.Covered.{LineOutcome, reserve_variant_lem}

-- What a line demands of each variant, given the variant that its SKU names.
abbrev pub line_demand : Option Variant → CanonicalOrderLine → ℕ → ℤ
line_demand none line u = pos 0
line_demand (some x) line u = only x.id (max_ℤ line.qty (pos 0)) u

-- What the lines of an order demand of each variant.
abbrev pub demand : Scope → ℕ → Db → List CanonicalOrderLine → ℕ → ℤ
demand scope tenant db [] u = pos 0
demand scope tenant db (line ∷ lines) u =
    line_demand (variant_of_sku scope tenant line.sku db) line u +ℤ demand scope tenant db lines u

-- How a reservation that began at `db` ended.
abbrev pub Outcome : List ℕ → (ℕ → ℤ) → Db → Result Error (Unit {0}) × Db → Type 0
Outcome ids d db (ok _, db') = Reserves ids d db db'
Outcome ids d db (err e, db') = is_rejection e ≡ true

module _ (scope : Scope) (tenant : ℕ) (reference : String) where
  reserve_planned-IsConsistent :
      (v : ℕ) (plan : List Planned) (n : ℤ) (db : Db)
      → IsConsistent db
      → IsConsistent (reserve_planned scope tenant v reference plan n db).1
  unfolding reserve_planned
  reserve_planned-IsConsistent v [] n db h = h
  reserve_planned-IsConsistent v (p ∷ plan) n db h =
      let take = min_ℤ (p.qty -ℤ p.reserved_qty) n in
      let m = take_movement tenant v reference p.warehouse_id take in
      let (r, db') = apply_movement scope m db in
      elim (Bool-cases (n ==ℤ pos 0)) [
        | inl finished ↦ rw finished h
        | inr some_left ↦ elim (Bool-cases (leb_ℤ take (pos 0))) [
          | inl empty ↦ rw (some_left, empty) (reserve_planned-IsConsistent v plan n db h)
          | inr positive ↦
              rw (some_left, positive)
                (elim (Result-cases (apply_movement scope m db).0) [
                  | inl (inv, done) ↦ rw done (
                      reserve_planned-IsConsistent v plan (n -ℤ take) db'
                        (apply_movement-IsConsistent scope m db h))
                  | inr (e, raised) ↦ rw raised (apply_movement-IsConsistent scope m db h)
                ])
        ]
      ]

  reserve_variant-IsConsistent :
      (ids : List ℕ) (line : CanonicalOrderLine) (v : ℕ) (db : Db)
      → IsConsistent db
      → IsConsistent (reserve_variant scope tenant ids reference line v db).1
  unfolding reserve_variant
  reserve_variant-IsConsistent [] line v db h = ground (arith, h)
  reserve_variant-IsConsistent (w ∷ ids) line v db h =
      let plan = map columns (planned_rows scope tenant v (w ∷ ids) db) in
      let kept = reserve_planned-IsConsistent v plan line.qty db h in
      let run = reserve_planned scope tenant v reference plan line.qty db in
      elim (Result-cases run.0) [
        | inl (rest, done) ↦ rw done (settle rest run.1 kept)
        | inr (e, raised) ↦ rw raised kept
      ]
    where
      settle :
          (rest : ℤ) (db' : Db)
          → IsConsistent db'
          → IsConsistent
              (raise_if
                (ltb_ℤ (pos 0) rest)
                (conflict (insufficient_online line.qty line.sku))
                db').1
      settle rest db' k = ground (arith, k)

  reserve_line-IsConsistent :
      (ids : List ℕ) (line : CanonicalOrderLine) (db : Db)
      → IsConsistent db
      → IsConsistent (reserve_line scope tenant ids reference line db).1
  unfolding reserve_line
  reserve_line-IsConsistent ids line db h =
      elim (Option-cases (variant_of_sku scope tenant line.sku db)) [
        | inl unknown ↦ rw unknown h
        | inr (x, found) ↦ rw found (reserve_variant-IsConsistent ids line x.id db h)
      ]

  find_sku-sees :
      (sku : String) (x : Variant) (rows : List Variant)
      → find? (λ r. (r.tenant_id == tenant && str_eq r.sku sku) && visible scope r.tenant_id) rows
        ≡ some x
      → is_some (find? (λ r. r.id == x.id && visible scope r.tenant_id) rows) ≡ true
  find_sku-sees sku x [] h = cc
  find_sku-sees sku x (r ∷ rows) h = ground (arith, find_sku-sees sku x rows)

  line-Outcome :
      (line : CanonicalOrderLine) (db : Db)
      → IsConsistent db
      → Outcome
          (online_warehouse_ids scope tenant db)
          (line_demand (variant_of_sku scope tenant line.sku db) line)
          db
          (reserve_line scope tenant (online_warehouse_ids scope tenant db) reference line db)
  unfolding reserve_line
  line-Outcome line db h = elim (Option-cases (variant_of_sku scope tenant line.sku db)) [
    | inl unknown ↦ rw unknown refl
    | inr (x, found) ↦ rw found (
        settle x (
          reserve_variant_lem scope tenant x.id reference db h.unique h.sound
            (find_sku-sees line.sku x db.variants found) line))
  ]
    where
      settle :
          (x : Variant)
          → LineOutcome scope tenant x.id reference db line
          → Outcome (online_warehouse_ids scope tenant db) (line_demand (some x) line) db (
              reserve_variant scope tenant
                (online_warehouse_ids scope tenant db)
                reference
                line
                x.id
                db)
      settle x (inl (covered, db', run, kept)) = rw run kept
      settle x (inr (short, db', run)) = rw run refl

  same_ids :
      (db db' : Db)
      → db'.warehouses ≡ db.warehouses
      → online_warehouse_ids scope tenant db' ≡ online_warehouse_ids scope tenant db
  unfolding online_warehouse_ids
  same_ids db db' e = rw e refl

  same_demand :
      (lines : List CanonicalOrderLine) (db db' : Db) (u : ℕ)
      → db'.variants ≡ db.variants
      → demand scope tenant db' lines u ≡ demand scope tenant db lines u
  same_demand [] db db' u e = refl
  same_demand (line ∷ lines) db db' u e = rw (same_demand lines db db' u e) (rw e refl)

  rest-Outcome :
      (ids : List ℕ) (d : ℕ → ℤ) (lines : List CanonicalOrderLine) (db : Db)
      (run : Result Error (Unit {0}) × Db)
      → Outcome ids d db run
      → (Reserves ids d db run.1
          → Outcome ids
              (demand scope tenant db lines)
              run.1
              (reserve_lines scope tenant ids reference lines run.1))
      → Outcome ids
          (λ u. d u +ℤ demand scope tenant db lines u)
          db
          (continue run.0 (λ _. reserve_lines scope tenant ids reference lines) run.1)
  rest-Outcome ids d lines db (ok _, db') kept go_on =
      both (reserve_lines scope tenant ids reference lines db') (go_on kept)
    where
      both :
          (next : Result Error (Unit {0}) × Db)
          → Outcome ids (demand scope tenant db lines) db' next
          → Outcome ids (λ u. d u +ℤ demand scope tenant db lines u) db next
      both (ok _, db2) k = Reserves-trans ids d (demand scope tenant db lines) db db' db2 kept k
      both (err e, db2) k = k
  rest-Outcome ids d lines db (err e, db') rejected go_on = rejected

  -- The demand reads only the variants, which a reservation leaves.
  at_start :
      (lines : List CanonicalOrderLine) (ids : List ℕ) (db db' : Db)
      (run : Result Error (Unit {0}) × Db)
      → db'.variants ≡ db.variants
      → Outcome ids (demand scope tenant db' lines) db' run
      → Outcome ids (demand scope tenant db lines) db' run
  at_start lines ids db db' (ok _, db2) e kept =
      Reserves-ext ids _ _ db' db2 (λ u. same_demand lines db db' u e) kept
  at_start lines ids db db' (err _, db2) e rejected = rejected

  reserve_lines-Outcome :
      (lines : List CanonicalOrderLine) (ids : List ℕ) (db : Db)
      → ids ≡ online_warehouse_ids scope tenant db
      → IsConsistent db
      → Outcome ids
          (demand scope tenant db lines)
          db
          (reserve_lines scope tenant ids reference lines db)
  unfolding reserve_lines
  reserve_lines-Outcome [] ids db e h = Reserves-refl ids db h.unique
  reserve_lines-Outcome (line ∷ lines) ids db e h =
      let run = reserve_line scope tenant ids reference line db in
      rest-Outcome ids (line_demand (variant_of_sku scope tenant line.sku db) line) lines db run
        (subst
          (λ k.
            Outcome k (line_demand (variant_of_sku scope tenant line.sku db) line) db
              (reserve_line scope tenant k reference line db))
          (sym e) (line-Outcome line db h))
        (λ kept.
          at_start lines ids db run.1 (reserve_lines scope tenant ids reference lines run.1)
            kept.variants
            (reserve_lines-Outcome lines ids run.1 (e ∙ sym (same_ids db run.1 kept.warehouses))
              (reserve_line-IsConsistent ids line db h)))

  reserve_lines-IsConsistent :
      (lines : List CanonicalOrderLine) (ids : List ℕ) (db : Db)
      → IsConsistent db
      → IsConsistent (reserve_lines scope tenant ids reference lines db).1
  unfolding reserve_lines
  reserve_lines-IsConsistent [] ids db h = h
  reserve_lines-IsConsistent (line ∷ lines) ids db h =
      let kept = reserve_line-IsConsistent ids line db h in
      elim (Result-cases (reserve_line scope tenant ids reference line db).0) [
        | inl (_, done) ↦ rw done (reserve_lines-IsConsistent lines ids _ kept)
        | inr (e, raised) ↦ rw raised kept
      ]

module _ (scope : Scope) (tenant : ℕ) (order : CanonicalOrder) (db : Db) (h : IsConsistent db) where
  -- A reservation that returns has reserved exactly the order's demand of each variant, in online
  -- warehouses only; one that raises raises a rejection.
  pub reserve_order-Outcome :
      Outcome
        (online_warehouse_ids scope tenant db)
        (demand scope tenant db order.lines)
        db
        (reserve_order scope tenant order db)
  unfolding reserve_order
  reserve_order-Outcome =
      reserve_lines-Outcome scope tenant (order_reference order) order.lines
        (online_warehouse_ids scope tenant db) db refl h

  -- Reserving, whatever its outcome, keeps the tables consistent.
  pub reserve_order-IsConsistent : IsConsistent (reserve_order scope tenant order db).1
  unfolding reserve_order
  reserve_order-IsConsistent =
      reserve_lines-IsConsistent scope tenant (order_reference order) order.lines
        (online_warehouse_ids scope tenant db) db h
