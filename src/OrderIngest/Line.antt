-- ===== src/OrderIngest/Line.antt =====
-- One order line: the loop over the planned rows reserves exactly what the online warehouses have,
-- up to the line's quantity, and cannot raise.
use mathlib.Core.Path.{subst}
use posnet_adapter.Prelude.{
  ℕ, String, ◌≡◌, ◌≢◌, refl, sym, ◌∙◌, true, false, some, List, [], ◌∷◌, arith, map, All,
  Bool-cases, inl, inr, All-map, All-zip,
}
use posnet_adapter.Prelude.Int.{ℤ, pos, ◌+ℤ◌, ◌-ℤ◌, ◌≤ℤ◌, ◌==ℤ◌, ltb_ℤ, leb_ℤ, min_ℤ, int_laws}
use posnet_adapter.Prelude.Exec.{ok}
use posnet_adapter.Tables.{Inventory, Db, Scope}
use posnet_adapter.Inventory.{
  effect, passes_checks, moved, record_movement, same_level, level_at, sees_variant, sees_warehouse,
  lock_level, move_level, apply_movement,
}
use posnet_adapter.Inventory.Levels.{
  IsSoundLevel, IsUnique, sum_over, sum_over-write, find_level-level_at, find_level-write_ne,
  level_at-write_ne, write_level-IsUnique,
}
use posnet_adapter.OrderIngest.{contains, columns, take_movement, reserve_planned}
use posnet_adapter.OrderIngest.Plan.{available_of, IsSpread, Fits}
use posnet_adapter.OrderIngest.Reserves.{
  reserved_of, on_hand_of, Reserves, only, Reserves-refl, Reserves-trans, Reserves-ext,
}
use posnet_adapter.OrderIngest.Amount.{
  left_over, self_cancel, split_amount, left_over_zero, left_over_done, left_over_skip,
  left_over_take, take_range, available_row,
}

module _ (scope : Scope) (tenant v : ℕ) (ids : List ℕ) (reference : String) where
  abbrev pub taken : Inventory → ℤ → Inventory
  taken r take = moved r (r.qty, r.reserved_qty +ℤ take)

  abbrev pub after_take : Inventory → ℤ → Db → Db
  after_take r take db =
      record_movement (take_movement tenant v reference r.warehouse_id take) (taken r take) db

  -- A reservation that is covered cannot raise.
  take_one :
      (r : Inventory) (take : ℤ) (db : Db)
      → Fits scope tenant v ids db r
      → sees_variant scope v db ≡ true
      → sees_warehouse scope r.warehouse_id db ≡ true
      → pos 0 ≤ℤ take
      → take ≤ℤ available_of r
      → apply_movement scope (take_movement tenant v reference r.warehouse_id take) db
        ≡ (ok (taken r take), after_take r take db)
  unfolding apply_movement lock_level move_level effect
  take_one r take db fits known placed low high =
      rw (known, placed, fits.found, covered, sound, fits.tenant_seen) refl
    where
      covered : ltb_ℤ (r.qty -ℤ r.reserved_qty) take ≡ false
      covered = grind int_laws

      sound : passes_checks (taken r take) ≡ true
      sound = grind (int_laws, fits.sound)

  locked :
      (r : Inventory) (db : Db)
      → Fits scope tenant v ids db r
      → IsUnique db.inventory
      → level_at r.variant_id r.warehouse_id db.inventory ≡ some r
  locked r db fits u =
      subst (λ k. level_at k r.warehouse_id db.inventory ≡ some r) (sym fits.variant)
        (find_level-level_at scope v r.warehouse_id db.inventory r u fits.found).0

  elsewhere :
      (r : Inventory) (take : ℤ) (db : Db) (x w : ℕ)
      → Fits scope tenant v ids db r
      → contains w ids ≡ false
      → same_level x w (taken r take) ≡ false
  elsewhere r take db x w fits off = ground (arith, fits.listed)

  take_one-Reserves :
      (r : Inventory) (take : ℤ) (db : Db)
      → Fits scope tenant v ids db r
      → IsUnique db.inventory
      → Reserves ids (only v take) db (after_take r take db)
  unfolding record_movement
  take_one-Reserves r take db fits u = record {
    warehouses = refl;
    variants = refl;
    orders = refl;
    unique = write_level-IsUnique (taken r take) db.inventory u;
    reserved = λ x. grind (
      int_laws,
      sum_over-write (reserved_of x) (taken r take) r db.inventory (locked r db fits u),
    );
    on_hand = λ x. grind (
      int_laws,
      sum_over-write (on_hand_of x) (taken r take) r db.inventory (locked r db fits u),
    );
    offline = λ x w off.
        level_at-write_ne x w (taken r take) db.inventory (elsewhere r take db x w fits off);
  }

  -- The rows still to come are as they were planned.
  take_one-Fits :
      (r x : Inventory) (take : ℤ) (db : Db)
      → Fits scope tenant v ids db r
      → x.warehouse_id ≢ r.warehouse_id
      → Fits scope tenant v ids db x
      → Fits scope tenant v ids (after_take r take db) x
  unfolding record_movement
  take_one-Fits r x take db fits other h = record {
    variant = h.variant;
    listed = h.listed;
    tenant_seen = h.tenant_seen;
    found =
        find_level-write_ne scope v x.warehouse_id (taken r take) db.inventory (ground arith)
        ∙ h.found;
    sound = h.sound;
  }

  pub available_nonneg :
      (rows : List Inventory) → All IsSoundLevel rows → pos 0 ≤ℤ sum_over available_of rows
  available_nonneg [] s = omega arith
  available_nonneg (r ∷ rows) s = grind (int_laws, available_nonneg rows s.1)

  abbrev pub Ready : Db → List Inventory → Type 0
  Ready db rows =
      (sees_variant scope v db ≡ true)
      × All (λ r. sees_warehouse scope r.warehouse_id db ≡ true) rows
      × All (Fits scope tenant v ids db) rows
      × IsSpread rows
      × IsUnique db.inventory

  take_one-Ready :
      (r : Inventory) (rows : List Inventory) (take : ℤ) (db : Db)
      → Ready db (r ∷ rows)
      → Ready (after_take r take db) rows
  unfolding record_movement
  take_one-Ready r rows take db (known, placed, fits, spread, u) = (
    known,
    placed.1,
    All-map _ _ rows (λ x h. take_one-Fits r x take db fits.0 h.0 h.1)
        (All-zip _ _ rows spread.0 fits.1),
    spread.1,
    write_level-IsUnique (taken r take) db.inventory u,
  )

  pub sound_rows :
      (rows : List Inventory) (db : Db)
      → All (Fits scope tenant v ids db) rows
      → All IsSoundLevel rows
  sound_rows rows db fits = All-map _ _ rows (λ r h. h.sound) fits

  Ready-tail :
      (r : Inventory) (rows : List Inventory) (db : Db) → Ready db (r ∷ rows) → Ready db rows
  Ready-tail r rows db (known, placed, fits, spread, u) = (known, placed.1, fits.1, spread.1, u)

  -- A run of the loop that leaves `rest`.
  abbrev pub Leaves : List Inventory → ℤ → ℤ → Db → Type 0
  Leaves rows remaining rest db =
      (db' : Db) × (reserve_planned scope tenant v reference (map columns rows) remaining db
        ≡ (ok rest, db'))
      × Reserves ids (only v (remaining -ℤ rest)) db db'

  nothing_left :
      (rows : List Inventory) (remaining : ℤ) (db : Db)
      → (reserve_planned scope tenant v reference (map columns rows) remaining db
          ≡ (ok remaining, db))
      → IsUnique db.inventory
      → Leaves rows remaining remaining db
  nothing_left rows remaining db e u =
      (db, e, Reserves-ext ids _ _ db db (λ x. self_cancel v x remaining) (Reserves-refl ids db u))

  abbrev share : Inventory → ℤ → ℤ
  share r remaining = min_ℤ (available_of r) remaining

  take_and_go_on :
      (r : Inventory) (rows : List Inventory) (remaining rest : ℤ) (db : Db)
      → Ready db (r ∷ rows)
      → (remaining ==ℤ pos 0) ≡ false
      → leb_ℤ (share r remaining) (pos 0) ≡ false
      → Leaves rows (remaining -ℤ share r remaining) rest (after_take r (share r remaining) db)
      → Leaves (r ∷ rows) remaining rest db
  unfolding reserve_planned
  take_and_go_on r rows remaining rest db ready some_left positive (db', run, kept) =
      let (low, high, _) = take_range remaining (available_of r) positive in
      let take = share r remaining in
      let taking = take_one r take db ready.2.0 ready.0 ready.1.0 low high in
      (
        db',
        rw (some_left, positive, taking) run,
        Reserves-ext ids _ _ db db' (λ u. split_amount v u remaining take rest)
            (Reserves-trans ids (only v take) (only v (remaining -ℤ take -ℤ rest)) db
              (after_take r take db) db' (take_one-Reserves r take db ready.2.0 ready.4) kept),
      )

  skip_row :
      (r : Inventory) (rows : List Inventory) (remaining rest : ℤ) (db : Db)
      → (remaining ==ℤ pos 0) ≡ false
      → leb_ℤ (share r remaining) (pos 0) ≡ true
      → Leaves rows remaining rest db
      → Leaves (r ∷ rows) remaining rest db
  unfolding reserve_planned
  skip_row r rows remaining rest db some_left empty (db', run, kept) =
      (db', rw (some_left, empty) run, kept)

  -- The loop ends with what the planned rows could not cover, and has reserved the rest.
  pub reserve_planned_lem :
      (rows : List Inventory) (remaining : ℤ) (db : Db)
      → pos 0 ≤ℤ remaining
      → Ready db rows
      → Leaves rows remaining (left_over remaining (sum_over available_of rows)) db
  unfolding reserve_planned
  reserve_planned_lem [] remaining db h ready =
      subst (λ k. Leaves [] remaining k db) (sym (left_over_zero remaining h))
        (nothing_left [] remaining db refl ready.4)
  reserve_planned_lem (r ∷ rows) remaining db h ready =
      let stock = sum_over available_of rows in
      let stocked = available_nonneg (r ∷ rows) (sound_rows (r ∷ rows) db ready.2) in
      let rest_stocked = available_nonneg rows (sound_rows rows db ready.2.1) in
      let skip = reserve_planned_lem rows remaining db h (Ready-tail r rows db ready) in
      let next = λ (low : pos 0 ≤ℤ remaining -ℤ share r remaining).
        reserve_planned_lem rows (remaining -ℤ share r remaining)
          (after_take r (share r remaining) db) low
          (take_one-Ready r rows (share r remaining) db ready) in
      elim (Bool-cases (remaining ==ℤ pos 0)) [
        | inl finished ↦
            subst (λ k. Leaves (r ∷ rows) remaining k db)
              (sym (left_over_done remaining _ finished stocked))
              (nothing_left (r ∷ rows) remaining db (rw finished) ready.4)
        | inr some_left ↦ elim (Bool-cases (leb_ℤ (share r remaining) (pos 0))) [
          | inl empty ↦
              subst (λ k. Leaves (r ∷ rows) remaining k db)
                (sym (
                  left_over_skip remaining (available_of r) stock h
                    (available_row r (ready.2.0).sound) some_left empty))
                (skip_row r rows remaining _ db some_left empty skip)
          | inr positive ↦
              subst (λ k. Leaves (r ∷ rows) remaining k db)
                (sym (left_over_take remaining (available_of r) stock rest_stocked))
                (take_and_go_on r rows remaining _ db ready some_left positive
                  (next (take_range remaining (available_of r) positive).2))
        ]
      ]
