-- ===== src/Inventory/Ledger.antt =====
-- The stock as a ledger: for each variant and warehouse a quantity and a reservation. Which rows
-- the table has, their versions and their order are forgotten.
use posnet_adapter.Prelude.{
  ℕ, String, ◌≡◌, refl, sym, ap, ◌∙◌, false, ◌&&◌, Option, [], ◌∷◌, ◌++◌, arith, ◌==◌, Bool-cases,
  Option-cases, inl, inr, if◌then◌else◌,
}
use posnet_adapter.Prelude.Int.{ℤ, pos, ◌+ℤ◌, ◌-ℤ◌, leb_ℤ}
use posnet_adapter.Prelude.Exec.{Result, ok, err, continue, Result-cases, savepoint, pure, ◌>>=◌}
use posnet_adapter.Tables.{Inventory, Db, Scope, Error, out, in_}
use posnet_adapter.Inventory.{
  Movement, find_level, level_at, record_movement, journal_row, leg, sees_variant, sees_warehouse,
  lock_level, move_level, apply_movement, transfer_stock,
}
use posnet_adapter.Inventory.Levels.{stock_at}
use posnet_adapter.Inventory.Journal.{
  IsConsistent, MoveOutcome, move_level_outcome, replay, replay_from-append, seen_from,
  apply_movement-IsConsistent,
}

-- The journal after a movement: one row more if it returned.
abbrev Journals : Movement → Db → Result Error Inventory × Db → Type 0
Journals m db (ok _, db') = db'.movements ≡ db.movements ++ journal_row m ∷ []
Journals m db (err _, db') = db'.movements ≡ db.movements

move_level-Journals :
    (m : Movement) (inv : Inventory) (scope : Scope) (before db : Db)
    → db.movements ≡ before.movements
    → (r : Result Error Inventory) (db' : Db) → MoveOutcome scope m inv db (r, db')
    → Journals m before (r, db')
unfolding record_movement
move_level-Journals m inv scope before db e (err _) db' same = ap (λ (x : Db). x.movements) same ∙ e
move_level-Journals m inv scope before db e (ok _) db' (after, _, _, _, _, written) =
    ap (λ (x : Db). x.movements) written ∙ ap (λ rows. rows ++ journal_row m ∷ []) e

lock_level-movements :
    (scope : Scope) (m : Movement) (db : Db) → (lock_level scope m db).1.movements ≡ db.movements
unfolding lock_level
lock_level-movements scope m db =
    elim (Option-cases (find_level scope m.variant_id m.warehouse_id db.inventory)) [
      | inl missing ↦ elim (Option-cases (level_at m.variant_id m.warehouse_id db.inventory)) [
        | inl free ↦ rw (missing, free) (ground arith)
        | inr (r, taken) ↦ rw (missing, taken) (ground arith)
      ]
      | inr (r, seen) ↦ rw seen refl
    ]

apply_movement-Journals :
    (scope : Scope) (m : Movement) (db : Db) → Journals m db (apply_movement scope m db)
unfolding apply_movement
apply_movement-Journals scope m db = elim (Bool-cases (sees_variant scope m.variant_id db)) [
  | inl known ↦ elim (Bool-cases (sees_warehouse scope m.warehouse_id db)) [
    | inl placed ↦
        rw (known, placed)
          (located_lem (lock_level scope m db).0 (lock_level scope m db).1
            (lock_level-movements scope m db))
    | inr nowhere ↦ rw (known, nowhere) refl
  ]
  | inr unknown ↦ rw unknown refl
]
  where
    located_lem :
        (r : Result Error Inventory) (db' : Db)
        → db'.movements ≡ db.movements
        → Journals m db (continue r (move_level scope m) db')
    located_lem (err e) db' same = same
    located_lem (ok inv) db' same =
        let (r, after) = move_level scope m inv db' in
        move_level-Journals m inv scope db db' same r after (move_level_outcome scope m inv db')

-- What the ledger shows after a movement.
abbrev pub Ledger : Type 0
Ledger = ℕ → ℕ → ℤ × ℤ

abbrev pub ledger : Db → Ledger
ledger db v w = stock_at v w db.inventory

abbrev pub Refines : Movement → Ledger → Result Error Inventory × Db → Type 0
Refines m before (ok _, db') =
    (v w : ℕ) → ledger db' v w ≡ seen_from v w (journal_row m) (before v w)
Refines m before (err _, db') = (v w : ℕ) → ledger db' v w ≡ before v w

refined :
    (m : Movement) (db : Db) (r : Result Error Inventory) (db' : Db)
    → IsConsistent db
    → IsConsistent db'
    → Journals m db (r, db')
    → Refines m (ledger db) (r, db')
refined m db (ok _) db' h h' e = λ v w.
    h'.journaled v w
    ∙ ap (replay v w) e
    ∙ replay_from-append v w (pos 0, pos 0) db.movements (journal_row m)
    ∙ ap (seen_from v w (journal_row m)) (sym (h.journaled v w))
refined m db (err _) db' h h' e =
    λ v w. h'.journaled v w ∙ ap (replay v w) e ∙ sym (h.journaled v w)

-- On consistent tables, a movement that returns shifts its own entry of the ledger by its kind and
-- quantity and no other entry; one that raises leaves the ledger as it was.
pub apply_movement-Refines :
    (scope : Scope) (m : Movement) (db : Db)
    → IsConsistent db
    → Refines m (ledger db) (apply_movement scope m db)
apply_movement-Refines scope m db h =
    let (r, db') = apply_movement scope m db in
    refined m db r db' h (apply_movement-IsConsistent scope m db h)
      (apply_movement-Journals scope m db)

module _ (v from to : ℕ) (n : ℤ) where
  -- The ledger after `n` units have gone from one warehouse to another.
  abbrev pub transferred : Ledger → Ledger
  transferred before x w =
      if v == x && from == w
      then ((before x w).0 -ℤ n, (before x w).1)
      else if v == x && to == w
      then ((before x w).0 +ℤ n, (before x w).1)
      else before x w

  abbrev pub Transfers : Db → Result Error (Inventory × Inventory) × Db → Type 0
  Transfers db (ok _, db') = (x w : ℕ) → ledger db' x w ≡ transferred (ledger db) x w
  Transfers db (err _, db') = db' ≡ db

module _ (tenant v from to : ℕ) (n : ℤ) (reference : Option String) where
  both_legs :
      (before : Ledger) (x w : ℕ)
      → (from == to) ≡ false
      → seen_from x w
          (journal_row (leg tenant v to in_ n reference))
          (seen_from x w (journal_row (leg tenant v from out n reference)) (before x w))
        ≡ transferred v from to n before x w
  both_legs before x w apart = elim (Bool-cases (v == x)) [
    | inl own ↦ elim (Bool-cases (from == w)) [
      | inl here ↦
          let miss : (to == w) ≡ false = ground (arith, here, apart) in rw (own, here, miss) refl
      | inr away ↦ rw (own, away) refl
    ]
    | inr strange ↦ rw strange refl
  ]

  module _ (scope : Scope) (db : Db) (h : IsConsistent db) where
    both_moves :
        (from == to) ≡ false
        → Transfers v from to n db (
            savepoint
              (apply_movement scope (leg tenant v from out n reference) >>= λ source.
                apply_movement scope (leg tenant v to in_ n reference) >>= λ destination.
                pure (source, destination))
              db)
    both_moves apart =
        let gone = apply_movement scope (leg tenant v from out n reference) in
        let came = apply_movement scope (leg tenant v to in_ n reference) in
        let left = apply_movement-Refines scope (leg tenant v from out n reference) db h in
        let kept = apply_movement-IsConsistent scope (leg tenant v from out n reference) db h in
        let reached =
          apply_movement-Refines scope (leg tenant v to in_ n reference) (gone db).1 kept in
        elim (Result-cases (gone db).0) [
          | inr (e, raised) ↦ rw raised refl
          | inl (source, fine) ↦ elim (Result-cases (came (gone db).1).0) [
            | inr (e, raised) ↦ rw (fine, raised) refl
            | inl (destination, fine_too) ↦
                rw (fine, fine_too)
                  (λ x w.
                    rw fine_too at reached x w
                    ∙ ap (seen_from x w (journal_row (leg tenant v to in_ n reference)))
                        (rw fine at left x w)
                    ∙ both_legs (ledger db) x w apart)
          ]
        ]

    -- On consistent tables, a transfer in a transaction of its own moves exactly its quantity from
    -- the one warehouse to the other and leaves every other entry of the ledger as it was, or it
    -- raises and leaves the tables as they were.
    pub transfer_stock-Transfers :
        Transfers v from to n db (savepoint (transfer_stock scope tenant v from to n reference) db)
    unfolding transfer_stock
    transfer_stock-Transfers = elim (Bool-cases (leb_ℤ n (pos 0))) [
      | inl none_to_move ↦ rw none_to_move refl
      | inr positive ↦ elim (Bool-cases (from == to)) [
        | inl same ↦ rw (positive, same) refl
        | inr apart ↦ elim (Bool-cases (sees_warehouse scope to db)) [
          | inr nowhere ↦ rw (positive, apart, nowhere) refl
          | inl known ↦ rw (positive, apart, known) (both_moves apart)
        ]
      ]
    ]
