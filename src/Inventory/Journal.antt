-- ===== src/Inventory/Journal.antt =====
-- `apply_movement` keeps the table of levels sound, unique and equal to its journal.
use posnet_adapter.Prelude.{
  ℕ, ◌≡◌, refl, true, false, ◌&&◌, inl, inr, none, some, List, [], ◌∷◌, ◌++◌, arith, ◌==◌, All,
  All-append, Option-cases, Bool-cases, if◌then◌else◌,
}
use posnet_adapter.Prelude.Int.{ℤ, pos}
use posnet_adapter.Prelude.Exec.{Result, ok, err, continue, Result-cases}
use posnet_adapter.Tables.{Inventory, StockMovement, Db, Scope, visible, Error}
use posnet_adapter.Inventory.{
  Movement, effect, level_at, find_level, moved, new_level, passes_checks, record_movement,
  journal_row, is_stale, sees_variant, sees_warehouse, lock_level, move_level, apply_movement,
}
use posnet_adapter.Inventory.Levels.{
  IsSoundLevel, IsUnique, stock_at, pair_of, level_at-write_self, level_at-write_ne,
  level_at-append, level_at_key, find_level-level_at, write_level-IsSoundLevel,
  write_level-IsUnique, append-IsUnique,
}
use posnet_adapter.Inventory.Stock.{shift, effect-shift}

-- A movement seen from one variant and warehouse.
abbrev pub seen_from : ℕ → ℕ → StockMovement → ℤ × ℤ → ℤ × ℤ
seen_from v w m level =
    if m.variant_id == v && m.warehouse_id == w then shift m.kind m.qty level else level

-- The level that the journal's rows for one variant and warehouse add up to.
abbrev pub replay_from : ℕ → ℕ → ℤ × ℤ → List StockMovement → ℤ × ℤ
replay_from v w level [] = level
replay_from v w level (m ∷ journal) = replay_from v w (seen_from v w m level) journal

abbrev pub replay : ℕ → ℕ → List StockMovement → ℤ × ℤ
replay v w journal = replay_from v w (pos 0, pos 0) journal

pub replay_from-append :
    (v w : ℕ) (level : ℤ × ℤ) (journal : List StockMovement) (m : StockMovement)
    → replay_from v w level (journal ++ m ∷ []) ≡ seen_from v w m (replay_from v w level journal)
replay_from-append v w level [] m = refl
replay_from-append v w level (x ∷ journal) m =
    replay_from-append v w (seen_from v w x level) journal m

pub record IsConsistent (db : Db) : Type 0 where
  pub sound : All IsSoundLevel db.inventory
  pub unique : IsUnique db.inventory
  pub journaled : (v w : ℕ) → stock_at v w db.inventory ≡ replay v w db.movements

-- What is known of the locked row.
pub record IsLocked (m : Movement) (inv : Inventory) (db : Db) : Type 0 where
  pub variant : inv.variant_id ≡ m.variant_id
  pub warehouse : inv.warehouse_id ≡ m.warehouse_id
  pub found : level_at m.variant_id m.warehouse_id db.inventory ≡ some inv

abbrev Locks : Movement → Result Error Inventory × Db → Type 0
Locks m (ok inv, db) = IsConsistent db × IsLocked m inv db
Locks m (err e, db) = IsConsistent db

insert-journaled :
    (inv : Inventory) (db : Db) (v w : ℕ)
    → pair_of (some inv) ≡ pair_of none
    → level_at inv.variant_id inv.warehouse_id db.inventory ≡ none
    → stock_at v w db.inventory ≡ replay v w db.movements
    → stock_at v w (db.inventory ++ inv ∷ []) ≡ replay v w db.movements
insert-journaled inv db v w zeroed free h =
    ground (arith, level_at-append v w inv db.inventory free)

pub insert-IsConsistent :
    (m : Movement) (db : Db)
    → level_at m.variant_id m.warehouse_id db.inventory ≡ none
    → IsConsistent db
    → IsConsistent (record db { inventory = db.inventory ++ new_level m ∷ [] })
insert-IsConsistent m db free h = record {
  sound = All-append IsSoundLevel db.inventory (new_level m ∷ []) h.sound (omega arith, tt);
  unique = append-IsUnique (new_level m) db.inventory free h.unique;
  journaled = λ v w. insert-journaled (new_level m) db v w refl free (h.journaled v w);
}

lock_new :
    (scope : Scope) (m : Movement) (db : Db)
    → find_level scope m.variant_id m.warehouse_id db.inventory ≡ none
    → level_at m.variant_id m.warehouse_id db.inventory ≡ none
    → IsConsistent db
    → Locks m (lock_level scope m db)
unfolding lock_level
lock_new scope m db missing free h =
    rw (missing, free)
      (ground (
        arith,
        insert-IsConsistent m db free h,
        level_at-append m.variant_id m.warehouse_id (new_level m) db.inventory free,
      ))

-- Locking a level, found or created, keeps the tables consistent and yields the row of its key.
pub lock_level-Locks :
    (scope : Scope) (m : Movement) (db : Db) → IsConsistent db → Locks m (lock_level scope m db)
unfolding lock_level
lock_level-Locks scope m db h =
    elim (Option-cases (find_level scope m.variant_id m.warehouse_id db.inventory)) [
      | inl missing ↦ elim (Option-cases (level_at m.variant_id m.warehouse_id db.inventory)) [
        | inl free ↦ lock_new scope m db missing free h
        | inr (r, taken) ↦ rw (missing, taken) (ground (arith, h))
      ]
      | inr (r, seen) ↦ rw seen (
        h,
        record {
          variant = (level_at_key _ _ db.inventory r (seen_row r seen).0).0;
          warehouse = (level_at_key _ _ db.inventory r (seen_row r seen).0).1;
          found = (seen_row r seen).0;
        },
      )
    ]
  where
    seen_row :
        (r : Inventory)
        → find_level scope m.variant_id m.warehouse_id db.inventory ≡ some r
        → (level_at m.variant_id m.warehouse_id db.inventory ≡ some r)
          × (visible scope r.tenant_id ≡ true)
    seen_row r seen = find_level-level_at scope _ _ db.inventory r h.unique seen

write-journaled :
    (m : Movement) (inv : Inventory) (after : ℤ × ℤ) (db : Db) (v w : ℕ)
    → IsLocked m inv db
    → after ≡ shift m.kind m.qty (inv.qty, inv.reserved_qty)
    → stock_at v w db.inventory ≡ replay v w db.movements
    → stock_at v w (record_movement m (moved inv after) db).inventory
      ≡ replay v w (record_movement m (moved inv after) db).movements
unfolding record_movement
write-journaled m inv after db v w lock e h =
    rw (replay_from-append v w (pos 0, pos 0) db.movements (journal_row m)) (
      ground (
        arith,
        lock,
        level_at-write_self (moved inv after) inv db.inventory,
        level_at-write_ne v w (moved inv after) db.inventory,
      ))

write-IsConsistent :
    (m : Movement) (inv : Inventory) (after : ℤ × ℤ) (db : Db)
    → IsLocked m inv db
    → after ≡ shift m.kind m.qty (inv.qty, inv.reserved_qty)
    → passes_checks (moved inv after) ≡ true
    → IsConsistent db
    → IsConsistent (record_movement m (moved inv after) db)
unfolding record_movement
write-IsConsistent m inv after db lock e checked h = record {
  sound = write_level-IsSoundLevel (moved inv after) db.inventory (ground arith) h.sound;
  unique = write_level-IsUnique (moved inv after) db.inventory h.unique;
  journaled = λ v w. write-journaled m inv after db v w lock e (h.journaled v w);
}

-- What `move_level` has done: nothing, or exactly the three writes of an accepted movement.
abbrev pub MoveOutcome : Scope → Movement → Inventory → Db → Result Error Inventory × Db → Type 0
MoveOutcome scope m inv db (err e, db') = db' ≡ db
MoveOutcome scope m inv db (ok inv', db') =
    (after : ℤ × ℤ) × (effect m.kind m.qty inv.qty inv.reserved_qty ≡ ok after)
    × (passes_checks (moved inv after) ≡ true)
    × (visible scope m.tenant_id ≡ true)
    × (inv' ≡ moved inv after)
    × (db' ≡ record_movement m (moved inv after) db)

module _ (scope : Scope) (m : Movement) (inv : Inventory) (db : Db) where
  move_accepted :
      (after : ℤ × ℤ)
      → is_stale m.expected_version inv.version ≡ false
      → effect m.kind m.qty inv.qty inv.reserved_qty ≡ ok after
      → MoveOutcome scope m inv db (move_level scope m inv db)
  unfolding move_level
  move_accepted after fresh e = elim (Bool-cases (passes_checks (moved inv after))) [
    | inl sound ↦ elim (Bool-cases (visible scope m.tenant_id)) [
      | inl seen ↦ rw (fresh, e, sound, seen) (after, e, sound, seen, refl, refl)
      | inr hidden ↦ rw (fresh, e, sound, hidden) refl
    ]
    | inr broken ↦ rw (fresh, e, broken) refl
  ]

  pub move_level_outcome : MoveOutcome scope m inv db (move_level scope m inv db)
  unfolding move_level
  move_level_outcome = elim (Bool-cases (is_stale m.expected_version inv.version)) [
    | inl stale ↦ rw stale refl
    | inr fresh ↦ elim (Result-cases (effect m.kind m.qty inv.qty inv.reserved_qty)) [
      | inl (after, e) ↦ move_accepted after fresh e
      | inr (why, e) ↦ rw (fresh, e) refl
    ]
  ]

  move_level-IsConsistent :
      IsLocked m inv db
      → IsConsistent db
      → (r : Result Error Inventory) (db' : Db) → MoveOutcome scope m inv db (r, db')
      → IsConsistent db'
  move_level-IsConsistent lock h (err e) db' same = rw same h
  move_level-IsConsistent lock h (ok inv') db' (after, e, sound, seen, _, written) = rw written (
      write-IsConsistent m inv after db lock
        (effect-shift m.kind m.qty inv.qty inv.reserved_qty after e) sound h)

-- Locking and moving, from a lock's outcome.
locked-IsConsistent :
    (scope : Scope) (m : Movement) (r : Result Error Inventory) (db : Db)
    → Locks m (r, db)
    → IsConsistent (continue r (move_level scope m) db).1
locked-IsConsistent scope m (err e) db h = h
locked-IsConsistent scope m (ok inv) db (h, lock) =
    let (r, db') = move_level scope m inv db in
    move_level-IsConsistent scope m inv db lock h r db' (move_level_outcome scope m inv db)

-- Whatever a movement does, returning or raising, it keeps every level sound, the keys unique and
-- each level equal to the replay of its journal rows.
pub apply_movement-IsConsistent :
    (scope : Scope) (m : Movement) (db : Db)
    → IsConsistent db
    → IsConsistent (apply_movement scope m db).1
unfolding apply_movement
apply_movement-IsConsistent scope m db h = elim (Bool-cases (sees_variant scope m.variant_id db)) [
  | inl known ↦ elim (Bool-cases (sees_warehouse scope m.warehouse_id db)) [
    | inl placed ↦
        let (r, db') = lock_level scope m db in
        rw (known, placed) (locked-IsConsistent scope m r db' (lock_level-Locks scope m db h))
    | inr nowhere ↦ rw (known, nowhere) h
  ]
  | inr unknown ↦ rw unknown h
]
