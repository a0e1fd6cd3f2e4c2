-- ===== src/Shifts/Exclusive.antt =====
-- A cashier has at most one open shift in a store.
use posnet_adapter.Prelude.{
  find?-none, ℕ, String, ◌≡◌, false, Option, List, [], ◌∷◌, map, arith, All, find?, is_some,
  Bool-cases, Option-cases, inl, inr,
}
use posnet_adapter.Prelude.Int.{ℤ}
use posnet_adapter.Tables.{Scope, visible}
use posnet_adapter.Shifts.{
  Shift, CashKind, Tills, clash, is_opened, close_row, new_shift, insert_shift, open_shift,
  close_shift, record_cash, sees_store, sees_cashier, get_shift,
}

-- No two open shifts of the same cashier in the same store.
abbrev pub IsExclusive : List Shift → Type 0
IsExclusive [] = Unit {0}
IsExclusive (s ∷ rows) = All (λ r. clash s r ≡ false) rows × IsExclusive rows

clash-close :
    (id : ℕ) (closing : ℤ) (now : ℕ) (a b : Shift)
    → clash a b ≡ false
    → clash (close_row id closing now a) (close_row id closing now b) ≡ false
clash-close id closing now a b h = ground (arith, h)

closed_others :
    (id : ℕ) (closing : ℤ) (now : ℕ) (s : Shift) (rows : List Shift)
    → All (λ r. clash s r ≡ false) rows
    → All (λ r. clash (close_row id closing now s) r ≡ false) (map (close_row id closing now) rows)
closed_others id closing now s [] h = tt
closed_others id closing now s (r ∷ rows) h =
    (clash-close id closing now s r h.0, closed_others id closing now s rows h.1)

close-IsExclusive :
    (id : ℕ) (closing : ℤ) (now : ℕ) (rows : List Shift)
    → IsExclusive rows
    → IsExclusive (map (close_row id closing now) rows)
close-IsExclusive id closing now [] h = tt
close-IsExclusive id closing now (s ∷ rows) h =
    (closed_others id closing now s rows h.0, close-IsExclusive id closing now rows h.1)

-- One request to the service.
pub data Request : Type 0 where
  open_request : Scope → ℕ → ℕ → ℕ → ℤ → String → ℕ → Request
  close_request : Scope → ℕ → ℤ → ℕ → Request
  cash_request : Scope → ℕ → ℕ → CashKind → ℤ → Option String → Request

abbrev pub step : Request → Tills → Tills
step (open_request scope tenant store cashier opening currency id) t =
    (open_shift scope tenant store cashier opening currency id t).1
step (close_request scope id closing now) t = (close_shift scope id closing now t).1
step (cash_request scope tenant id kind amount reason) t =
    (record_cash scope tenant id kind amount reason t).1

abbrev pub run : List Request → Tills → Tills
run [] t = t
run (q ∷ rest) t = run rest (step q t)

insert-IsExclusive :
    (s : Shift) (t : Tills) → IsExclusive t.shifts → IsExclusive (insert_shift s t).1.shifts
insert-IsExclusive s t h = elim (Bool-cases (is_some (find? (clash s) t.shifts))) [
  | inl taken ↦ rw (taken, insert_shift) h
  | inr free ↦ rw (free, insert_shift) (find?-none (clash s) t.shifts free, h)
]

open_shift-IsExclusive :
    (scope : Scope) (tenant store cashier : ℕ) (opening : ℤ) (currency : String) (id : ℕ)
    (t : Tills)
    → IsExclusive t.shifts
    → IsExclusive (open_shift scope tenant store cashier opening currency id t).1.shifts
unfolding open_shift
open_shift-IsExclusive scope tenant store cashier opening currency id t h =
    elim (Bool-cases (sees_store scope store t)) [
      | inl placed ↦ elim (Bool-cases (sees_cashier scope cashier t)) [
        | inl known ↦ elim (Bool-cases (visible scope tenant)) [
          | inl own ↦ rw placed (
              rw known (
                rw own
                  (insert-IsExclusive (new_shift tenant store cashier opening currency id) t h)))
          | inr foreign ↦ rw placed (rw known (rw foreign h))
        ]
        | inr unknown ↦ rw placed (rw unknown h)
      ]
      | inr nowhere ↦ rw nowhere h
    ]

close_shift-IsExclusive :
    (scope : Scope) (id : ℕ) (closing : ℤ) (now : ℕ) (t : Tills)
    → IsExclusive t.shifts
    → IsExclusive (close_shift scope id closing now t).1.shifts
unfolding close_shift
close_shift-IsExclusive scope id closing now t h = elim (Option-cases (get_shift scope id t)) [
  | inl unknown ↦ rw unknown h
  | inr (s, found) ↦ elim (Bool-cases (is_opened s.status)) [
    | inl live ↦ rw found (rw live (close-IsExclusive id closing now t.shifts h))
    | inr done ↦ rw found (rw done h)
  ]
]

record_cash-IsExclusive :
    (scope : Scope) (tenant id : ℕ) (kind : CashKind) (amount : ℤ) (reason : Option String)
    (t : Tills)
    → IsExclusive t.shifts
    → IsExclusive (record_cash scope tenant id kind amount reason t).1.shifts
unfolding record_cash
record_cash-IsExclusive scope tenant id kind amount reason t h = ground (arith, h)

-- Through any requests, accepted or refused, a cashier has at most one open shift in a store.
pub run-IsExclusive :
    (requests : List Request) (t : Tills)
    → IsExclusive t.shifts
    → IsExclusive (run requests t).shifts
run-IsExclusive [] t h = h
run-IsExclusive (open_request scope tenant store cashier opening currency id ∷ rest) t h =
    run-IsExclusive rest _
      (open_shift-IsExclusive scope tenant store cashier opening currency id t h)
run-IsExclusive (close_request scope id closing now ∷ rest) t h =
    run-IsExclusive rest _ (close_shift-IsExclusive scope id closing now t h)
run-IsExclusive (cash_request scope tenant id kind amount reason ∷ rest) t h =
    run-IsExclusive rest _ (record_cash-IsExclusive scope tenant id kind amount reason t h)
