-- ===== src/Shifts/Cash.antt =====
-- What a recorded payment does to the cash that a shift is expected to have.
use posnet_adapter.Prelude.{
  ℕ, String, ◌≡◌, refl, true, Option, some, ◌∷◌, ◌==◌, if◌then◌else◌, Bool-cases, inl, inr,
}
use posnet_adapter.Prelude.Int.{ℤ, ◌+ℤ◌, ◌-ℤ◌, int_laws}
use posnet_adapter.Prelude.Exec.{ok}
use posnet_adapter.Tables.{Scope, visible}
use posnet_adapter.Shifts.{
  Shift, CashKind, cash_in, cash_out, Tills, is_opened, get_shift, cash_row, record_cash,
  cash_summary,
}

abbrev pub signed : CashKind → ℤ → ℤ → ℤ
signed cash_in cash amount = cash +ℤ amount
signed cash_out cash amount = cash -ℤ amount

abbrev expected : Scope → Shift → Tills → ℤ
expected scope x t = (cash_summary scope x t).expected_cash_minor

sum_in : (o a b m : ℤ) → o +ℤ (a +ℤ m) -ℤ b ≡ o +ℤ a -ℤ b +ℤ m
sum_in o a b m = grind int_laws

sum_out : (o a b m : ℤ) → o +ℤ a -ℤ (b +ℤ m) ≡ o +ℤ a -ℤ b -ℤ m
sum_out o a b m = grind int_laws

expected_row :
    (scope : Scope) (tenant id : ℕ) (kind : CashKind) (amount : ℤ) (reason : Option String)
    (t : Tills) (x : Shift)
    → visible scope tenant ≡ true
    → expected scope x (record t { cash = cash_row tenant id kind amount reason ∷ t.cash })
      ≡ (if id == x.id then signed kind (expected scope x t) amount else expected scope x t)
unfolding cash_summary
expected_row scope tenant id cash_in amount reason t x own = elim (Bool-cases (id == x.id)) [
  | inl same ↦ rw same (rw own (sum_in _ _ _ amount))
  | inr other ↦ rw other refl
]
expected_row scope tenant id cash_out amount reason t x own = elim (Bool-cases (id == x.id)) [
  | inl same ↦ rw same (rw own (sum_out _ _ _ amount))
  | inr other ↦ rw other refl
]

module _ (scope : Scope) (tenant id : ℕ) (kind : CashKind) (amount : ℤ) (reason : Option String)
    (t : Tills) (s : Shift) where
  -- Cash that is recorded on an open shift, by its own tenant, is accepted, with no change to the
  -- shifts; it changes the expected cash of that shift by the amount, up or down by its kind, and
  -- that of no other shift.
  pub record_cash_expected :
      get_shift scope id t ≡ some s
      → is_opened s.status ≡ true
      → visible scope tenant ≡ true
      → let (r, t') = record_cash scope tenant id kind amount reason t in
        (r ≡ ok (cash_row tenant id kind amount reason))
        × (t'.shifts ≡ t.shifts)
        × ((x : Shift)
            → (cash_summary scope x t').expected_cash_minor ≡ (
                if id == x.id
                then signed kind (cash_summary scope x t).expected_cash_minor amount
                else (cash_summary scope x t).expected_cash_minor))
  unfolding record_cash
  record_cash_expected found live own =
      rw found (
        rw live (rw own (refl, refl, λ x. expected_row scope tenant id kind amount reason t x own)))
