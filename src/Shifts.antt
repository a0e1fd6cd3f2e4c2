-- ===== src/Shifts.antt =====
-- services/core/app/domain/shift.py: cashier shifts and their cash. A new row is given its id and
-- the time, and stands first in its table, as no query here reads an order; `CashKind` has the two
-- kinds of `CASH_KINDS`.
pub mod Exclusive
pub mod Cash
use posnet_adapter.Prelude.{
  ℕ, String, Bool, true, false, not, ◌&&◌, Option, none, some, List, [], ◌∷◌, ◌++◌, map, ◌==◌,
  find?, is_some, select, if◌then◌else◌,
}
use posnet_adapter.Prelude.Int.{ℤ, pos, ◌+ℤ◌, ◌-ℤ◌}
use posnet_adapter.Prelude.Exec.{Exec, pure, gets, raise_if, or_raise, modify, ◌>>=◌, ◌>>◌}
use posnet_adapter.Tables.{
  Scope, visible, Error, not_found, conflict, validation, row_security, no_store, no_cashier,
  no_shift, already_open, already_closed, closed_shift,
}
use posnet_adapter.Pricing.{Store}

pub record User : Type 0 where
  pub id : ℕ
  pub tenant_id : ℕ

pub data ShiftStatus : Type 0 where
  opened closed : ShiftStatus

pub record Shift : Type 0 where
  pub id : ℕ
  pub tenant_id : ℕ
  pub store_id : ℕ
  pub cashier_id : ℕ
  pub status : ShiftStatus
  pub currency : String
  pub opening_cash_minor : ℤ
  pub closing_cash_minor : Option ℤ
  pub closed_at : Option ℕ

pub data CashKind : Type 0 where
  cash_in cash_out : CashKind

pub record CashMovement : Type 0 where
  pub tenant_id : ℕ
  pub shift_id : ℕ
  pub kind : CashKind
  pub amount_minor : ℤ
  pub reason : Option String

pub record Tills : Type 0 where
  pub stores : List Store
  pub users : List User
  pub shifts : List Shift
  pub cash : List CashMovement

pub record CashSummary : Type 0 where
  pub opening_cash_minor : ℤ
  pub cash_in_minor : ℤ
  pub cash_out_minor : ℤ
  pub expected_cash_minor : ℤ

abbrev pub is_opened : ShiftStatus → Bool
is_opened opened = true
is_opened closed = false

-- The partial unique index on (store_id, cashier_id) of the open shifts.
abbrev pub clash : Shift → Shift → Bool
clash a b =
    (is_opened a.status && is_opened b.status)
    && (a.store_id == b.store_id && a.cashier_id == b.cashier_id)

abbrev pub sees_store : Scope → ℕ → Tills → Bool
sees_store scope k t = is_some (find? (λ r. r.id == k && visible scope r.tenant_id) t.stores)

abbrev pub sees_cashier : Scope → ℕ → Tills → Bool
sees_cashier scope k t = is_some (find? (λ r. r.id == k && visible scope r.tenant_id) t.users)

abbrev pub insert_shift : Shift → Exec Error Tills Shift
insert_shift shift = do
  taken ← gets (λ t. find? (clash shift) t.shifts)
  raise_if (is_some taken) (conflict already_open)
  modify (λ t. record t { shifts = shift ∷ t.shifts })
  pure shift

abbrev pub new_shift : ℕ → ℕ → ℕ → ℤ → String → ℕ → Shift
new_shift tenant store cashier opening currency id = record {
  id = id;
  tenant_id = tenant;
  store_id = store;
  cashier_id = cashier;
  status = opened;
  currency = currency;
  opening_cash_minor = opening;
  closing_cash_minor = none;
  closed_at = none;
}

unfoldable pub open_shift : Scope → ℕ → ℕ → ℕ → ℤ → String → ℕ → Exec Error Tills Shift
open_shift scope tenant store cashier opening currency id = do
  placed ← gets (sees_store scope store)
  raise_if (not placed) (not_found no_store)
  known ← gets (sees_cashier scope cashier)
  raise_if (not known) (not_found no_cashier)
  raise_if (not (visible scope tenant)) row_security
  insert_shift (new_shift tenant store cashier opening currency id)

-- `get_shift`, and the other reads of a shift by its id.
abbrev pub get_shift : Scope → ℕ → Tills → Option Shift
get_shift scope id t = find? (λ s. s.id == id && visible scope s.tenant_id) t.shifts

abbrev pub closed_shift_row : ℤ → ℕ → Shift → Shift
closed_shift_row closing now s = record s {
  status = closed;
  closing_cash_minor = some closing;
  closed_at = some now;
}

abbrev pub close_row : ℕ → ℤ → ℕ → Shift → Shift
close_row id closing now s = if s.id == id then closed_shift_row closing now s else s

unfoldable pub close_shift : Scope → ℕ → ℤ → ℕ → Exec Error Tills Shift
close_shift scope id closing now = do
  found ← gets (get_shift scope id)
  shift ← or_raise found (not_found no_shift)
  raise_if (not (is_opened shift.status)) (conflict already_closed)
  modify (λ t. record t { shifts = map (close_row id closing now) t.shifts })
  pure (closed_shift_row closing now shift)

abbrev pub cash_row : ℕ → ℕ → CashKind → ℤ → Option String → CashMovement
cash_row tenant shift kind amount reason = record {
  tenant_id = tenant;
  shift_id = shift;
  kind = kind;
  amount_minor = amount;
  reason = reason;
}

unfoldable pub record_cash :
    Scope → ℕ → ℕ → CashKind → ℤ → Option String → Exec Error Tills CashMovement
record_cash scope tenant id kind amount reason = do
  found ← gets (get_shift scope id)
  shift ← or_raise found (not_found no_shift)
  raise_if (not (is_opened shift.status)) (validation closed_shift)
  raise_if (not (visible scope tenant)) row_security
  modify (λ t. record t { cash = cash_row tenant id kind amount reason ∷ t.cash })
  pure (cash_row tenant id kind amount reason)

abbrev same_kind : CashKind → CashKind → Bool
same_kind cash_in cash_in = true
same_kind cash_out cash_out = true
same_kind _ _ = false

-- The sum of one group of the GROUP BY, 0 if there is none.
abbrev pub total_of : Scope → ℕ → CashKind → List CashMovement → ℤ
total_of scope id kind [] = pos 0
total_of scope id kind (m ∷ rows) =
    let rest = total_of scope id kind rows in
    if (m.shift_id == id && visible scope m.tenant_id) && same_kind m.kind kind
    then rest +ℤ m.amount_minor
    else rest

unfoldable pub cash_summary : Scope → Shift → Tills → CashSummary
cash_summary scope shift t =
    let received = total_of scope shift.id cash_in t.cash in
    let paid = total_of scope shift.id cash_out t.cash in
    record {
      opening_cash_minor = shift.opening_cash_minor;
      cash_in_minor = received;
      cash_out_minor = paid;
      expected_cash_minor = shift.opening_cash_minor +ℤ received -ℤ paid;
    }
