-- ===== src/Tests/Tills.antt =====
-- A till with one store and one cashier: services/core/app/domain/shift.py.
use posnet_adapter.Prelude.{◌≡◌, refl, none, some, List, [], ◌∷◌, ◌==◌, if◌then◌else◌}
use posnet_adapter.Prelude.Int.{pos}
use posnet_adapter.Prelude.Exec.{ok}
use posnet_adapter.Shifts.{
  Shift, Tills, cash_in, cash_row, new_shift, open_shift, record_cash, cash_summary,
}
use posnet_adapter.Shifts.Exclusive.{
  IsExclusive, Request, open_request, close_request, cash_request, run, run-IsExclusive,
}
use posnet_adapter.Shifts.Cash.{signed, record_cash_expected}

abbrev closed_till : Tills
closed_till = record {
  stores = record { id = 3; tenant_id = 1 } ∷ [];
  users = record { id = 8; tenant_id = 1 } ∷ [];
  shifts = [];
  cash = [];
}

abbrev morning : Shift
morning = new_shift 1 3 8 (pos 1000) "AZN" 50

abbrev open_till : Tills
open_till = record closed_till { shifts = morning ∷ [] }

opens : open_shift (some 1) 1 3 8 (pos 1000) "AZN" 50 closed_till ≡ (ok morning, open_till)
unfolding open_shift
opens = refl

-- The second request to open is refused; the last comes after the close.
abbrev day : List Request
day =
    open_request (some 1) 1 3 8 (pos 1000) "AZN" 50
    ∷ open_request (some 1) 1 3 8 (pos 500) "AZN" 51
    ∷ cash_request (some 1) 1 50 cash_in (pos 70) none
    ∷ close_request (some 1) 50 (pos 1070) 17
    ∷ open_request (some 1) 1 3 8 (pos 900) "AZN" 52
    ∷ []

run-IsExclusive_example : IsExclusive (run day closed_till).shifts
run-IsExclusive_example = run-IsExclusive day closed_till tt

record_cash_expected_example :
    let (r, t') = record_cash (some 1) 1 50 cash_in (pos 70) none open_till in
    (r ≡ ok (cash_row 1 50 cash_in (pos 70) none))
    × (t'.shifts ≡ open_till.shifts)
    × ((x : Shift)
        → (cash_summary (some 1) x t').expected_cash_minor ≡ (
            if 50 == x.id
            then signed cash_in (cash_summary (some 1) x open_till).expected_cash_minor (pos 70)
            else (cash_summary (some 1) x open_till).expected_cash_minor))
record_cash_expected_example =
    record_cash_expected (some 1) 1 50 cash_in (pos 70) none open_till morning refl refl refl
