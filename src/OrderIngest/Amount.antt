-- ===== src/OrderIngest/Amount.antt =====
-- The arithmetic of the reservation loop: a quantity met from the stock of several rows.
use posnet_adapter.Prelude.{ℕ, ◌≡◌, true, false}
use posnet_adapter.Prelude.Int.{
  ℤ, pos, ◌+ℤ◌, ◌-ℤ◌, ◌≤ℤ◌, ◌==ℤ◌, leb_ℤ, min_ℤ, max_ℤ, ltb_ℤ, int_laws,
}
use posnet_adapter.Tables.{Inventory}
use posnet_adapter.Inventory.Levels.{IsSoundLevel}
use posnet_adapter.OrderIngest.Plan.{available_of}
use posnet_adapter.OrderIngest.Reserves.{only}

-- What remains of a quantity when a stock has given what it can.
abbrev pub left_over : ℤ → ℤ → ℤ
left_over n stock = max_ℤ (n -ℤ stock) (pos 0)

pub self_cancel : (v u : ℕ) (n : ℤ) → pos 0 ≡ only v (n -ℤ n) u
self_cancel v u n = grind int_laws

pub split_amount :
    (v u : ℕ) (n take rest : ℤ)
    → only v take u +ℤ only v (n -ℤ take -ℤ rest) u ≡ only v (n -ℤ rest) u
split_amount v u n take rest = grind int_laws

pub left_over_zero : (n : ℤ) → pos 0 ≤ℤ n → left_over n (pos 0) ≡ n
left_over_zero n h = grind int_laws

pub left_over_done : (n stock : ℤ) → (n ==ℤ pos 0) ≡ true → pos 0 ≤ℤ stock → left_over n stock ≡ n
left_over_done n stock e h = grind int_laws

pub left_over_skip :
    (n a stock : ℤ)
    → pos 0 ≤ℤ n
    → pos 0 ≤ℤ a
    → (n ==ℤ pos 0) ≡ false
    → leb_ℤ (min_ℤ a n) (pos 0) ≡ true
    → left_over n (a +ℤ stock) ≡ left_over n stock
left_over_skip n a stock hn ha some_left e = grind int_laws

pub left_over_take :
    (n a stock : ℤ) → pos 0 ≤ℤ stock → left_over n (a +ℤ stock) ≡ left_over (n -ℤ min_ℤ a n) stock
left_over_take n a stock hs = grind int_laws

pub take_range :
    (n a : ℤ)
    → leb_ℤ (min_ℤ a n) (pos 0) ≡ false
    → (pos 0 ≤ℤ min_ℤ a n) × (min_ℤ a n ≤ℤ a) × (pos 0 ≤ℤ n -ℤ min_ℤ a n)
take_range n a e = grind int_laws

pub available_row : (r : Inventory) → IsSoundLevel r → pos 0 ≤ℤ available_of r
available_row r h = omega int_laws

-- A quantity below zero asks for nothing; one that the stock covers leaves nothing over; one that
-- it does not cover leaves something.
pub negative_quantity :
    (v u : ℕ) (n stock : ℤ)
    → ltb_ℤ n (pos 0) ≡ true
    → pos 0 ≤ℤ stock
    → (max_ℤ n (pos 0) ≤ℤ stock) × (ltb_ℤ (pos 0) n ≡ false) × (pos 0 ≡ only v (max_ℤ n (pos 0)) u)
negative_quantity v u n stock low h = (grind int_laws, grind int_laws, grind int_laws)

pub covered_quantity :
    (v u : ℕ) (n stock : ℤ)
    → ltb_ℤ n (pos 0) ≡ false
    → leb_ℤ n stock ≡ true
    → pos 0 ≤ℤ stock
    → (max_ℤ n (pos 0) ≤ℤ stock)
      × (ltb_ℤ (pos 0) (left_over n stock) ≡ false)
      × (only v (n -ℤ left_over n stock) u ≡ only v (max_ℤ n (pos 0)) u)
covered_quantity v u n stock high fits h = (grind int_laws, grind int_laws, grind int_laws)

pub short_quantity :
    (n stock : ℤ)
    → ltb_ℤ n (pos 0) ≡ false
    → leb_ℤ n stock ≡ false
    → (¬ (max_ℤ n (pos 0) ≤ℤ stock)) × (ltb_ℤ (pos 0) (left_over n stock) ≡ true)
short_quantity n stock high short = (grind int_laws, grind int_laws)

pub nonneg_quantity : (n : ℤ) → ltb_ℤ n (pos 0) ≡ false → pos 0 ≤ℤ n
nonneg_quantity n high = grind int_laws
