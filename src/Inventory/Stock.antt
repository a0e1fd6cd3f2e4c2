-- ===== src/Inventory/Stock.antt =====
-- `_effect` against the plain arithmetic of a movement.
use posnet_adapter.Prelude.{◌≡◌, arith}
use posnet_adapter.Prelude.Int.{ℤ, pos, ◌+ℤ◌, ◌-ℤ◌, ◌≤ℤ◌, int_laws}
use posnet_adapter.Prelude.Exec.{Result, ok, err}
use posnet_adapter.Tables.{MovementKind, in_, out, reserve, unreserve, adjust, Error}
use posnet_adapter.Inventory.{effect}
use posnet_adapter.Inventory.Levels.{IsSoundPair}

-- What a movement of each kind does to `(qty, reserved_qty)`, whatever the level.
abbrev pub shift : MovementKind → ℤ → ℤ × ℤ → ℤ × ℤ
shift in_ n (qty, reserved) = (qty +ℤ n, reserved)
shift out n (qty, reserved) = (qty -ℤ n, reserved)
shift reserve n (qty, reserved) = (qty, reserved +ℤ n)
shift unreserve n (qty, reserved) = (qty, reserved -ℤ n)
shift adjust n (qty, reserved) = (qty +ℤ n, reserved)

-- What the request schema asks of a quantity: only an adjustment may be negative.
abbrev pub HasSign : MovementKind → ℤ → Type 0
HasSign adjust n = Unit
HasSign _ n = pos 0 ≤ℤ n

-- An answer of `_effect` at `(qty, reserved)` for a movement: the shifted level, and it is sound;
-- or a refusal, and the shifted level would not be sound.
abbrev pub Decides : (ℤ × ℤ) → Result Error (ℤ × ℤ) → Type 0
Decides target (ok after) = (after ≡ target) × IsSoundPair after
Decides target (err e) = ¬ (IsSoundPair target)

-- At a sound level, for a quantity of the sign that the kind asks for, the case analysis accepts
-- exactly if the shifted level is sound, and returns it.
pub effect-Decides :
    (kind : MovementKind) (n qty reserved : ℤ)
    → HasSign kind n
    → IsSoundPair (qty, reserved)
    → Decides (shift kind n (qty, reserved)) (effect kind n qty reserved)
unfolding effect
effect-Decides in_ n qty reserved s h = grind int_laws
effect-Decides out n qty reserved s h = grind int_laws
effect-Decides reserve n qty reserved s h = grind int_laws
effect-Decides unreserve n qty reserved s h = grind int_laws
effect-Decides adjust n qty reserved s h = grind int_laws

-- An accepted movement is the shift of its kind, also for a quantity of the wrong sign.
pub effect-shift :
    (kind : MovementKind) (n qty reserved : ℤ) (after : ℤ × ℤ)
    → effect kind n qty reserved ≡ ok after
    → after ≡ shift kind n (qty, reserved)
unfolding effect
effect-shift in_ n qty reserved after h = ground arith
effect-shift _ n qty reserved after h = ground arith
