-- ===== src/Prelude/Exec.antt =====
-- Fallible actions on a state: an `async def` that works on a database session and may raise.
-- What was written before a raise stays written until somebody rolls back, so the state comes back
-- beside the error too.
use mathlib.Core.Path.{◌≡◌, refl}
use mathlib.Core.Logic.{◌⊎◌, inl, inr}
use mathlib.Core.Bool.{Bool, true, false}
use mathlib.Core.Option.{Option, none, some}

pub data Result {ℓ κ} (E : Type ℓ) (A : Type κ) : Type (ℓ ⊔ κ) where
  ok : A → Result E A
  err : E → Result E A

pub Result-cases {ℓ κ} :
    {E : Type ℓ} {A : Type κ} (r : Result E A) → ((a : A) × (r ≡ ok a)) ⊎ ((e : E) × (r ≡ err e))
Result-cases (ok a) = inl (a, refl)
Result-cases (err e) = inr (e, refl)

abbrev pub Exec : Type 0 → Type 0 → Type 0 → Type 0
Exec E S A = S → Result E A × S

module _ {E S A : Type 0} where
  abbrev pub pure : A → Exec E S A
  pure a s = (ok a, s)

  abbrev pub raise : E → Exec E S A
  raise e s = (err e, s)

  abbrev pub gets : (S → A) → Exec E S A
  gets f s = (ok (f s), s)

  abbrev pub lift : Result E A → Exec E S A
  lift r s = (r, s)

  abbrev pub or_raise : Option A → E → Exec E S A
  or_raise none e = raise e
  or_raise (some a) e = pure a

  abbrev pub rolled_back : S → Result E A → S → Result E A × S
  rolled_back before (ok a) after = (ok a, after)
  rolled_back before (err e) after = (err e, before)

  -- `async with session.begin_nested()`, and `session.begin()` of a whole transaction: a raise
  -- restores the state at entry and goes on up.
  abbrev pub savepoint : Exec E S A → Exec E S A
  savepoint m s = let (r, s') = m s in rolled_back s r s'

infixl 5 ◌>>=◌ ◌>>◌
abbrev pub continue : {E S A B : Type 0} → Result E A → (A → Exec E S B) → Exec E S B
continue (ok a) f s = f a s
continue (err e) f s = (err e, s)

abbrev pub ◌>>=◌ : {E S A B : Type 0} → Exec E S A → (A → Exec E S B) → Exec E S B
◌>>=◌ m f s = let (r, s') = m s in continue r f s'

abbrev pub ◌>>◌ : {E S A B : Type 0} → Exec E S A → Exec E S B → Exec E S B
m >> n = m >>= λ _. n

module _ {E S : Type 0} where
  abbrev pub raise_if : Bool → E → Exec E S (Unit {0})
  raise_if true e = raise e
  raise_if false e = pure tt

  abbrev pub modify : (S → S) → Exec E S (Unit {0})
  modify f s = (ok tt, f s)

-- What follows a step and only returns leaves the state that the step left.
pub pure_after : {E S A B : Type 0} (m : Exec E S A) (x : B) (s : S) → ((m >> pure x) s).1 ≡ (m s).1
pure_after m x s = elim (Result-cases (m s).0) [
  | inl (a, fine) ↦ rw fine refl
  | inr (e, raised) ↦ rw raised refl
]

pub pure_then :
    {E S A B : Type 0} (m : Exec E S A) (x : B) (s s' : S) (a : A)
    → m s ≡ (ok a, s')
    → (m >> pure x) s ≡ (ok x, s')
pure_then m x s s' a h = rw h refl
