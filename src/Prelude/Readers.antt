-- ===== src/Prelude/Readers.antt =====
-- Actions that read a part of the program's state or none of it, and leave all of it.
use mathlib.Core.Path.{◌≡◌, refl}
use mathlib.Core.Bool.{Bool, true, false}
use mathlib.Core.Option.{Option, none, some}
use posnet_adapter.Prelude.Exec.{Result, ok, err, Exec, pure, lift, or_raise, raise_if, ◌>>=◌}

-- An action whose result is the same in every state, which it leaves as it was.
pub record IsConstant {E S A : Type 0} (m : Exec E S A) : Type 0 where
  pub result : Result E A
  pub runs : (s : S) → m s ≡ (result, s)

module _ {E S : Type 0} where
  pub pure-IsConstant : {A : Type 0} (a : A) → IsConstant {E = E} {S = S} (pure a)
  pure-IsConstant a = record { result = ok a; runs = λ s. refl }

  pub lift-IsConstant : {A : Type 0} (r : Result E A) → IsConstant {E = E} {S = S} (lift r)
  lift-IsConstant r = record { result = r; runs = λ s. refl }

  pub or_raise-IsConstant :
      {A : Type 0} (o : Option A) (e : E) → IsConstant {E = E} {S = S} (or_raise o e)
  or_raise-IsConstant none e = record { result = err e; runs = λ s. refl }
  or_raise-IsConstant (some a) e = record { result = ok a; runs = λ s. refl }

  pub raise_if-IsConstant : (b : Bool) (e : E) → IsConstant {E = E} {S = S} (raise_if b e)
  raise_if-IsConstant true e = record { result = err e; runs = λ s. refl }
  raise_if-IsConstant false e = record { result = ok tt; runs = λ s. refl }

  continued :
      {A B : Type 0} (m : Exec E S A) (f : A → Exec E S B) (r : Result E A)
      → ((s : S) → m s ≡ (r, s))
      → ((a : A) → IsConstant (f a))
      → IsConstant (m >>= f)
  continued m f (ok a) runs h = record {
    result = (h a).result;
    runs = λ s. rw (runs s) ((h a).runs s);
  }
  continued m f (err e) runs h = record { result = err e; runs = λ s. rw (runs s) refl }

  pub bind-IsConstant :
      {A B : Type 0} (m : Exec E S A) (f : A → Exec E S B)
      → IsConstant m
      → ((a : A) → IsConstant (f a))
      → IsConstant (m >>= f)
  bind-IsConstant m f h k = continued m f h.result h.runs k

pub ruleset constant_rules =
    (bind-IsConstant, pure-IsConstant, lift-IsConstant, or_raise-IsConstant, raise_if-IsConstant)
