-- ===== src/Prelude/Posts.antt =====
-- What holds when an action has returned: an action establishes a property of the state, or keeps
-- one, whether it returns or raises.
use mathlib.Core.Path.{◌≡◌, refl}
use mathlib.Core.Logic.{inl, inr}
use mathlib.Core.Bool.{Bool, true, false}
use posnet_adapter.Prelude.Exec.{
  Result, ok, err, Exec, pure, gets, raise_if, modify, ◌>>=◌, Result-cases,
}

abbrev pub is_ok : {E A : Type 0} → Result E A → Bool
is_ok (ok a) = true
is_ok (err e) = false

pub record Establishes {E S A : Type 0} (P : S → Type 0) (m : Exec E S A) : Type 0 where
  pub holds : (s : S) → is_ok (m s).0 ≡ true → P (m s).1

pub record Keeps {E S A : Type 0} (P : S → Type 0) (m : Exec E S A) : Type 0 where
  pub stays : (s : S) → P s → P (m s).1

module _ {E S : Type 0} {P : S → Type 0} where
  pub pure-Keeps : {A : Type 0} (a : A) → Keeps {E = E} P (pure a)
  pure-Keeps a = record { stays = λ s h. h }

  pub gets-Keeps : {A : Type 0} (f : S → A) → Keeps {E = E} P (gets f)
  gets-Keeps f = record { stays = λ s h. h }

  pub raise_if-Keeps : (b : Bool) (e : E) → Keeps {E = E} P (raise_if b e)
  raise_if-Keeps true e = record { stays = λ s h. h }
  raise_if-Keeps false e = record { stays = λ s h. h }

  pub modify-Keeps : (f : S → S) → ((s : S) → P s → P (f s)) → Keeps {E = E} P (modify f)
  modify-Keeps f h = record { stays = h }

  pub modify-Establishes : (f : S → S) → ((s : S) → P (f s)) → Establishes {E = E} P (modify f)
  modify-Establishes f h = record { holds = λ s _. h s }

  pub bind-Keeps :
      {A B : Type 0} (m : Exec E S A) (f : A → Exec E S B)
      → Keeps P m
      → ((a : A) → Keeps P (f a))
      → Keeps P (m >>= f)
  bind-Keeps m f h k = record {
    stays = λ s p. elim (Result-cases (m s).0) [
      | inl (a, fine) ↦ rw fine ((k a).stays (m s).1 (h.stays s p))
      | inr (e, bad) ↦ rw bad (h.stays s p)
    ];
  }

  -- What the rest of a block establishes, and what a step establishes and the rest keeps.
  pub bind-Establishes :
      {A B : Type 0} (m : Exec E S A) (f : A → Exec E S B)
      → ((a : A) → Establishes P (f a))
      → Establishes P (m >>= f)
  bind-Establishes m f k = record {
    holds = λ s good. elim (Result-cases (m s).0) [
      | inl (a, fine) ↦ rw fine ((k a).holds (m s).1 (rw fine at good))
      | inr (e, bad) ↦ let no : false ≡ true = rw bad at good in cc
    ];
  }

  pub then-Establishes :
      {A B : Type 0} (m : Exec E S A) (f : A → Exec E S B)
      → Establishes P m
      → ((a : A) → Keeps P (f a))
      → Establishes P (m >>= f)
  then-Establishes m f h k = record {
    holds = λ s good. elim (Result-cases (m s).0) [
      | inl (a, fine) ↦ rw fine ((k a).stays (m s).1 (h.holds s (rw fine refl)))
      | inr (e, bad) ↦ let no : false ≡ true = rw bad at good in cc
    ];
  }

pub ruleset keeps_rules = (bind-Keeps, pure-Keeps, gets-Keeps, raise_if-Keeps, modify-Keeps)
