-- ===== src/Flags/Lookup.antt =====
-- The value that the overlay of a tenant's overrides gives a flag.
use posnet_adapter.Prelude.{
  ℕ, String, ◌≡◌, refl, ap, ◌∙◌, Bool, false, Option, none, some, List, [], ◌∷◌, map, arith,
  is_some, select, Bool-cases, inl, inr, if◌then◌else◌, str_eq, eq_iff,
}
use posnet_adapter.Tables.{visible}
use posnet_adapter.Flags.{
  FlagSpec, Flags, declared, defaults, put, overlay, FeatureFlag, effective_flags,
}

abbrev pub lookup : String → Flags → Option Bool
lookup j [] = none
lookup j ((k, e) ∷ flags) = if str_eq k j then some e else lookup j flags

-- An override has an effect only on a flag that is there.
abbrev pub over : Bool → Option Bool → Option Bool
over e none = none
over e (some _) = some e

-- The value of a flag after the overrides, from the one before.
abbrev pub final : String → Option Bool → Flags → Option Bool
final j o [] = o
final j o ((k, e) ∷ rest) = final j (if str_eq k j then over e o else o) rest

lookup-put :
    (j k : String) (e : Bool) (flags : Flags)
    → lookup j (put k e flags) ≡ (if str_eq k j then over e (lookup j flags) else lookup j flags)
lookup-put j k e [] = ground arith
lookup-put j k e ((x, d) ∷ flags) =
    ground (arith, lookup-put j k e flags, eq_iff k j, eq_iff x k, eq_iff x j)

pub lookup-defaults :
    (j : String) (specs : List FlagSpec) → is_some (lookup j (defaults specs)) ≡ declared j specs
lookup-defaults j [] = refl
lookup-defaults j (s ∷ specs) = ground (arith, lookup-defaults j specs)

-- The flags are the declared ones.
abbrev IsKeyed : List FlagSpec → Flags → Type 0
IsKeyed specs flags = (j : String) → is_some (lookup j flags) ≡ declared j specs

put-IsKeyed :
    (specs : List FlagSpec) (k : String) (e : Bool) (flags : Flags)
    → IsKeyed specs flags
    → IsKeyed specs (put k e flags)
put-IsKeyed specs k e flags h j = ground (arith, lookup-put j k e flags, h j)

absent :
    (j k : String) (e : Bool) (flags : Flags)
    → is_some (lookup k flags) ≡ false
    → lookup j flags ≡ (if str_eq k j then over e (lookup j flags) else lookup j flags)
absent j k e flags h = elim (Bool-cases (str_eq k j)) [
  | inl same ↦
      let gone : is_some (lookup j flags) ≡ false = ground (arith, h, same, eq_iff k j) in
      rw same (ground (arith, gone))
  | inr apart ↦ rw apart refl
]

overlay-lookup :
    (specs : List FlagSpec) (j : String) (flags overrides : Flags)
    → IsKeyed specs flags
    → lookup j (overlay specs flags overrides) ≡ final j (lookup j flags) overrides
overlay-lookup specs j flags [] h = refl
overlay-lookup specs j flags ((k, e) ∷ rest) h = elim (Bool-cases (declared k specs)) [
  | inl known ↦ rw known (
      overlay-lookup specs j (put k e flags) rest (put-IsKeyed specs k e flags h)
      ∙ ap (λ o. final j o rest) (lookup-put j k e flags))
  | inr unknown ↦ rw unknown (
      overlay-lookup specs j flags rest h
      ∙ ap (λ o. final j o rest) (absent j k e flags (h k ∙ unknown)))
]

-- The overrides that a tenant has.
abbrev pub overrides_of : ℕ → List FeatureFlag → Flags
overrides_of t rows =
    map (λ r. (r.key, r.enabled)) (select (λ (r : FeatureFlag). visible (some t) r.tenant_id) rows)

pub effective_lem :
    (t : ℕ) (specs : List FlagSpec) (rows : List FeatureFlag) (j : String)
    → lookup j (effective_flags (some t) specs rows)
      ≡ final j (lookup j (defaults specs)) (overrides_of t rows)
unfolding effective_flags
effective_lem t specs rows j =
    overlay-lookup specs j (defaults specs) (overrides_of t rows) (λ k. lookup-defaults k specs)

pub kept_some :
    (j : String) (o : Option Bool) (flags : Flags) → is_some (final j o flags) ≡ is_some o
kept_some j o [] = refl
kept_some j none ((k, e) ∷ flags) = ground (arith, kept_some j none flags)
kept_some j (some d) ((k, e) ∷ flags) =
    ground (arith, kept_some j (some d) flags, kept_some j (some e) flags)
