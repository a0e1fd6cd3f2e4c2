-- ===== src/Pricing/Resolution.antt =====
-- Which override the effective price comes from.
use mathlib.Core.Path.{subst, sym}
use posnet_adapter.Prelude.{
  ℕ, ◌≡◌, ◌⊎◌, refl, Bool, true, false, Option, none, some, List, [], ◌∷◌, arith, All, select,
  Bool-cases, inl, inr,
}
use posnet_adapter.Prelude.Exec.{ok}
use posnet_adapter.Tables.{Product, Scope, Variant}
use posnet_adapter.Pricing.{
  Prices, PriceOverride, ResolvedPrice, applies, precedes, earlier, first_of_all, chosen,
  find_variant, product_of, priced, resolve_price,
}

precedes_trans :
    (x a b : PriceOverride) → precedes a b ≡ true → precedes x b ≡ false → precedes x a ≡ false
precedes_trans x a b h k = ground arith

precedes_self : (a : PriceOverride) → precedes a a ≡ false
precedes_self a = ground arith

precedes_asym : (a b : PriceOverride) → precedes a b ≡ true → precedes b a ≡ false
precedes_asym a b h = ground arith

-- The value is one of the list's.
abbrev pub Among : {A : Type 0} → A → List A → Type 0
Among a [] = ⊥
Among a (x ∷ xs) = (a ≡ x) ⊎ Among a xs

-- No override of the list comes before `o`.
abbrev pub IsFirst : PriceOverride → List PriceOverride → Type 0
IsFirst o rows = All (λ x. precedes x o ≡ false) rows

IsFirst-trans :
    (a b : PriceOverride) (rows : List PriceOverride)
    → precedes a b ≡ true
    → IsFirst b rows
    → IsFirst a rows
IsFirst-trans a b [] h k = tt
IsFirst-trans a b (x ∷ rows) h k = (precedes_trans x a b h k.0, IsFirst-trans a b rows h k.1)

abbrev leader : PriceOverride → List PriceOverride → PriceOverride
leader x rows = earlier x (first_of_all rows)

leader_lem :
    (x : PriceOverride) (rows : List PriceOverride)
    → Among (leader x rows) (x ∷ rows) × IsFirst (leader x rows) (x ∷ rows)
leader_lem x [] = (inl refl, (precedes_self x, tt))
leader_lem x (y ∷ rows) =
    let (there, first) = leader_lem y rows in
    elim (Bool-cases (precedes x (leader y rows))) [
      | inl wins ↦
          let e : leader x (y ∷ rows) ≡ x = rw wins in
          subst (λ k. Among k (x ∷ y ∷ rows) × IsFirst k (x ∷ y ∷ rows)) (sym e)
            (inl refl, (precedes_self x, IsFirst-trans x (leader y rows) (y ∷ rows) wins first))
      | inr loses ↦
          let e : leader x (y ∷ rows) ≡ leader y rows = rw loses in
          subst (λ k. Among k (x ∷ y ∷ rows) × IsFirst k (x ∷ y ∷ rows)) (sym e)
            (inr there, (loses, first))
    ]

some_path : {A : Type 0} {a b : A} → some a ≡ some b → a ≡ b
some_path h = cc

pub first_of_all-IsFirst :
    (rows : List PriceOverride) (o : PriceOverride)
    → first_of_all rows ≡ some o
    → Among o rows × IsFirst o rows
first_of_all-IsFirst [] o h = cc
first_of_all-IsFirst (x ∷ rows) o h =
    subst (λ k. Among k (x ∷ rows) × IsFirst k (x ∷ rows)) (some_path h) (leader_lem x rows)

module _ (p : PriceOverride → Bool) where
  -- A value of a selection is one of the rows, and passes the test.
  select-Among :
      (o : PriceOverride) (rows : List PriceOverride)
      → Among o (select p rows)
      → Among o rows × (p o ≡ true)
  select-Among o [] h = elim h [ ]
  select-Among o (x ∷ rows) h = elim (Bool-cases (p x)) [
    | inl passes ↦ elim (rw passes at h) [
      | inl e ↦ (inl e, rw e passes)
      | inr t ↦ (inr (select-Among o rows t).0, (select-Among o rows t).1)
    ]
    | inr fails ↦
        let t : Among o (select p rows) = rw fails at h in
        (inr (select-Among o rows t).0, (select-Among o rows t).1)
  ]

  select-IsFirst :
      (o : PriceOverride) (rows : List PriceOverride)
      → IsFirst o (select p rows)
      → All (λ x. p x ≡ true → precedes x o ≡ false) rows
  select-IsFirst o [] h = tt
  select-IsFirst o (x ∷ rows) h = elim (Bool-cases (p x)) [
    | inl passes ↦
        let t : IsFirst o (x ∷ select p rows) = rw passes at h in
        ((λ _. t.0), select-IsFirst o rows t.1)
    | inr fails ↦
        let t : IsFirst o (select p rows) = rw fails at h in ((λ e. cc), select-IsFirst o rows t)
  ]

  select-none :
      (rows : List PriceOverride)
      → first_of_all (select p rows) ≡ none
      → All (λ x. p x ≡ false) rows
  select-none [] h = tt
  select-none (x ∷ rows) h = elim (Bool-cases (p x)) [
    | inl passes ↦ let t : first_of_all (x ∷ select p rows) ≡ none = rw passes at h in cc
    | inr fails ↦
        let t : first_of_all (select p rows) ≡ none = rw fails at h in (fails, select-none rows t)
  ]

priced_id :
    (x : Variant) (product : Product) (best : Option PriceOverride)
    → (priced x product best).variant_id ≡ x.id
priced_id x product none = refl
priced_id x product (some o) = refl

pub priced_currency :
    (x : Variant) (product : Product) (best : Option PriceOverride)
    → (priced x product best).currency ≡ product.currency
priced_currency x product none = refl
priced_currency x product (some o) = refl

priced_base :
    (x : Variant) (product : Product) (best : Option PriceOverride)
    → (priced x product best).base_price_minor ≡ x.base_price_minor
priced_base x product none = refl
priced_base x product (some o) = refl

module _ (scope : Scope) (v at : ℕ) (store : Option ℕ) (p : Prices) where
  -- The price is the base price, and no override applies; or it is that of an override which
  -- applies, and no other that applies comes before it.
  abbrev pub IsResolved : ResolvedPrice → Type 0
  IsResolved r =
      ((r.effective_price_minor ≡ r.base_price_minor)
        × (r.override_id ≡ none)
        × All (λ o. applies scope v at store o ≡ false) p.overrides)
      ⊎ ((o : PriceOverride) × Among o p.overrides
          × (applies scope v at store o ≡ true)
          × (r.effective_price_minor ≡ o.price_minor)
          × (r.override_id ≡ some o.id)
          × All (λ x. applies scope v at store x ≡ true → precedes x o ≡ false) p.overrides)

  best_priced :
      (x : Variant) (product : Product) (best : Option PriceOverride)
      → chosen scope v at store p ≡ best
      → IsResolved (priced x product best)
  best_priced x product none e = inl (refl, refl, select-none _ p.overrides e)
  best_priced x product (some o) e =
      let (there, first) = first_of_all-IsFirst _ o e in
      let (own, passes) = select-Among _ o p.overrides there in
      inr (o, own, passes, refl, refl, select-IsFirst _ o p.overrides first)

  -- The two rows that the first query joins.
  abbrev pub Joins : Variant → Product → Type 0
  Joins x product = (find_variant scope v p.db ≡ some x) × (product_of scope x p ≡ some product)

  pub resolve_price_joined :
      (x : Variant) (product : Product)
      → Joins x product
      → resolve_price scope v at store p ≡ (ok (priced x product (chosen scope v at store p)), p)
  unfolding resolve_price
  resolve_price_joined x product joins = rw joins.0 (rw joins.1 refl)

  -- A price asked for a variant that the scope sees, with its product, is always resolved, without
  -- a change to the state: to the first of the overrides that apply, in the order of the query
  -- (store-specific before tenant-wide, then the newest, then the greatest id), and to the base
  -- price only if none applies.
  pub resolve_price-IsResolved :
      (x : Variant) (product : Product)
      → Joins x product
      → (r : ResolvedPrice) × (resolve_price scope v at store p ≡ (ok r, p))
        × (r.variant_id ≡ x.id)
        × (r.base_price_minor ≡ x.base_price_minor)
        × IsResolved r
  resolve_price-IsResolved x product joins = (
    priced x product (chosen scope v at store p),
    resolve_price_joined x product joins,
    priced_id x product (chosen scope v at store p),
    priced_base x product (chosen scope v at store p),
    best_priced x product (chosen scope v at store p) refl,
  )
