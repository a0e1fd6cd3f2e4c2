-- ===== src/Flags/Overrides.antt =====
-- What a tenant sees of its flags after one was set.
use text.Mathlib.TextPositions.{eq_refl}
use posnet_adapter.Prelude.{
  ℕ, String, ◌≡◌, refl, sym, ap, ◌∙◌, Bool, true, false, ◌&&◌, Option, some, List, [], ◌∷◌, ◌++◌,
  map, arith, ◌==◌, ==_iff, find?, is_some, select, select-none, find?-none, All-map, ◌⊎◌,
  Bool-cases, Option-cases, inl, inr, if◌then◌else◌, str_eq, eq_iff,
}
use posnet_adapter.Prelude.Exec.{ok}
use posnet_adapter.Tables.{visible}
use posnet_adapter.Flags.{
  FlagSpec, declared, defaults, resolve, FeatureFlag, effective_flags, switch_row, set_flag,
}
use posnet_adapter.Flags.Lookup.{
  lookup, over, final, kept_some, effective_lem, lookup-defaults, overrides_of,
}

module _ (t : ℕ) (key : String) (e : Bool) (x : FeatureFlag) (own : (x.tenant_id == t) ≡ true)
    (named : str_eq x.key key ≡ true) where
  settled :
      (rows : List FeatureFlag)
      → final key (some e) (overrides_of t (map (switch_row x e) rows)) ≡ some e
  settled [] = refl
  settled (r ∷ rows) =
      ground
        (arith, own, named, settled rows, eq_iff x.key key, eq_iff r.key x.key, eq_iff r.key key)

  switched :
      (rows : List FeatureFlag) (d : Bool)
      → is_some (find? (λ r. str_eq r.key key && visible (some t) r.tenant_id) rows) ≡ true
      → final key (some d) (overrides_of t (map (switch_row x e) rows)) ≡ some e
  switched [] d h = cc
  switched (r ∷ rows) d h = ground (
    arith,
    own,
    named,
    h,
    settled rows,
    switched rows d,
    eq_iff x.key key,
    eq_iff r.key x.key,
    eq_iff r.key key,
  )

  switched_others :
      (rows : List FeatureFlag) (j : String) (o : Option Bool)
      → str_eq key j ≡ false
      → final j o (overrides_of t (map (switch_row x e) rows)) ≡ final j o (overrides_of t rows)
  switched_others [] j o apart = refl
  switched_others (r ∷ rows) j o apart = ground (
    arith,
    own,
    named,
    apart,
    switched_others rows j o apart,
    switched_others rows j (over r.enabled o) apart,
    eq_iff x.key key,
    eq_iff r.key x.key,
    eq_iff r.key key,
    eq_iff r.key j,
    eq_iff key j,
  )

  switched_foreign :
      (rows : List FeatureFlag) (u : ℕ)
      → (t == u) ≡ false
      → overrides_of u (map (switch_row x e) rows) ≡ overrides_of u rows
  switched_foreign [] u apart = refl
  switched_foreign (r ∷ rows) u apart = ground (arith, own, apart, switched_foreign rows u apart)

module _ (t : ℕ) (r : FeatureFlag) (own : (r.tenant_id == t) ≡ true) where
  appended :
      (rows : List FeatureFlag) (j : String) (o : Option Bool)
      → final j o (overrides_of t (rows ++ r ∷ [])) ≡ (
          let before = final j o (overrides_of t rows) in
          if str_eq r.key j then over r.enabled before else before)
  appended [] j o = ground (arith, own)
  appended (x ∷ rows) j o =
      ground (arith, own, appended rows j o, appended rows j (over x.enabled o))

  appended_foreign :
      (rows : List FeatureFlag) (u : ℕ)
      → (t == u) ≡ false
      → overrides_of u (rows ++ r ∷ []) ≡ overrides_of u rows
  appended_foreign [] u apart = ground (arith, own, apart)
  appended_foreign (x ∷ rows) u apart = ground (arith, own, apart, appended_foreign rows u apart)

select_head :
    {A : Type 0} (p : A → Bool) (rows : List A) (x : A) (ys : List A)
    → select p rows ≡ x ∷ ys
    → (p x ≡ true) × (is_some (find? p rows) ≡ true)
select_head p [] x ys h = cc
select_head p (r ∷ rows) x ys h = elim (Bool-cases (p r)) [
  | inl taken ↦
      let k : r ∷ select p rows ≡ x ∷ ys = rw taken at h in
      let e : r ≡ x = cc in (rw (sym e) taken, rw taken refl)
  | inr passed ↦
      let (own, found) = select_head p rows x ys (rw passed at h) in (own, rw passed found)
]

-- UNIQUE (tenant_id, key).
abbrev pub IsUnique : List FeatureFlag → Type 0
IsUnique [] = Unit {0}
IsUnique (r ∷ rows) =
    (is_some (find? (λ x. x.tenant_id == r.tenant_id && str_eq x.key r.key) rows) ≡ false)
    × IsUnique rows

module _ (t : ℕ) (key : String) (enabled : Bool) (specs : List FlagSpec)
    (rows : List FeatureFlag) where
  -- The tenant sees the flag as it was set and its other flags as before, and every other tenant
  -- sees all of its flags as before.
  abbrev pub Switches : List FeatureFlag → Type 0
  Switches rows' =
      (lookup key (effective_flags (some t) specs rows') ≡ some enabled)
      × ((j : String)
          → str_eq key j ≡ false
          → lookup j (effective_flags (some t) specs rows')
            ≡ lookup j (effective_flags (some t) specs rows))
      × ((u : ℕ)
          → (t == u) ≡ false
          → effective_flags (some u) specs rows' ≡ effective_flags (some u) specs rows)

  set_by :
      (rows' : List FeatureFlag)
      → final key (lookup key (defaults specs)) (overrides_of t rows') ≡ some enabled
      → ((j : String) (o : Option Bool)
          → str_eq key j ≡ false
          → final j o (overrides_of t rows') ≡ final j o (overrides_of t rows))
      → ((u : ℕ) → (t == u) ≡ false → overrides_of u rows' ≡ overrides_of u rows)
      → Switches rows'
  unfolding effective_flags
  set_by rows' here others foreign = (
    effective_lem t specs rows' key ∙ here,
    λ j apart.
        effective_lem t specs rows' j
        ∙ others j (lookup j (defaults specs)) apart
        ∙ sym (effective_lem t specs rows j),
    λ u apart. ap (resolve specs) (foreign u apart),
  )

  abbrev new_row : FeatureFlag
  new_row = record { tenant_id = t; key = key; enabled = enabled }

  module _ (known : declared key specs ≡ true) where
    default_there : (d : Bool) × (lookup key (defaults specs) ≡ some d)
    default_there = elim (Option-cases (lookup key (defaults specs))) [
      | inl gone ↦
          let k : false ≡ true = ap is_some (sym gone) ∙ lookup-defaults key specs ∙ known in cc
      | inr (d, there) ↦ (d, there)
    ]

    inserted-Switches : (t == t) ≡ true → Switches (rows ++ new_row ∷ [])
    inserted-Switches own =
        let (d, there) = default_there in
        set_by (rows ++ new_row ∷ [])
          (rw there (
            ground (
              arith,
              appended t new_row own rows key (some d),
              kept_some key (some d) (overrides_of t rows),
              eq_refl key,
            )))
          (λ j o apart. ground (arith, apart, appended t new_row own rows j o))
          (appended_foreign t new_row own rows)

    switched-Switches :
        (x : FeatureFlag)
        → (str_eq x.key key && x.tenant_id == t) ≡ true
        → is_some (find? (λ r. str_eq r.key key && visible (some t) r.tenant_id) rows) ≡ true
        → Switches (map (switch_row x enabled) rows)
    switched-Switches x mine found =
        let own : (x.tenant_id == t) ≡ true = ground (arith, mine) in
        let named : str_eq x.key key ≡ true = ground (arith, mine) in
        let (d, there) = default_there in
        set_by (map (switch_row x enabled) rows)
          (rw there (switched t key enabled x own named rows d found))
          (switched_others t key enabled x own named rows)
          (switched_foreign t key enabled x own named rows)

  abbrev is_mine : FeatureFlag → Bool
  is_mine r = str_eq r.key key && visible (some t) r.tenant_id

  only_one :
      (xs : List FeatureFlag)
      → IsUnique xs
      → (select is_mine xs ≡ []) ⊎ ((x : FeatureFlag) × (select is_mine xs ≡ x ∷ []))
  only_one [] h = inl refl
  only_one (x ∷ xs) h = elim (Bool-cases (is_mine x)) [
    | inl mine ↦
        let none_more : select is_mine xs ≡ [] = select-none is_mine xs (
          All-map _ _ xs
            (λ r apart.
              ground (arith, mine, apart, eq_iff x.key key, eq_iff r.key key, eq_iff r.key x.key))
            (find?-none _ xs h.0)) in
        inr (x, rw (mine, none_more) refl)
    | inr strange ↦ rw strange (only_one xs h.1)
  ]

  -- In a table with no two rows of one tenant and key, a tenant's session sets a declared flag: the
  -- tenant sees it as it was set, and its other flags, and all the flags of every other tenant, are
  -- seen as before.
  pub set_flag_lem :
      declared key specs ≡ true
      → IsUnique rows
      → (r : FeatureFlag) × (rows' : List FeatureFlag) × (set_flag (some t) t key enabled specs rows
          ≡ (ok r, rows'))
        × Switches rows'
  unfolding set_flag
  set_flag_lem known unique = elim (only_one rows unique) [
    | inl free ↦ (
      new_row,
      rows ++ new_row ∷ [],
      rw known (rw free (rw ((==_iff t t).1 refl) refl)),
      inserted-Switches known ((==_iff t t).1 refl),
    )
    | inr (x, there) ↦
        let (mine, found) = select_head _ rows x [] there in
        (
          record x { enabled = enabled },
          map (switch_row x enabled) rows,
          rw known (rw there refl),
          switched-Switches known x mine found,
        )
  ]
