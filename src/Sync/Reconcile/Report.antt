-- ===== src/Sync/Reconcile/Report.antt =====
-- The figures of a run's report.
use posnet_adapter.Prelude.{
  ℕ, ◌≤◌, String, ◌≡◌, refl, sym, arith, Bool, true, false, ◌||◌, Option, none, some, List, [], ◌∷◌,
  ◌++◌, length, All, All-append, if◌then◌else◌, Bool-cases, inl, inr,
}
use posnet_adapter.Prelude.Exec.{Result, ok, err, Exec, Result-cases, pure, ◌>>=◌}
use posnet_adapter.CanonicalModel.{CanonicalProduct}
use posnet_adapter.Adapter.Errors.{Failure}
use posnet_adapter.Tables.{Variant, Scope}
use posnet_adapter.Catalog.{Catalog}
use posnet_adapter.Sync.Guard.{ChannelGuard, Timing}
use posnet_adapter.Sync.Dispatcher.{Channel}
use posnet_adapter.Sync.Reconcile.{
  ChannelListingSnapshot, ChannelAdapter, ListingReconcileResult, ReconcileReport, compare_listing,
  against, reconcile_one, stock_drifts, price_drifts, compared, Setting, Made, made, unknown_code,
  broken, reconcile_variants, reconcile_channel, with_adapter, reconcile_channels, count,
  is_drifted, is_repaired, report_of, reconcile_tenant,
}

-- Whatever the state, what the step returns has the property.
abbrev Yields : {S A : Type 0} → (A → Type 0) → Exec Failure S A → Type 0
Yields P m = (s : _) (a : _) → (m s).0 ≡ ok a → P a

module _ {S A : Type 0} (P : A → Type 0) where
  pure-Yields : (a : A) → P a → Yields {S = S} P (pure a)
  pure-Yields a p s b h = let k : a ≡ b = cc in rw (sym k) p

  then-Yields :
      {B : Type 0} (Q : B → Type 0) (m : Exec Failure S B) (f : B → Exec Failure S A)
      → Yields Q m
      → ((b : B) → Q b → Yields P (f b))
      → Yields P (m >>= f)
  then-Yields Q m f hm hf s a h = elim (Result-cases (m s).0) [
    | inl (b, fine) ↦ hf b (hm s b fine) (m s).1 a (rw fine at h)
    | inr (e, raised) ↦ let t : _ = rw raised at h in cc
  ]

  bind-Yields :
      {B : Type 0} (m : Exec Failure S B) (f : B → Exec Failure S A)
      → ((b : B) → Yields P (f b))
      → Yields P (m >>= f)
  bind-Yields m f hf = then-Yields (λ _. Unit {0}) m f (λ _ _ _. tt) (λ b _. hf b)

abbrev IsHonest : ListingReconcileResult → Type 0
IsHonest r = r.repaired ≡ true → is_drifted r ≡ true

module _ {W : Type 0} (channel : Channel) (adapter : ChannelAdapter W) (timing : ℕ → Timing) where
  compare-Honest :
      (sku : String) (p : CanonicalProduct) (r : Result Failure (Option ChannelListingSnapshot))
      → Yields IsHonest (compare_listing channel adapter timing sku p r)
  unfolding compare_listing
  compare-Honest sku p (err e) = pure-Yields IsHonest _ (λ h. cc)
  compare-Honest sku p (ok none) = pure-Yields IsHonest _ (λ h. cc)
  compare-Honest sku p (ok (some s)) = elim (Bool-cases (stock_drifts s p || price_drifts s p)) [
    | inl drifts ↦
        bind-Yields IsHonest _ _
          (λ repaired. pure-Yields IsHonest (compared sku channel.code p s repaired) (λ h. drifts))
    | inr agrees ↦ rw agrees (pure-Yields IsHonest (compared sku channel.code p s false) (λ h. cc))
  ]

  against-Honest :
      (sku : String) (o : Option CanonicalProduct)
      → Yields IsHonest (against channel adapter timing sku o)
  against-Honest sku none = pure-Yields IsHonest _ (λ h. cc)
  against-Honest sku (some p) = bind-Yields IsHonest _ _ (λ r. compare-Honest sku p r)

  reconcile_one-Honest :
      (is_currency : String → Bool) (scope : Scope) (c : Catalog) (at : ℕ) (v : Variant)
      → Yields IsHonest (reconcile_one channel adapter timing is_currency scope c at v)
  unfolding reconcile_one
  reconcile_one-Honest is_currency scope c at v =
      bind-Yields IsHonest _ _ (λ o. against-Honest v.sku o)

honest_counts :
    (repaired drifted : Bool)
    → (repaired ≡ true → drifted ≡ true)
    → ((if repaired then 1 else 0) ≤ (if drifted then 1 else 0)) × ((if drifted then 1 else 0) ≤ 1)
honest_counts true true h = (omega arith, omega arith)
honest_counts true false h = let k : false ≡ true = h refl in cc
honest_counts false true h = (omega arith, omega arith)
honest_counts false false h = (omega arith, omega arith)

count_honest :
    (rs : List ListingReconcileResult)
    → All IsHonest rs
    → (count is_repaired rs ≤ count is_drifted rs) × (count is_drifted rs ≤ length rs)
count_honest [] h = (omega arith, omega arith)
count_honest (r ∷ rs) h =
    let (a, b) = honest_counts r.repaired (is_drifted r) h.0 in
    let (c, d) = count_honest rs h.1 in (omega (arith, a, c), omega (arith, b, d))

abbrev IsConsistent : ReconcileReport → Type 0
IsConsistent r = (r.checked ≡ length r.results) × (r.repaired ≤ r.drifted) × (r.drifted ≤ r.checked)

module _ {W : Type 0} (x : Setting) where
  reconcile_variants-IsHonest :
      (channel : Channel) (adapter : ChannelAdapter W) (rows : List Variant)
      → Yields (All IsHonest) (reconcile_variants x channel adapter rows)
  unfolding reconcile_variants
  reconcile_variants-IsHonest channel adapter [] = pure-Yields (All IsHonest) [] tt
  reconcile_variants-IsHonest channel adapter (v ∷ rows) =
      then-Yields (All IsHonest) IsHonest _ _
        (reconcile_one-Honest channel adapter (x.timing channel.id v.id) x.is_currency x.scope
          x.catalog (x.clock v.id) v)
        (λ r honest.
          then-Yields (All IsHonest) (All IsHonest) _ _
            (reconcile_variants-IsHonest channel adapter rows)
            (λ rest honest_rest. pure-Yields (All IsHonest) (r ∷ rest) (honest, honest_rest)))

  with_adapter-IsHonest :
      (channel : Channel) (made_or_not : Made W)
      → Yields (All IsHonest) (with_adapter x channel made_or_not)
  unfolding reconcile_channel
  with_adapter-IsHonest channel (made adapter) = reconcile_variants-IsHonest channel adapter _
  with_adapter-IsHonest channel unknown_code = pure-Yields (All IsHonest) [] tt
  with_adapter-IsHonest channel (broken e) = λ s a h. cc

  reconcile_channels-IsHonest :
      (factory : Channel → Made W) (rows : List Channel)
      → Yields (All IsHonest) (reconcile_channels x factory rows)
  unfolding reconcile_channels
  reconcile_channels-IsHonest factory [] = pure-Yields (All IsHonest) [] tt
  reconcile_channels-IsHonest factory (channel ∷ rows) =
      then-Yields (All IsHonest) (All IsHonest) _ _
        (with_adapter-IsHonest channel (factory channel))
        (λ results honest.
          then-Yields (All IsHonest) (All IsHonest) _ _ (reconcile_channels-IsHonest factory rows)
            (λ rest honest_rest.
              pure-Yields (All IsHonest) (results ++ rest)
                (All-append IsHonest results rest honest honest_rest)))

  -- The report of a run that returns counts every result as checked, no more of them as drifted,
  -- and no more of those as repaired.
  pub reconcile_tenant_counts :
      (factory : Channel → Made W) (s : ChannelGuard × W) (r : ReconcileReport)
      → (reconcile_tenant x factory s).0 ≡ ok r
      → (r.checked ≡ length r.results) × (r.repaired ≤ r.drifted) × (r.drifted ≤ r.checked)
  unfolding reconcile_tenant
  reconcile_tenant_counts factory =
      then-Yields IsConsistent (All IsHonest) _ _ (reconcile_channels-IsHonest factory _)
        (λ rs honest.
          pure-Yields IsConsistent (report_of rs)
            (refl, (count_honest rs honest).0, (count_honest rs honest).1))
