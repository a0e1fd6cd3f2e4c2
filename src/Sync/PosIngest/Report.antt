-- ===== src/Sync/PosIngest/Report.antt =====
-- The counters of a run of the POS sync.
use posnet_adapter.Prelude.{
  ℕ, ◌+◌, ◌≤◌, ◌≡◌, refl, Bool, true, false, List, [], ◌∷◌, arith, length, inl, inr,
}
use posnet_adapter.Prelude.Exec.{ok, Result-cases}
use posnet_adapter.CanonicalModel.{CanonicalProduct}
use posnet_adapter.Tables.{Scope}
use posnet_adapter.Catalog.{Catalog}
use posnet_adapter.Sync.PosIngest.{
  PosSyncReport, tally, sync_product, sync_products, sync_catalog_from_pos,
}

-- From one report to another, over `n` products.
abbrev Counts : ℕ → PosSyncReport → PosSyncReport → Type 0
Counts n before after =
    (after.pulled ≡ before.pulled)
    × (after.created + after.updated ≡ before.created + before.updated + n)
    × (after.restocked ≤ before.restocked + n)

tally-Counts : (report : PosSyncReport) (done : Bool × Bool) → Counts 1 report (tally report done)
tally-Counts report (true, true) = (refl, omega arith, omega arith)
tally-Counts report (true, false) = (refl, omega arith, omega arith)
tally-Counts report (false, true) = (refl, omega arith, omega arith)
tally-Counts report (false, false) = (refl, omega arith, omega arith)

sync_products-Counts :
    (scope : Scope) (tenant w : ℕ) (products : List CanonicalProduct) (report r : PosSyncReport)
    (c c' : Catalog)
    → sync_products scope tenant w products report c ≡ (ok r, c')
    → Counts (length products) report r
unfolding sync_products
sync_products-Counts scope tenant w [] report r c c' h =
    let e : report ≡ r = cc in ground (arith, e)
sync_products-Counts scope tenant w (cp ∷ rest) report r c c' h =
    elim (Result-cases (sync_product scope tenant w cp c).0) [
      | inl (done, fine) ↦ ground (
        arith,
        tally-Counts report done,
        sync_products-Counts scope tenant w rest (tally report done) r
            (sync_product scope tenant w cp c).1 c' (rw fine at h),
      )
      | inr (e, raised) ↦ let t : _ = rw raised at h in cc
    ]

-- A run that returns has created or updated a variant for every product that it pulled, and has
-- moved the stock of no more than those.
pub sync_catalog_counts :
    (scope : Scope) (tenant w : ℕ) (products : List CanonicalProduct) (r : PosSyncReport)
    (c c' : Catalog)
    → sync_catalog_from_pos scope tenant products w c ≡ (ok r, c')
    → (r.pulled ≡ length products) × (r.created + r.updated ≡ r.pulled) × (r.restocked ≤ r.pulled)
unfolding sync_catalog_from_pos
sync_catalog_counts scope tenant w products r c c' h =
    ground (arith, sync_products-Counts scope tenant w products _ r c c' h)
