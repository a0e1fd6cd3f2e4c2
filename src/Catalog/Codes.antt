-- ===== src/Catalog/Codes.antt =====
-- Scan codes: a tenant's SKU or barcode names at most one variant, and finds the one it was given.
use text.Mathlib.TextPositions.{eq_refl}
use posnet_adapter.Prelude.{
  ℕ, String, ◌≡◌, refl, ap, ◌∙◌, Bool, true, false, ◌&&◌, ◌||◌, Option, some, List, [], ◌∷◌, map,
  ◌==◌, arith, All, All-map, find?, find?-none, is_some, select, select-none, Bool-cases,
  Option-cases, inl, inr, str_eq, eq_iff, if◌then◌else◌, ==_iff,
}
use posnet_adapter.Prelude.Exec.{ok, pure_after}
use posnet_adapter.Tables.{
  refers, too_long, too_long_if, Variant, Scope, visible, Db, Payload, variant_added,
}
use posnet_adapter.Pricing.{unknown_store}
use posnet_adapter.Catalog.{
  Catalog, VariantSpec, with_db, enqueue, clash, overflows, same_barcode, new_variant, add_variant,
  create_product, set_online_published, announce, publish_row, enqueue_row, least_id, find_product,
  find_variant_by_sku, find_variant_by_barcode, variants_of,
}

-- No two variants of a tenant share a SKU or a barcode.
abbrev pub IsDistinct : List Variant → Type 0
IsDistinct [] = Unit {0}
IsDistinct (v ∷ rows) = All (λ r. clash v r ≡ false) rows × IsDistinct rows

enqueue-variants :
    (scope : Scope) (tenant : ℕ) (payload : Payload) (c : Catalog)
    → (enqueue scope tenant payload c).1.prices.db.variants ≡ c.prices.db.variants
enqueue-variants scope tenant payload c = elim (Bool-cases (visible scope tenant)) [
  | inl own ↦ rw own refl
  | inr foreign ↦ rw foreign refl
]

announce-variants :
    (scope : Scope) (tenant : ℕ) (rows : List Variant) (c : Catalog)
    → (announce scope tenant rows c).1.prices.db.variants ≡ c.prices.db.variants
unfolding announce
announce-variants scope tenant [] c = refl
announce-variants scope tenant (v ∷ rows) c = elim (Bool-cases (visible scope tenant)) [
  | inl own ↦
      rw own
        (announce-variants scope tenant rows (with_db (enqueue_row tenant (variant_added v.id)) c))
  | inr foreign ↦ rw foreign refl
]

sku_free :
    (v r : Variant) → clash v r ≡ false → (str_eq r.sku v.sku && r.tenant_id == v.tenant_id) ≡ false
sku_free v r h = ground (arith, h, eq_iff r.sku v.sku, eq_iff v.sku r.sku)

scan_sku :
    (v : Variant) (rows : List Variant)
    → All (λ r. clash v r ≡ false) rows
    → least_id (select (λ r. str_eq r.sku v.sku && r.tenant_id == v.tenant_id) (v ∷ rows)) ≡ some v
scan_sku v rows free =
    let others : select (λ (r : Variant). str_eq r.sku v.sku && r.tenant_id == v.tenant_id) rows
        ≡ [] =
      select-none _ rows (All-map _ _ rows (sku_free v) free) in
    rw (eq_refl v.sku) (rw ((==_iff v.tenant_id v.tenant_id).1 refl) (rw others refl))

barcode_free :
    (v r : Variant) (code : String)
    → v.barcode ≡ some code
    → clash v r ≡ false
    → (same_barcode r.barcode (some code) && r.tenant_id == v.tenant_id) ≡ false
barcode_free v r code own h = elim (Option-cases r.barcode) [
  | inl bare ↦ ground (arith, bare)
  | inr (b, e) ↦ ground (arith, h, own, e, eq_iff b code, eq_iff code b)
]

scan_barcode :
    (v : Variant) (code : String) (rows : List Variant)
    → v.barcode ≡ some code
    → All (λ r. clash v r ≡ false) rows
    → least_id
        (select (λ r. same_barcode r.barcode (some code) && r.tenant_id == v.tenant_id) (v ∷ rows))
      ≡ some v
scan_barcode v code rows own free =
    let others : select
          (λ (r : Variant). same_barcode r.barcode (some code) && r.tenant_id == v.tenant_id) rows
        ≡ [] =
      select-none _ rows (All-map _ _ rows (λ r. barcode_free v r code own) free) in
    simp (own, eq_refl code, (==_iff v.tenant_id v.tenant_id).1 refl, others)

-- One request to the catalogue.
pub data Request : Type 0 where
  create_request :
      Scope → ℕ → String → String → Option ℕ → Option String → List String → List String → Request
  variant_request : Scope → ℕ → ℕ → VariantSpec → Request
  publish_request : Scope → ℕ → ℕ → Bool → Request

unfoldable pub step : Request → Catalog → Catalog
step (create_request scope tenant name currency store brand path urls) c =
    (create_product scope tenant name currency store brand path urls c).1
step (variant_request scope tenant product spec) c = (add_variant scope tenant product spec c).1
step (publish_request scope tenant product published) c =
    (set_online_published scope tenant product published c).1

unfoldable pub run : List Request → Catalog → Catalog
run [] c = c
run (q ∷ rest) c = run rest (step q c)

create_product-variants :
    (scope : Scope) (tenant : ℕ) (name currency : String) (store : Option ℕ) (brand : Option String)
    (path urls : List String) (c : Catalog)
    → (create_product scope tenant name currency store brand path urls c).1.prices.db.variants
      ≡ c.prices.db.variants
unfolding create_product
create_product-variants scope tenant name currency store brand path urls c =
    elim (Bool-cases (unknown_store scope store c.prices)) [
      | inl foreign ↦ rw foreign refl
      | inr placed ↦ elim (Bool-cases (too_long 3 currency || too_long_if 200 brand)) [
        | inl long ↦ rw (placed, long) refl
        | inr fits ↦ elim (Bool-cases (visible scope tenant)) [
          | inl own ↦ rw (placed, fits, own) refl
          | inr other ↦ rw (placed, fits, other) refl
        ]
      ]
    ]

set_online_published-variants :
    (scope : Scope) (tenant product : ℕ) (published : Bool) (c : Catalog)
    → (set_online_published scope tenant product published c).1.prices.db.variants
      ≡ c.prices.db.variants
unfolding set_online_published
set_online_published-variants scope tenant product published c =
    elim (Option-cases (find_product scope product c)) [
      | inl unknown ↦ rw unknown refl
      | inr (p, found) ↦ rw found (
          let rows = variants_of scope product c in
          let c' =
            with_db
              (λ (db : Db). record db {
                products = map (publish_row product published) db.products;
              })
              c in
          let told = if published then rows else [] in
          ap (λ (x : Catalog). x.prices.db.variants)
            (pure_after (announce scope tenant told) (record p { online_published = published }) c')
          ∙ announce-variants scope tenant told c')
    ]

add_variant-IsDistinct :
    (scope : Scope) (tenant product : ℕ) (spec : VariantSpec) (c : Catalog)
    → IsDistinct c.prices.db.variants
    → IsDistinct (add_variant scope tenant product spec c).1.prices.db.variants
unfolding add_variant
add_variant-IsDistinct scope tenant product spec c h =
    let v = new_variant c.prices.db.next_id tenant product spec in
    elim (Bool-cases (is_some (find_product scope product c))) [
      | inl known ↦ elim (Bool-cases (overflows v)) [
        | inl long ↦ rw (known, long) h
        | inr fits ↦ elim (Bool-cases (visible scope tenant)) [
          | inl own ↦ elim (Bool-cases (is_some (find? (clash v) c.prices.db.variants))) [
            | inl taken ↦ rw (known, fits, own, taken) h
            | inr free ↦ elim (Bool-cases (refers tenant c.prices.db.tenants)) [
              | inl there ↦
                  rw (known, fits, own, free, there)
                    (find?-none (clash v) c.prices.db.variants free, h)
              | inr missing ↦ rw (known, fits, own, free, missing) h
            ]
          ]
          | inr foreign ↦ rw (known, fits, foreign) h
        ]
      ]
      | inr unknown ↦ rw unknown h
    ]

-- From a table in which no two variants of a tenant share a SKU or a barcode, no requests to the
-- catalogue, accepted or refused, lead to one in which two do.
pub run-IsDistinct :
    (requests : List Request) (c : Catalog)
    → IsDistinct c.prices.db.variants
    → IsDistinct (run requests c).prices.db.variants
unfolding run step
run-IsDistinct [] c h = h
run-IsDistinct (create_request scope tenant name currency store brand path urls ∷ rest) c h =
    run-IsDistinct rest _
      (rw (create_product-variants scope tenant name currency store brand path urls c) h)
run-IsDistinct (variant_request scope tenant product spec ∷ rest) c h =
    run-IsDistinct rest _ (add_variant-IsDistinct scope tenant product spec c h)
run-IsDistinct (publish_request scope tenant product published ∷ rest) c h =
    run-IsDistinct rest _ (rw (set_online_published-variants scope tenant product published c) h)

module _ (tenant product : ℕ) (spec : VariantSpec) (c : Catalog) where
  abbrev added : Variant
  added = new_variant c.prices.db.next_id tenant product spec

  -- A variant whose codes are free, and whose texts fit their columns (100 characters for the SKU
  -- and the barcode, 200 for the name), is added under a product of a tenant that is on record, and
  -- a scan of its SKU, or of its barcode if it has one, finds it.
  pub find-add_variant :
      is_some (find_product (some tenant) product c) ≡ true
      → overflows added ≡ false
      → is_some (find? (clash added) c.prices.db.variants) ≡ false
      → refers tenant c.prices.db.tenants ≡ true
      → let (r, c') = add_variant (some tenant) tenant product spec c in
        (r ≡ ok added)
        × (find_variant_by_sku (some tenant) spec.sku c' ≡ some added)
        × ((code : String)
            → spec.barcode ≡ some code
            → find_variant_by_barcode (some tenant) code c' ≡ some added)
  unfolding add_variant find_variant_by_sku find_variant_by_barcode
  find-add_variant known fits free there =
      let rows = find?-none (clash added) c.prices.db.variants free in
      rw (known, fits, (==_iff tenant tenant).1 refl, free, there)
        (
          refl,
          scan_sku added c.prices.db.variants rows,
          λ code own. scan_barcode added code c.prices.db.variants own rows,
        )
