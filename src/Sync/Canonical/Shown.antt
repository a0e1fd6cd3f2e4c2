-- ===== src/Sync/Canonical/Shown.antt =====
-- The stock that a channel is shown.
use posnet_adapter.Prelude.{
  ℕ, String, ◌≡◌, refl, sym, ap, ◌∙◌, find?, Bool, true, ◌&&◌, none, some, List, [], ◌∷◌, ◌==◌,
  arith, select, if◌then◌else◌, Bool-cases, inl, inr,
}
use posnet_adapter.CanonicalModel.{CanonicalProduct}
use posnet_adapter.Prelude.Exec.{Result, ok}
use posnet_adapter.Prelude.Int.{ℤ, pos, ◌+ℤ◌, ◌-ℤ◌, max_ℤ, int_laws}
use posnet_adapter.Tables.{Inventory, Variant, Product, visible, Error}
use posnet_adapter.Inventory.Levels.{sum_over}
use posnet_adapter.OrderIngest.{contains, is_planned, online_warehouse_ids}
use posnet_adapter.OrderIngest.Plan.{available_of}
use posnet_adapter.Catalog.{Catalog}
use posnet_adapter.Sync.Canonical.{
  aggregate_from, aggregate_online_stock, stock_rows, snapshot, to_canonical_product, image_urls_of,
  build_canonical_product, canonical_fields,
}
use posnet_adapter.OrderIngest.Covered.{online_stock}
use posnet_adapter.Pricing.{Prices, ResolvedPrice, chosen, priced, resolve_price}
use posnet_adapter.Pricing.Resolution.{Joins, resolve_price_joined, priced_currency}

add_row : (q r a b s : ℤ) → (q +ℤ a) -ℤ (r +ℤ b) +ℤ s ≡ q -ℤ r +ℤ ((a -ℤ b) +ℤ s)
add_row q r a b s = grind int_laws

skip_row : (x s : ℤ) → x +ℤ s ≡ x +ℤ (pos 0 +ℤ s)
skip_row x s = grind int_laws

zero_add : (s : ℤ) → pos 0 -ℤ pos 0 +ℤ s ≡ s
zero_add s = grind int_laws

module _ (tenant v : ℕ) (ids : List ℕ) where
  abbrev counts : Inventory → ℤ
  counts r = if is_planned (some tenant) tenant v ids r then available_of r else pos 0

  abbrev own : Inventory → Bool
  own r = r.variant_id == v && visible (some tenant) r.tenant_id

  aggregate_sum :
      (rows : List Inventory) (qty reserved : ℤ)
      → let (q, r) = aggregate_from ids (select own rows) (qty, reserved) in
        q -ℤ r ≡ qty -ℤ reserved +ℤ sum_over counts rows
  unfolding aggregate_from
  aggregate_sum [] qty reserved = grind int_laws
  aggregate_sum (row ∷ rows) qty reserved = elim (Bool-cases (row.variant_id == v)) [
    | inl same ↦ elim (Bool-cases (row.tenant_id == tenant)) [
      | inl mine ↦ elim (Bool-cases (contains row.warehouse_id ids)) [
        | inl online ↦
            rw (same, mine, online, own, counts, is_planned)
              (aggregate_sum rows (qty +ℤ row.qty) (reserved +ℤ row.reserved_qty)
                ∙ add_row qty reserved row.qty row.reserved_qty (sum_over counts rows))
        | inr local ↦
            rw (same, mine, local, own, counts, is_planned)
              (aggregate_sum rows qty reserved ∙ skip_row (qty -ℤ reserved) (sum_over counts rows))
      ]
      | inr foreign ↦
          rw (same, foreign, own, counts, is_planned)
            (aggregate_sum rows qty reserved ∙ skip_row (qty -ℤ reserved) (sum_over counts rows))
    ]
    | inr other ↦ elim (Bool-cases (row.tenant_id == tenant)) [
      | inl mine ↦
          rw (other, mine, own, counts, is_planned)
            (aggregate_sum rows qty reserved ∙ skip_row (qty -ℤ reserved) (sum_over counts rows))
      | inr foreign ↦
          rw (other, foreign, own, counts, is_planned)
            (aggregate_sum rows qty reserved ∙ skip_row (qty -ℤ reserved) (sum_over counts rows))
    ]
  ]

own_variant :
    (tenant v : ℕ) (x : Variant) (rows : List Variant)
    → find? (λ r. r.id == v && visible (some tenant) r.tenant_id) rows ≡ some x
    → x.tenant_id ≡ tenant
own_variant tenant v x [] h = cc
own_variant tenant v x (y ∷ rows) h =
    elim (Bool-cases (y.id == v && visible (some tenant) y.tenant_id)) [
      | inl passes ↦
          let e : some y ≡ some x = rw (passes, find?) at h in
          let k : y.tenant_id ≡ tenant = ground (arith, passes) in
          let f : y ≡ x = cc in ap (λ z. z.tenant_id) (sym f) ∙ k
      | inr fails ↦ own_variant tenant v x rows (rw (fails, find?) at h)
    ]

module _ (is_currency : String → Bool) (tenant v at : ℕ) (c : Catalog) (x : Variant)
    (product : Product) where
  abbrev resolved : ResolvedPrice
  resolved = priced x product (chosen (some tenant) v at none c.prices)

  abbrev snapshot_fields : CanonicalProduct
  snapshot_fields =
      canonical_fields x product (image_urls_of (some tenant) product.id c)
        (aggregate_online_stock (stock_rows (some tenant) v c)
          (online_warehouse_ids (some tenant) x.tenant_id c.prices.db))
        resolved.effective_price_minor resolved.currency

  shown_snapshot :
      is_currency product.currency ≡ true
      → snapshot is_currency (some tenant) v x product c (ok resolved) ≡ ok (some snapshot_fields)
  unfolding snapshot to_canonical_product
  shown_snapshot valid =
      rw
        (ap is_currency (priced_currency x product (chosen (some tenant) v at none c.prices))
          ∙ valid)
        refl

  built :
      Joins (some tenant) v at none c.prices x product
      → product.online_published ≡ true
      → is_currency product.currency ≡ true
      → build_canonical_product is_currency (some tenant) v at c ≡ ok (some snapshot_fields)
  unfolding build_canonical_product
  built joins shown valid = rw joins.0 (
      rw joins.1 (
        rw shown (
          ap
            (λ (r : Result Error ResolvedPrice × Prices).
              snapshot is_currency (some tenant) v x product c r.0)
            (resolve_price_joined (some tenant) v at none c.prices x product joins)
          ∙ shown_snapshot valid)))

  stock_shown :
      x.tenant_id ≡ tenant
      → let (q, r) =
          aggregate_online_stock
            (stock_rows (some tenant) v c)
            (online_warehouse_ids (some tenant) x.tenant_id c.prices.db) in
        q -ℤ r
        ≡ online_stock
            (some tenant)
            tenant
            v
            (online_warehouse_ids (some tenant) tenant c.prices.db)
            c.prices.db
  unfolding aggregate_online_stock
  stock_shown mine =
      ap
        (λ k.
          let (q, r) =
            aggregate_online_stock (stock_rows (some tenant) v c)
              (online_warehouse_ids (some tenant) k c.prices.db) in
          q -ℤ r)
        mine
      ∙ aggregate_sum tenant v (online_warehouse_ids (some tenant) tenant c.prices.db) c.inventory
          (pos 0) (pos 0)
      ∙ zero_add _

  -- For a session of the tenant, and a product that is published with a valid currency, the
  -- snapshot shows exactly the online stock that decides whether an order can be reserved, or 0 if
  -- that is negative, at the price that is resolved for no particular store.
  pub build_canonical_product_lem :
      Joins (some tenant) v at none c.prices x product
      → product.online_published ≡ true
      → is_currency product.currency ≡ true
      → (p : CanonicalProduct) × (r : ResolvedPrice) × (build_canonical_product is_currency
            (some tenant)
            v
            at
            c
          ≡ ok (some p))
        × (resolve_price (some tenant) v at none c.prices ≡ (ok r, c.prices))
        × (p.price_minor ≡ r.effective_price_minor)
        × (p.stock_qty
            ≡ max_ℤ
                (online_stock
                  (some tenant)
                  tenant
                  v
                  (online_warehouse_ids (some tenant) tenant c.prices.db)
                  c.prices.db)
                (pos 0))
  build_canonical_product_lem joins shown valid = (
    snapshot_fields,
    resolved,
    built joins shown valid,
    resolve_price_joined (some tenant) v at none c.prices x product joins,
    refl,
    ap (λ k. max_ℤ k (pos 0)) (stock_shown (own_variant tenant v x c.prices.db.variants joins.0)),
  )
