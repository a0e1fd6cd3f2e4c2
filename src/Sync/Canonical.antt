-- ===== src/Sync/Canonical.antt =====
-- services/core/app/sync/canonical.py: the snapshot of a variant that goes to the channels. The
-- currency check of the schema, by methods of Python's strings, is the parameter `is_currency`.
pub mod Shown
use text.Mathlib.Text.{◌==◌ as str_eq}
use posnet_adapter.Prelude.{
  ℕ, String, Bool, true, false, not, ◌&&◌, Option, none, some, List, [], ◌∷◌, map, ◌==◌, leb,
  select, if◌then◌else◌,
}
use posnet_adapter.Prelude.Int.{ℤ, pos, ◌+ℤ◌, ◌-ℤ◌, max_ℤ}
use posnet_adapter.Prelude.Exec.{Result, ok, err}
use posnet_adapter.CanonicalModel.{CanonicalProduct, ProductStatus, active, inactive, archived}
use posnet_adapter.Adapter.Errors.{Failure, other_exception}
use posnet_adapter.Tables.{Variant, Product, Inventory, Scope, visible, Error}
use posnet_adapter.Catalog.{ProductImage, Catalog}
use posnet_adapter.OrderIngest.{contains, online_warehouse_ids}
use posnet_adapter.Pricing.{Prices, ResolvedPrice, find_variant, product_of, resolve_price}

pub data BuildError : Type 0 where
  domain_error : Error → BuildError
  schema_error : BuildError

-- The loop of `aggregate_online_stock`, from `(qty, reserved)` on.
unfoldable pub aggregate_from : List ℕ → List Inventory → ℤ × ℤ → ℤ × ℤ
aggregate_from ids [] (qty, reserved) = (qty, reserved)
aggregate_from ids (row ∷ rows) (qty, reserved) =
    let counted = aggregate_from ids rows (qty +ℤ row.qty, reserved +ℤ row.reserved_qty) in
    let skipped = aggregate_from ids rows (qty, reserved) in
    if contains row.warehouse_id ids then counted else skipped

unfoldable pub aggregate_online_stock : List Inventory → List ℕ → ℤ × ℤ
unfolding aggregate_from
aggregate_online_stock rows ids = aggregate_from ids rows (pos 0, pos 0)

-- `_STATUS_MAP.get(…, ACTIVE)`.
abbrev pub status_of : String → ProductStatus
status_of s =
    if str_eq s "inactive" then inactive else if str_eq s "archived" then archived else active

-- `variant.name or product.name`.
abbrev pub name_or : Option String → String → String
name_or none other = other
name_or (some name) other = if str_eq name "" then other else name

abbrev pub canonical_fields :
    Variant → Product → List String → ℤ × ℤ → ℤ → String → CanonicalProduct
canonical_fields x product image_urls online price currency = record {
  sku = x.sku;
  barcode = x.barcode;
  name = name_or x.name product.name;
  attributes = x.attributes;
  category_path = product.category_path;
  price_minor = price;
  currency = currency;
  stock_qty = max_ℤ (online.0 -ℤ online.1) (pos 0);
  images = image_urls;
  status = status_of product.status;
}

unfoldable pub to_canonical_product :
    (String → Bool)
    → Variant
    → Product
    → List String
    → ℤ × ℤ
    → ℤ
    → String
    → Result BuildError CanonicalProduct
to_canonical_product is_currency x product image_urls online price currency =
    if is_currency currency
    then ok (canonical_fields x product image_urls online price currency)
    else err schema_error

abbrev insert_image : ProductImage → List ProductImage → List ProductImage
insert_image i [] = i ∷ []
insert_image i (x ∷ rows) =
    if leb i.sort_order x.sort_order then i ∷ x ∷ rows else x ∷ insert_image i rows

abbrev order_images : List ProductImage → List ProductImage
order_images [] = []
order_images (i ∷ rows) = insert_image i (order_images rows)

unfoldable pub image_urls_of : Scope → ℕ → Catalog → List String
image_urls_of scope product c =
    map (λ i. i.url)
      (order_images (select (λ i. i.product_id == product && visible scope i.tenant_id) c.images))

abbrev pub stock_rows : Scope → ℕ → Catalog → List Inventory
stock_rows scope v c = select (λ r. r.variant_id == v && visible scope r.tenant_id) c.inventory

abbrev pub published :
    Result BuildError CanonicalProduct → Result BuildError (Option CanonicalProduct)
published (ok p) = ok (some p)
published (err e) = err e

module _ (is_currency : String → Bool) where
  -- What follows `resolve_price`.
  unfoldable pub snapshot :
      Scope
      → ℕ
      → Variant
      → Product
      → Catalog
      → Result Error ResolvedPrice
      → Result BuildError (Option CanonicalProduct)
  unfolding to_canonical_product aggregate_online_stock online_warehouse_ids image_urls_of
  snapshot scope v x product c (err e) = err (domain_error e)
  snapshot scope v x product c (ok resolved) = published (
      to_canonical_product is_currency x product (image_urls_of scope product.id c)
        (aggregate_online_stock (stock_rows scope v c)
          (online_warehouse_ids scope x.tenant_id c.prices.db))
        resolved.effective_price_minor resolved.currency)

  -- The gate.
  abbrev pub gated :
      Scope
      → ℕ
      → ℕ
      → Catalog
      → Variant
      → Option Product
      → Result BuildError (Option CanonicalProduct)
  gated scope v at c x none = ok none
  gated scope v at c x (some product) =
      let built = snapshot scope v x product c (resolve_price scope v at none c.prices).0 in
      if not product.online_published then ok none else built

  abbrev pub built_from :
      Scope → ℕ → ℕ → Catalog → Option Variant → Result BuildError (Option CanonicalProduct)
  built_from scope v at c none = ok none
  built_from scope v at c (some x) = gated scope v at c x (product_of scope x c.prices)

  -- `build_canonical_product`, which only reads.
  unfoldable pub build_canonical_product :
      Scope → ℕ → ℕ → Catalog → Result BuildError (Option CanonicalProduct)
  unfolding snapshot resolve_price
  build_canonical_product scope v at c = built_from scope v at c (find_variant scope v c.prices.db)

-- `build_canonical_product` in a worker: what it raises is no error of an adapter.
abbrev pub built :
    Result BuildError (Option CanonicalProduct) → Result Failure (Option CanonicalProduct)
built (ok p) = ok p
built (err _) = err other_exception
