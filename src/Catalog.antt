-- ===== src/Catalog.antt =====
-- services/core/app/domain/catalog.py. The full-text search of Postgres is the parameter `matches`,
-- and its collation is in the parameter that says which row may stand before another. A new variant
-- stands first in its table, of which no query reads the order.
pub mod Codes
pub mod Publish
pub mod Pages
use posnet_adapter.Prelude.{
  ℕ, suc, String, Bool, true, false, not, ◌&&◌, ◌||◌, Option, none, some, List, [], ◌∷◌, ◌++◌, map,
  ◌==◌, leb, length, ltb, find?, is_some, select, take, drop, sort_by, if◌then◌else◌, str_eq,
}
use posnet_adapter.Prelude.Int.{ℤ}
use posnet_adapter.Prelude.Exec.{Exec, pure, gets, raise_if, or_raise, modify, ◌>>=◌, ◌>>◌}
use posnet_adapter.Tables.{
  Variant, Product, Payload, product_created, variant_added, OutboxEvent, Db, Scope, visible, Error,
  not_found, conflict, row_security, data_error, refers, too_long, too_long_if, no_store,
  no_product, duplicate_variant,
}
use posnet_adapter.Pricing.{Prices, unknown_store}

pub record ProductImage : Type 0 where
  pub tenant_id : ℕ
  pub product_id : ℕ
  pub url : String
  pub sort_order : ℕ

pub record Catalog : Type 0 where
  pub prices : Prices
  pub open prices use *
  pub images : List ProductImage

abbrev pub with_db : (Db → Db) → Catalog → Catalog
with_db f c = record c { prices = record c.prices { db = f c.prices.db } }

-- `enqueue` of libs/eventbus/outbox.py.
abbrev pub event_row : ℕ → Payload → Db → OutboxEvent
event_row tenant payload db = record {
  id = db.next_id;
  tenant_id = tenant;
  payload = payload;
  published = false;
}

abbrev pub enqueue_row : ℕ → Payload → Db → Db
enqueue_row tenant payload db = record db {
  outbox = db.outbox ++ (event_row tenant payload db ∷ []);
  next_id = suc db.next_id;
}

abbrev pub enqueue : Scope → ℕ → Payload → Exec Error Catalog (Unit {0})
enqueue scope tenant payload = do
  raise_if (not (visible scope tenant)) row_security
  modify (with_db (enqueue_row tenant payload))

abbrev image_rows : ℕ → ℕ → ℕ → List String → List ProductImage
image_rows tenant product order [] = []
image_rows tenant product order (url ∷ urls) =
    record { tenant_id = tenant; product_id = product; url = url; sort_order = order }
    ∷ image_rows tenant product (suc order) urls

abbrev pub new_product : ℕ → ℕ → String → String → Option ℕ → Option String → List String → Product
new_product id tenant name currency store brand path = record {
  id = id;
  tenant_id = tenant;
  store_id = store;
  brand = brand;
  name = name;
  category_path = path;
  currency = currency;
  status = "active";
  online_published = false;
}

unfoldable pub create_product :
    Scope
    → ℕ
    → String
    → String
    → Option ℕ
    → Option String
    → List String
    → List String
    → Exec Error Catalog Product
create_product scope tenant name currency store brand path image_urls = do
  foreign ← gets (λ c. unknown_store scope store c.prices)
  raise_if foreign (not_found no_store)
  raise_if (too_long 3 currency || too_long_if 200 brand) data_error
  raise_if (not (visible scope tenant)) row_security
  id ← gets (λ c. c.next_id)
  modify (
      with_db (λ db. record db {
        products = db.products ++ (new_product id tenant name currency store brand path ∷ []);
        next_id = suc id;
      }))
  modify (λ c. record c { images = c.images ++ image_rows tenant id 0 image_urls })
  enqueue scope tenant (product_created id)
  pure (new_product id tenant name currency store brand path)

abbrev pub find_product : Scope → ℕ → Catalog → Option Product
find_product scope id c = find? (λ p. p.id == id && visible scope p.tenant_id) c.products

abbrev pub publish_row : ℕ → Bool → Product → Product
publish_row id published p = if p.id == id then record p { online_published = published } else p

-- The variants whose events are sent, as the session sees them.
abbrev pub variants_of : Scope → ℕ → Catalog → List Variant
variants_of scope id c = select (λ v. v.product_id == id && visible scope v.tenant_id) c.variants

unfoldable pub announce : Scope → ℕ → List Variant → Exec Error Catalog (Unit {0})
announce scope tenant [] = pure tt
announce scope tenant (v ∷ rest) = do
  enqueue scope tenant (variant_added v.id)
  announce scope tenant rest

unfoldable pub set_online_published : Scope → ℕ → ℕ → Bool → Exec Error Catalog Product
unfolding announce
set_online_published scope tenant id published = do
  found ← gets (find_product scope id)
  product ← or_raise found (not_found no_product)
  modify (with_db (λ db. record db { products = map (publish_row id published) db.products }))
  rows ← gets (variants_of scope id)
  announce scope tenant (if published then rows else [])
  pure (record product { online_published = published })

-- The two arguments that select rows: `if query` and `if offset` skip an empty text and 0.
abbrev pub wanted : (String → String → Bool) → Option String → Product → Bool
wanted matches none p = true
wanted matches (some query) p = str_eq query "" || matches query p.name

abbrev limited : Option ℕ → List Product → List Product
limited none rows = rows
limited (some n) rows = take n rows

unfoldable pub list_products :
    (String → String → Bool)
    → (Product → Product → Bool)
    → Scope
    → Option String
    → Option ℕ
    → ℕ
    → Catalog
    → List Product
list_products matches before scope query limit offset c = limited limit (
    drop offset (
      sort_by before
        (select (λ p. wanted matches query p && visible scope p.tenant_id) c.products)))

unfoldable pub count_products : (String → String → Bool) → Scope → Option String → Catalog → ℕ
count_products matches scope query c =
    length (select (λ p. wanted matches query p && visible scope p.tenant_id) c.products)

unfoldable pub get_product :
    (Variant → Variant → Bool)
    → Scope
    → ℕ
    → Catalog
    → Option (Product × List Variant × List ProductImage)
get_product before scope id c = elim (find_product scope id c) [
  | none ↦ none
  | some product ↦ some (
    product,
    sort_by before (variants_of scope id c),
    sort_by (λ a b. leb a.sort_order b.sort_order)
        (select (λ i. i.product_id == id && visible scope i.tenant_id) c.images),
  )
]

-- The arguments of `add_variant` that become columns.
pub record VariantSpec : Type 0 where
  pub sku : String
  pub base_price_minor : ℤ
  pub barcode : Option String
  pub name : Option String
  pub attributes : List (String × String)
  pub cost_price_minor : Option ℤ

abbrev pub new_variant : ℕ → ℕ → ℕ → VariantSpec → Variant
new_variant id tenant product spec = record {
  id = id;
  tenant_id = tenant;
  product_id = product;
  sku = spec.sku;
  barcode = spec.barcode;
  name = spec.name;
  attributes = spec.attributes;
  base_price_minor = spec.base_price_minor;
  cost_price_minor = spec.cost_price_minor;
}

abbrev pub same_barcode : Option String → Option String → Bool
same_barcode (some a) (some b) = str_eq a b
same_barcode _ _ = false

-- UNIQUE (tenant_id, sku), and (tenant_id, barcode) where there is a barcode.
abbrev pub clash : Variant → Variant → Bool
clash a b = a.tenant_id == b.tenant_id && (str_eq a.sku b.sku || same_barcode a.barcode b.barcode)

-- The texts that the columns VARCHAR(100) and VARCHAR(200) refuse.
abbrev pub overflows : Variant → Bool
overflows v = too_long 100 v.sku || (too_long_if 100 v.barcode || too_long_if 200 v.name)

-- Of the database's errors the source catches the `IntegrityError`, of the unique keys and of the
-- foreign key to the tenant; that to the product holds, since the product was just read.
abbrev pub insert_variant : Scope → Variant → Exec Error Catalog (Unit {0})
insert_variant scope v = do
  raise_if (overflows v) data_error
  raise_if (not (visible scope v.tenant_id)) row_security
  taken ← gets (λ c. find? (clash v) c.variants)
  known ← gets (λ c. refers v.tenant_id c.tenants)
  raise_if (is_some taken) (conflict duplicate_variant)
  raise_if (not known) (conflict duplicate_variant)
  modify (with_db (λ db. record db { variants = v ∷ db.variants; next_id = suc v.id }))

unfoldable pub add_variant : Scope → ℕ → ℕ → VariantSpec → Exec Error Catalog Variant
add_variant scope tenant product spec = do
  found ← gets (find_product scope product)
  raise_if (not (is_some found)) (not_found no_product)
  id ← gets (λ c. c.next_id)
  insert_variant scope (new_variant id tenant product spec)
  enqueue scope tenant (variant_added id)
  pure (new_variant id tenant product spec)

-- ORDER BY id LIMIT 1.
abbrev pub lesser_id : Variant → Option Variant → Variant
lesser_id v none = v
lesser_id v (some w) = if ltb w.id v.id then w else v

abbrev pub least_id : List Variant → Option Variant
least_id [] = none
least_id (v ∷ rows) = some (lesser_id v (least_id rows))

abbrev has_barcode : String → Variant → Bool
has_barcode barcode v = same_barcode v.barcode (some barcode)

unfoldable pub find_variant_by_barcode : Scope → String → Catalog → Option Variant
find_variant_by_barcode scope barcode c =
    least_id (select (λ v. has_barcode barcode v && visible scope v.tenant_id) c.variants)

unfoldable pub find_variant_by_sku : Scope → String → Catalog → Option Variant
find_variant_by_sku scope sku c =
    least_id (select (λ v. str_eq v.sku sku && visible scope v.tenant_id) c.variants)
