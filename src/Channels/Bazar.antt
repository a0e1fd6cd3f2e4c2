-- ===== src/Channels/Bazar.antt =====
-- mocks/mock_bazar: the store of the second channel's server, in its own shapes. The two dicts of
-- the store hold the same objects, so they are one table here, by `merchant_sku`.
pub mod Server
pub mod Reading
pub mod Client
pub mod Acknowledged
pub mod Read
use posnet_adapter.Prelude.{
  ℕ, suc, String, Bool, true, false, Option, none, some, List, [], ◌∷◌, ◌++◌, leb, select,
}
use posnet_adapter.Prelude.Int.{ℤ}
use posnet_adapter.Channels.Json.{Json}
use posnet_adapter.Channels.Rows.{at, alter}

pub record Money : Type 0 where
  pub amount_minor : ℤ
  pub currency : String

pub record BazarProduct : Type 0 where
  pub ref : String
  pub merchant_sku : String
  pub gtin : Option String
  pub title : String
  pub attrs : List (String × String)
  pub category_path : List String
  pub amount_minor : ℤ
  pub currency : String
  pub quantity : ℤ
  pub state : String

pub record SaleItem : Type 0 where
  pub merchant_sku : String
  pub units : ℤ
  pub unit_amount_minor : ℤ
  pub label : String

pub record SaleTotals : Type 0 where
  pub sub_amount_minor : ℤ
  pub grand_amount_minor : ℤ
  pub currency : String

pub record SaleBuyer : Type 0 where
  pub name : Option String

pub record Sale : Type 0 where
  pub ref : String
  pub placed_at : ℕ
  pub items : List SaleItem
  pub totals : SaleTotals
  pub buyer : SaleBuyer
  pub state : String

-- `MockBazarStore`, with the number of the references that it has made.
pub record MockBazarStore : Type 0 where
  pub products : List BazarProduct
  pub sales : List Sale
  pub states : List (String × String)
  pub made : ℕ

-- `ProductUpsert`.
pub record ProductUpsert : Type 0 where
  pub merchant_sku : String
  pub gtin : Option String
  pub title : String
  pub attrs : List (String × String)
  pub category_path : List String
  pub price : Money
  pub quantity : ℤ

-- The requests of the adapter, with their paths' parts and bodies.
pub data BazarRequest : Type 0 where
  upsert : ProductUpsert → BazarRequest
  update_quantity : String → ℤ → BazarRequest
  update_price : String → Money → BazarRequest
  get_product : String → BazarRequest
  list_sales : ℕ → BazarRequest
  set_state : String → String → BazarRequest

-- What `uuid4`, `isoformat` and pydantic's report of a refused body are.
pub record BazarLocal : Type 0 where
  pub new_ref : ℕ → String
  pub iso : ℕ → String
  pub refused : Json

abbrev pub sku_of_product : BazarProduct → String
sku_of_product p = p.merchant_sku

abbrev pub product_by_sku : String → MockBazarStore → Option BazarProduct
product_by_sku sku s = at sku_of_product sku s.products

abbrev pub updated_product : ProductUpsert → BazarProduct → BazarProduct
updated_product b p = record p {
  gtin = b.gtin;
  title = b.title;
  attrs = b.attrs;
  category_path = b.category_path;
  amount_minor = b.price.amount_minor;
  currency = b.price.currency;
  quantity = b.quantity;
}

abbrev pub new_bazar_product : String → ProductUpsert → BazarProduct
new_bazar_product ref b = record {
  ref = ref;
  merchant_sku = b.merchant_sku;
  gtin = b.gtin;
  title = b.title;
  attrs = b.attrs;
  category_path = b.category_path;
  amount_minor = b.price.amount_minor;
  currency = b.price.currency;
  quantity = b.quantity;
  state = "live";
}

abbrev pub alter_product : String → (BazarProduct → BazarProduct) → MockBazarStore → MockBazarStore
alter_product sku f s = record s { products = alter sku_of_product sku f s.products }

abbrev pub product_upserted :
    BazarLocal
    → ProductUpsert
    → Option BazarProduct
    → MockBazarStore
    → BazarProduct × MockBazarStore
product_upserted local b (some p) s =
    (updated_product b p, alter_product b.merchant_sku (updated_product b) s)
product_upserted local b none s = (
  new_bazar_product (local.new_ref s.made) b,
  record s {
    products = s.products ++ new_bazar_product (local.new_ref s.made) b ∷ [];
    made = suc s.made;
  },
)

-- `MockBazarStore.upsert_product`.
unfoldable pub upsert_product :
    BazarLocal → ProductUpsert → MockBazarStore → BazarProduct × MockBazarStore
upsert_product local b s = product_upserted local b (product_by_sku b.merchant_sku s) s

abbrev pub product_then : (BazarProduct → BazarProduct) → Option BazarProduct → Option BazarProduct
product_then f none = none
product_then f (some p) = some (f p)

abbrev pub with_quantity : ℤ → BazarProduct → BazarProduct
with_quantity quantity p = record p { quantity = quantity }

abbrev pub with_money : Money → BazarProduct → BazarProduct
with_money m p = record p { amount_minor = m.amount_minor; currency = m.currency }

-- `set_quantity` and `set_price`: on an unknown SKU nothing changes.
unfoldable pub set_quantity : String → ℤ → MockBazarStore → Option BazarProduct × MockBazarStore
set_quantity sku quantity s = (
  product_then (with_quantity quantity) (product_by_sku sku s),
  alter_product sku (with_quantity quantity) s,
)

unfoldable pub set_product_price :
    String → Money → MockBazarStore → Option BazarProduct × MockBazarStore
set_product_price sku m s =
    (product_then (with_money m) (product_by_sku sku s), alter_product sku (with_money m) s)

unfoldable pub sales_since : ℕ → MockBazarStore → List Sale
sales_since since s = select (λ x. leb since x.placed_at) s.sales

abbrev pub ref_of_sale : Sale → String
ref_of_sale x = x.ref

abbrev pub with_state : String → Sale → Sale
with_state state x = record x { state = state }

abbrev pub state_found : String → String → Option Sale → MockBazarStore → Bool × MockBazarStore
state_found ref state none s = (false, s)
state_found ref state (some _) s = (
  true,
  record s {
    sales = alter ref_of_sale ref (with_state state) s.sales;
    states = (ref, state) ∷ s.states;
  },
)

-- `MockBazarStore.set_sale_state`.
unfoldable pub set_sale_state : String → String → MockBazarStore → Bool × MockBazarStore
set_sale_state ref state s = state_found ref state (at ref_of_sale ref s.sales) s
