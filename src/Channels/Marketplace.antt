-- ===== src/Channels/Marketplace.antt =====
-- mocks/mock_marketplace: the server that the adapter of services/core/app/adapters/mock_marketplace
-- talks to: its store, its schemas and its handlers. The two dicts of the store hold the same
-- objects, so they are one table here, by `seller_sku`. What `uuid4`, `isoformat` and pydantic's
-- report of a refused body are is given by `Local`.
pub mod Server
pub mod Reading
pub mod Client
pub mod Faithful
pub mod Pushed
use posnet_adapter.Prelude.{
  ℕ, suc, ◌+◌, String, Bool, true, false, not, ◌&&◌, ◌||◌, Option, none, some, List, [], ◌∷◌, ◌++◌,
  map, leb, if◌then◌else◌, str_eq, select,
}
use posnet_adapter.Prelude.Int.{ℤ, pos, leb_ℤ}
use posnet_adapter.Channels.Json.{
  Json, null, number, text, array, object, Fields, no_field, field, to_array, Texts,
}
use posnet_adapter.Channels.Http.{Response}
use posnet_adapter.Channels.Rows.{at, alter}

pub record Listing : Type 0 where
  pub external_id : String
  pub seller_sku : String
  pub name : String
  pub barcode : Option String
  pub attributes : List (String × String)
  pub category : Option String
  pub price_minor : ℤ
  pub currency : String
  pub stock : ℤ
  pub status : String

pub record OrderLineDto : Type 0 where
  pub sku : String
  pub qty : ℤ
  pub unit_price_minor : ℤ
  pub name : String

pub record OrderDto : Type 0 where
  pub channel_order_id : String
  pub created_at : ℕ
  pub currency : String
  pub lines : List OrderLineDto
  pub subtotal_minor : ℤ
  pub grand_total_minor : ℤ
  pub customer_name : Option String
  pub status : String

-- `MockStore`, with the number of the ids that it has made.
pub record MockStore : Type 0 where
  pub listings : List Listing
  pub orders : List OrderDto
  pub acks : List (String × String)
  pub made : ℕ

-- `ListingCreate`.
pub record ListingCreate : Type 0 where
  pub seller_sku : String
  pub barcode : Option String
  pub name : String
  pub attributes : List (String × String)
  pub category : Option String
  pub price_minor : ℤ
  pub currency : String
  pub stock : ℤ

-- The requests of the adapter, with their paths' parts and bodies.
pub data Request : Type 0 where
  create_listing : ListingCreate → Request
  update_stock : String → ℤ → Request
  update_price : String → ℤ → String → Request
  get_listing : String → Request
  list_orders : ℕ → Request
  acknowledge_order : String → String → Request

pub record Local : Type 0 where
  pub external_id : ℕ → String
  pub iso : ℕ → String
  pub refused : Json

abbrev pub sku_of_listing : Listing → String
sku_of_listing l = l.seller_sku

abbrev pub listing_by_sku : String → MockStore → Option Listing
listing_by_sku sku s = at sku_of_listing sku s.listings

-- The fields that a second push of a SKU assigns.
abbrev pub refreshed : ListingCreate → Listing → Listing
refreshed b l = record l {
  barcode = b.barcode;
  name = b.name;
  attributes = b.attributes;
  category = b.category;
  price_minor = b.price_minor;
  currency = b.currency;
  stock = b.stock;
}

abbrev pub new_listing : String → ListingCreate → Listing
new_listing id b = record {
  external_id = id;
  seller_sku = b.seller_sku;
  name = b.name;
  barcode = b.barcode;
  attributes = b.attributes;
  category = b.category;
  price_minor = b.price_minor;
  currency = b.currency;
  stock = b.stock;
  status = "active";
}

abbrev pub alter_listing : String → (Listing → Listing) → MockStore → MockStore
alter_listing sku f s = record s { listings = alter sku_of_listing sku f s.listings }

abbrev pub upsert_found : Local → ListingCreate → Option Listing → MockStore → Listing × MockStore
upsert_found local b (some l) s = (refreshed b l, alter_listing b.seller_sku (refreshed b) s)
upsert_found local b none s = (
  new_listing (local.external_id s.made) b,
  record s {
    listings = s.listings ++ new_listing (local.external_id s.made) b ∷ [];
    made = suc s.made;
  },
)

-- `MockStore.upsert_listing`.
unfoldable pub upsert_listing : Local → ListingCreate → MockStore → Listing × MockStore
upsert_listing local b s = upsert_found local b (listing_by_sku b.seller_sku s) s

abbrev pub found_then : (Listing → Listing) → Option Listing → Option Listing
found_then f none = none
found_then f (some l) = some (f l)

abbrev pub with_stock : ℤ → Listing → Listing
with_stock qty l = record l { stock = qty }

abbrev pub with_price : ℤ → String → Listing → Listing
with_price price_minor currency l = record l { price_minor = price_minor; currency = currency }

-- `set_stock` and `set_price`: on an unknown SKU nothing changes.
unfoldable pub set_listing_stock : String → ℤ → MockStore → Option Listing × MockStore
set_listing_stock sku qty s =
    (found_then (with_stock qty) (listing_by_sku sku s), alter_listing sku (with_stock qty) s)

unfoldable pub set_price : String → ℤ → String → MockStore → Option Listing × MockStore
set_price sku price_minor currency s = (
  found_then (with_price price_minor currency) (listing_by_sku sku s),
  alter_listing sku (with_price price_minor currency) s,
)

unfoldable pub orders_since : ℕ → MockStore → List OrderDto
orders_since since s = select (λ o. leb since o.created_at) s.orders

abbrev pub id_of_order : OrderDto → String
id_of_order o = o.channel_order_id

abbrev pub with_status : String → OrderDto → OrderDto
with_status status o = record o { status = status }

abbrev ack_found : String → String → Option OrderDto → MockStore → Bool × MockStore
ack_found id status none s = (false, s)
ack_found id status (some _) s = (
  true,
  record s {
    orders = alter id_of_order id (with_status status) s.orders;
    acks = (id, status) ∷ s.acks;
  },
)

-- `MockStore.acknowledge`.
unfoldable pub acknowledge : String → String → MockStore → Bool × MockStore
acknowledge id status s = ack_found id status (at id_of_order id s.orders) s
