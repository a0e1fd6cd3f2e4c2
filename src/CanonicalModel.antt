-- ===== src/CanonicalModel.antt =====
-- libs/canonical_model: the immutable schemas between the hub and its channels. A field that no
-- modelled code reads keeps its place in the record.
use posnet_adapter.Prelude.{String, Option, List}
use posnet_adapter.Prelude.Int.{ℤ, ◌-ℤ◌}

pub data ProductStatus : Type 0 where
  active inactive archived : ProductStatus

pub record CanonicalProduct : Type 0 where
  pub sku : String
  pub barcode : Option String
  pub name : String
  pub attributes : List (String × String)
  pub category_path : List String
  pub price_minor : ℤ
  pub currency : String
  pub stock_qty : ℤ
  pub images : List String
  pub status : ProductStatus

pub record CanonicalInventory : Type 0 where
  pub sku : String
  pub qty : ℤ
  pub reserved : ℤ

-- The property `available`.
unfoldable pub available : CanonicalInventory → ℤ
available i = i.qty -ℤ i.reserved

pub record CanonicalPrice : Type 0 where
  pub sku : String
  pub price_minor : ℤ
  pub currency : String

pub data OrderStatus : Type 0 where
  pending confirmed fulfilled cancelled returned : OrderStatus

pub record CanonicalCustomer : Type 0 where
  pub name : String
  pub email : Option String
  pub phone : Option String

pub record CanonicalOrderLine : Type 0 where
  pub sku : String
  pub name : String
  pub qty : ℤ
  pub unit_price_minor : ℤ
  pub currency : String

pub record CanonicalTotals : Type 0 where
  pub subtotal_minor : ℤ
  pub grand_total_minor : ℤ
  pub currency : String
  pub shipping_minor : ℤ
  pub tax_minor : ℤ

pub record CanonicalOrder : Type 0 where
  pub channel_order_id : String
  pub lines : List CanonicalOrderLine
  pub totals : CanonicalTotals
  pub status : OrderStatus
  pub customer : Option CanonicalCustomer
  pub fulfillment : Option String
