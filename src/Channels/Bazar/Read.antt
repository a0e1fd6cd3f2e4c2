-- ===== src/Channels/Bazar/Read.antt =====
-- services/core/app/adapters/mock_bazar/adapter.py: an order that the channel sends is read as it
-- was.
use posnet_adapter.Prelude.{
  String, Bool, true, Option, none, some, List, [], ◌∷◌, map, ◌≡◌, refl, if◌then◌else◌, str_eq,
  Bool-cases, inl, inr,
}
use posnet_adapter.Prelude.Int.{pos}
use posnet_adapter.Prelude.Exec.{ok}
use posnet_adapter.CanonicalModel.{
  OrderStatus, CanonicalCustomer, CanonicalOrderLine, CanonicalOrder,
}
use posnet_adapter.Channels.Json.{Json, Texts, elements, to_array, map_all}
use posnet_adapter.Channels.Marketplace.Reading.{order_status}
use posnet_adapter.Channels.Marketplace.Server.{text_or_null}
use posnet_adapter.Channels.Bazar.{SaleItem, Sale, BazarLocal}
use posnet_adapter.Channels.Bazar.Server.{item_json, sale_json}
use posnet_adapter.Channels.Bazar.Reading.{sale_line_of, buyer_of, sale_to_order, normalise_sale}

-- The canonical order that a sale stands for.
abbrev pub line_of_item : String → SaleItem → CanonicalOrderLine
line_of_item currency i = record {
  sku = i.merchant_sku;
  name = i.label;
  qty = i.units;
  unit_price_minor = i.unit_amount_minor;
  currency = currency;
}

abbrev pub customer_named : Option String → Option CanonicalCustomer
customer_named none = none
customer_named (some s) =
    if str_eq s "" then none else some (record { name = s; email = none; phone = none })

abbrev pub order_of_sale : OrderStatus → Sale → CanonicalOrder
order_of_sale status x = record {
  channel_order_id = x.ref;
  lines = map (line_of_item x.totals.currency) x.items;
  totals = record {
    subtotal_minor = x.totals.sub_amount_minor;
    grand_total_minor = x.totals.grand_amount_minor;
    currency = x.totals.currency;
    shipping_minor = pos 0;
    tax_minor = pos 0;
  };
  status = status;
  customer = customer_named x.buyer.name;
  fulfillment = none;
}

elements-to_array : (rows : List Json) → elements (to_array rows) ≡ rows
elements-to_array [] = refl
elements-to_array (j ∷ rows) = rw (elements-to_array rows) refl

module _ (t : Texts) (is_currency : String → Bool) where
  items_read :
      (c : String) (items : List SaleItem)
      → is_currency c ≡ true
      → map_all (sale_line_of t is_currency c) (map item_json items)
        ≡ ok (map (line_of_item c) items)
  items_read c [] valid = refl
  items_read c (i ∷ items) valid = rw (valid, items_read c items valid) refl

  buyer_read :
      (name : Option String)
      → buyer_of t is_currency (some (text_or_null name)) ≡ customer_named name
  buyer_read none = refl
  buyer_read (some s) = elim (Bool-cases (str_eq s "")) [
    | inl empty ↦ rw empty refl
    | inr full ↦ rw full refl
  ]

  -- The JSON of a sale, in a currency that the hub knows, is read as the order that the sale stands
  -- for, item by item, with the status that its state stands for.
  pub normalise_sale-sale_json :
      (local : BazarLocal) (x : Sale) (status : OrderStatus)
      → is_currency x.totals.currency ≡ true
      → order_status (sale_to_order x.state) ≡ ok status
      → normalise_sale t is_currency (sale_json local x) ≡ ok (order_of_sale status x)
  unfolding normalise_sale
  normalise_sale-sale_json local x status valid known =
      rw
        (
          elements-to_array (map item_json x.items),
          items_read x.totals.currency x.items valid,
          valid,
          known,
          buyer_read x.buyer.name,
        )
        refl
