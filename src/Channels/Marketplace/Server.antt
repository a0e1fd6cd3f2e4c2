-- ===== src/Channels/Marketplace/Server.antt =====
-- mocks/mock_marketplace/models.py and app.py: the schemas' checks, the JSON of the responses, and
-- the handlers.
use Prim.Native.String.{count}
use posnet_adapter.Prelude.{
  ℕ, String, Bool, true, false, ◌&&◌, ◌||◌, Option, none, some, map, leb, if◌then◌else◌, str_eq,
  ◌==◌,
}
use posnet_adapter.Prelude.Int.{ℤ, pos, leb_ℤ}
use posnet_adapter.Channels.Json.{
  Json, null, number, text, array, object, no_field, field, to_array, Texts,
}
use posnet_adapter.Channels.Http.{Response}
use posnet_adapter.Channels.Marketplace.{
  Listing, OrderLineDto, OrderDto, MockStore, ListingCreate, Request, create_listing, update_stock,
  update_price, get_listing, list_orders, acknowledge_order, Local, listing_by_sku, upsert_listing,
  set_listing_stock, set_price, orders_since, acknowledge,
}

abbrev pub within : ℕ → ℕ → String → Bool
within low high s = leb low (count s) && leb (count s) high

abbrev pub within_if : ℕ → Option String → Bool
within_if high none = true
within_if high (some s) = within 0 high s

abbrev pub is_currency_code : String → Bool
is_currency_code s = count s == 3

-- `ListingCreate`, `StockUpdate`, `PriceUpdate` and `AcknowledgeRequest`.
unfoldable pub is_valid_listing : ListingCreate → Bool
is_valid_listing b =
    within 1 100 b.seller_sku
    && (within_if 100 b.barcode
        && (within 1 500 b.name
            && (within_if 500 b.category
                && (leb_ℤ (pos 0) b.price_minor
                    && (is_currency_code b.currency && leb_ℤ (pos 0) b.stock)))))

unfoldable pub is_valid_stock : ℤ → Bool
is_valid_stock qty = leb_ℤ (pos 0) qty

unfoldable pub is_valid_price : ℤ → String → Bool
is_valid_price price_minor currency = leb_ℤ (pos 0) price_minor && is_currency_code currency

unfoldable pub is_valid_ack : String → Bool
is_valid_ack s =
    (str_eq s "pending" || str_eq s "confirmed") || (str_eq s "fulfilled" || str_eq s "cancelled")

abbrev pub text_or_null : Option String → Json
text_or_null none = null
text_or_null (some s) = text s

-- `ListingResponse` and `ListingDetailResponse`.
abbrev pub listing_json : Listing → Json
listing_json l = object (
    field "external_listing_id" (text l.external_id)
      (field "seller_sku" (text l.seller_sku) (field "status" (text l.status) no_field)))

abbrev pub detail_json : Listing → Json
detail_json l = object (
    field "external_listing_id" (text l.external_id) (
      field "seller_sku" (text l.seller_sku) (
        field "status" (text l.status) (
          field "stock" (number l.stock) (
            field "price_minor" (number l.price_minor)
              (field "currency" (text l.currency) no_field))))))

abbrev pub line_json : OrderLineDto → Json
line_json l = object (
    field "sku" (text l.sku) (
      field "qty" (number l.qty) (
        field "unit_price_minor" (number l.unit_price_minor)
          (field "name" (text l.name) no_field))))

abbrev pub order_json : Local → OrderDto → Json
order_json local o = object (
    field "channel_order_id" (text o.channel_order_id) (
      field "created_at" (text (local.iso o.created_at)) (
        field "currency" (text o.currency) (
          field "lines" (array (to_array (map line_json o.lines))) (
            field "subtotal_minor" (number o.subtotal_minor) (
              field "grand_total_minor" (number o.grand_total_minor) (
                field "customer_name" (text_or_null o.customer_name)
                  (field "status" (text o.status) no_field))))))))

module _ (t : Texts) (local : Local) where
  abbrev pub respond : ℕ → Json → Response
  respond status j = record {
    status_code = status;
    retry_after = none;
    text = t.show_json j;
    body = some j;
  }

  abbrev pub unprocessable : Response
  unprocessable = respond 422 local.refused

  abbrev pub not_found_json : String → Response
  not_found_json detail = respond 404 (object (field "detail" (text detail) no_field))

  abbrev pub of_listing : Option Listing × MockStore → Response × MockStore
  of_listing (none, s) = (not_found_json "unknown seller_sku", s)
  of_listing (some l, s) = (respond 200 (listing_json l), s)

  abbrev pub of_detail : Option Listing → Response
  of_detail none = not_found_json "unknown seller_sku"
  of_detail (some l) = respond 200 (detail_json l)

  abbrev pub of_ack : String → String → Bool × MockStore → Response × MockStore
  of_ack id status (false, s) = (not_found_json "unknown channel_order_id", s)
  of_ack id status (true, s) = (
    respond 200
        (object (field "channel_order_id" (text id) (field "status" (text status) no_field))),
    s,
  )

  abbrev pub listing_created : Listing × MockStore → Response × MockStore
  listing_created (l, s) = (respond 201 (listing_json l), s)

  -- The handlers of app.py, one for each request.
  unfoldable pub serve : Request → MockStore → Response × MockStore
  serve (create_listing b) s =
      if is_valid_listing b then listing_created (upsert_listing local b s) else (unprocessable, s)
  serve (update_stock sku qty) s =
      if is_valid_stock qty then of_listing (set_listing_stock sku qty s) else (unprocessable, s)
  serve (update_price sku price_minor currency) s =
      if is_valid_price price_minor currency
      then of_listing (set_price sku price_minor currency s)
      else (unprocessable, s)
  serve (get_listing sku) s = (of_detail (listing_by_sku sku s), s)
  serve (list_orders since) s = (
    respond 200 (
        object (
          field "orders" (array (to_array (map (order_json local) (orders_since since s))))
            no_field)),
    s,
  )
  serve (acknowledge_order id status) s =
      if is_valid_ack status then of_ack id status (acknowledge id status s) else (unprocessable, s)
