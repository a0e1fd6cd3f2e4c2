-- ===== src/Channels/Bazar/Server.antt =====
-- mocks/mock_bazar/models.py and app.py: the schemas' checks, the JSON of the responses, and the
-- handlers.
use posnet_adapter.Prelude.{
  ℕ, String, Bool, true, false, ◌&&◌, ◌||◌, Option, none, some, map, if◌then◌else◌, str_eq,
}
use posnet_adapter.Prelude.Int.{ℤ, pos, leb_ℤ}
use posnet_adapter.Channels.Json.{
  Json, number, text, array, object, no_field, field, to_array, Texts,
}
use posnet_adapter.Channels.Http.{Response}
use posnet_adapter.Channels.Marketplace.Server.{within, within_if, is_currency_code, text_or_null}
use posnet_adapter.Channels.Bazar.{
  Money, BazarProduct, SaleItem, SaleTotals, Sale, MockBazarStore, ProductUpsert, BazarRequest,
  upsert, update_quantity, update_price, get_product, list_sales, set_state, BazarLocal,
  product_by_sku, upsert_product, set_quantity, set_product_price, sales_since, set_sale_state,
}

unfoldable pub is_valid_money : Money → Bool
is_valid_money m = leb_ℤ (pos 0) m.amount_minor && is_currency_code m.currency

-- `ProductUpsert`, `QuantityUpdate` and `StateUpdate`.
unfoldable pub is_valid_product : ProductUpsert → Bool
unfolding is_valid_money
is_valid_product b =
    within 1 100 b.merchant_sku
    && (within_if 100 b.gtin
        && (within 1 500 b.title && (is_valid_money b.price && leb_ℤ (pos 0) b.quantity)))

unfoldable pub is_valid_quantity : ℤ → Bool
is_valid_quantity quantity = leb_ℤ (pos 0) quantity

unfoldable pub is_valid_state : String → Bool
is_valid_state s =
    (str_eq s "new" || str_eq s "accepted") || (str_eq s "shipped" || str_eq s "void")

-- `ProductRef` and `ProductView`.
abbrev pub ref_json : BazarProduct → Json
ref_json p = object (
    field "ref" (text p.ref)
      (field "merchant_sku" (text p.merchant_sku) (field "state" (text p.state) no_field)))

abbrev pub money_json : ℤ → String → Json
money_json amount_minor currency =
    object (field "amount_minor" (number amount_minor) (field "currency" (text currency) no_field))

abbrev pub view_json : BazarProduct → Json
view_json p = object (
    field "ref" (text p.ref) (
      field "merchant_sku" (text p.merchant_sku) (
        field "state" (text p.state) (
          field "quantity" (number p.quantity)
            (field "price" (money_json p.amount_minor p.currency) no_field)))))

abbrev pub item_json : SaleItem → Json
item_json i = object (
    field "merchant_sku" (text i.merchant_sku) (
      field "units" (number i.units) (
        field "unit_amount_minor" (number i.unit_amount_minor)
          (field "label" (text i.label) no_field))))

abbrev pub totals_json : SaleTotals → Json
totals_json x = object (
    field "sub_amount_minor" (number x.sub_amount_minor) (
      field "grand_amount_minor" (number x.grand_amount_minor)
        (field "currency" (text x.currency) no_field)))

abbrev pub sale_json : BazarLocal → Sale → Json
sale_json local x = object (
    field "ref" (text x.ref) (
      field "placed_at" (text (local.iso x.placed_at)) (
        field "items" (array (to_array (map item_json x.items))) (
          field "totals" (totals_json x.totals) (
            field "buyer" (object (field "name" (text_or_null x.buyer.name) no_field))
              (field "state" (text x.state) no_field))))))

module _ (t : Texts) (local : BazarLocal) where
  abbrev pub respond : ℕ → Json → Response
  respond status j = record {
    status_code = status;
    retry_after = none;
    text = t.show_json j;
    body = some j;
  }

  abbrev pub unprocessable : Response
  unprocessable = respond 422 local.refused

  abbrev pub not_found_json : String → Response
  not_found_json detail = respond 404 (object (field "detail" (text detail) no_field))

  abbrev pub of_product : Option BazarProduct × MockBazarStore → Response × MockBazarStore
  of_product (none, s) = (not_found_json "unknown merchant_sku", s)
  of_product (some p, s) = (respond 200 (ref_json p), s)

  abbrev pub of_view : Option BazarProduct → Response
  of_view none = not_found_json "unknown merchant_sku"
  of_view (some p) = respond 200 (view_json p)

  abbrev pub of_state : String → String → Bool × MockBazarStore → Response × MockBazarStore
  of_state ref state (false, s) = (not_found_json "unknown sale ref", s)
  of_state ref state (true, s) =
      (respond 200 (object (field "ref" (text ref) (field "state" (text state) no_field))), s)

  abbrev pub product_created : BazarProduct × MockBazarStore → Response × MockBazarStore
  product_created (p, s) = (respond 201 (ref_json p), s)

  -- The handlers of app.py, one for each request.
  unfoldable pub serve_bazar : BazarRequest → MockBazarStore → Response × MockBazarStore
  serve_bazar (upsert b) s =
      if is_valid_product b then product_created (upsert_product local b s) else (unprocessable, s)
  serve_bazar (update_quantity sku quantity) s =
      if is_valid_quantity quantity
      then of_product (set_quantity sku quantity s)
      else (unprocessable, s)
  serve_bazar (update_price sku m) s =
      if is_valid_money m then of_product (set_product_price sku m s) else (unprocessable, s)
  serve_bazar (get_product sku) s = (of_view (product_by_sku sku s), s)
  serve_bazar (list_sales since) s = (
    respond 200 (
        object (
          field "sales" (array (to_array (map (sale_json local) (sales_since since s)))) no_field)),
    s,
  )
  serve_bazar (set_state ref state) s =
      if is_valid_state state
      then of_state ref state (set_sale_state ref state s)
      else (unprocessable, s)
