-- ===== src/Channels/Bazar/Reading.antt =====
-- services/core/app/adapters/mock_bazar/adapter.py: the vocabularies, and what the adapter reads in
-- the channel's JSON: results of a push, snapshots, and orders (`_normalise_sale`,
-- `normalize_webhook`).
use Prim.Native.String.{◌++◌ as str_append}
use posnet_adapter.Prelude.{String, Bool, Option, none, some, List, if◌then◌else◌, str_eq}
use posnet_adapter.Prelude.Int.{pos}
use posnet_adapter.Prelude.Exec.{Result, ok, err}
use posnet_adapter.CanonicalModel.{CanonicalCustomer, CanonicalOrderLine, CanonicalOrder}
use posnet_adapter.Adapter.Errors.{permanent, Failure}
use posnet_adapter.Sync.Dispatcher.Handlers.{ChannelListingResult}
use posnet_adapter.Sync.Reconcile.{ChannelListingSnapshot}
use posnet_adapter.Channels.Json.{
  Json, object, no_field, at_key, get_key, to_text, Texts, text_at, int_at, is_truthy, each,
  map_all, ◌>>=◌,
}
use posnet_adapter.Channels.Http.{plain}
use posnet_adapter.Channels.Marketplace.Reading.{order_status, currency_code}

-- `_STATE_TO_STATUS.get(state, "pending")`.
abbrev pub status_of_state : String → String
status_of_state s =
    if str_eq s "live"
    then "active"
    else if str_eq s "hold"
    then "pending"
    else if str_eq s "denied"
    then "rejected"
    else "pending"

-- `_SALE_TO_ORDER.get(state, "pending")`.
unfoldable pub sale_to_order : String → String
sale_to_order s =
    if str_eq s "new"
    then "pending"
    else if str_eq s "accepted"
    then "confirmed"
    else if str_eq s "shipped"
    then "fulfilled"
    else if str_eq s "void"
    then "cancelled"
    else "pending"

-- `_ACK_TO_SALE.get(status, "new")`.
unfoldable pub ack_to_sale : String → String
ack_to_sale s =
    if str_eq s "pending"
    then "new"
    else if str_eq s "confirmed"
    then "accepted"
    else if str_eq s "fulfilled"
    then "shipped"
    else if str_eq s "cancelled"
    then "void"
    else "new"

module _ (t : Texts) where
  abbrev pub bazar_result_of : Json → Result Failure ChannelListingResult
  bazar_result_of j = do
    sku ← text_at t "merchant_sku" j
    id ← text_at t "ref" j
    state ← text_at t "state" j
    ok (record { sku = sku; external_listing_id = id; status = status_of_state state })

  -- The fields that a run compares; the other keys are looked up all the same.
  abbrev pub bazar_snapshot_of : Json → Result Failure ChannelListingSnapshot
  bazar_snapshot_of j = do
    _ ← text_at t "merchant_sku" j
    stock ← int_at t "quantity" j
    price ← at_key "price" j
    price_minor ← int_at t "amount_minor" price
    currency ← text_at t "currency" price
    _ ← text_at t "ref" j
    _ ← text_at t "state" j
    ok (record { stock = stock; price_minor = price_minor; currency = currency })

  module _ (is_currency : String → Bool) where
    abbrev pub sale_line_of : String → Json → Result Failure CanonicalOrderLine
    sale_line_of c item = do
      sku ← text_at t "merchant_sku" item
      name ← text_at t "label" item
      qty ← int_at t "units" item
      unit_price_minor ← int_at t "unit_amount_minor" item
      currency ← currency_code t is_currency c
      ok (record {
        sku = sku;
        name = name;
        qty = qty;
        unit_price_minor = unit_price_minor;
        currency = currency;
      })

    -- `raw.get("buyer") or {}`.
    abbrev pub or_empty : Option Json → Json
    or_empty none = object no_field
    or_empty (some j) = if is_truthy t j then j else object no_field

    abbrev pub buyer_of : Option Json → Option CanonicalCustomer
    buyer_of none = none
    buyer_of (some j) =
        if is_truthy t j
        then some (record { name = to_text t j; email = none; phone = none })
        else none

    abbrev pub sale_state_of : Option Json → String
    sale_state_of none = "new"
    sale_state_of (some j) = to_text t j

    unfoldable pub normalise_sale : Json → Result Failure CanonicalOrder
    unfolding sale_to_order
    normalise_sale raw = do
      totals ← at_key "totals" raw
      c ← text_at t "currency" totals
      rows ← at_key "items" raw >>= each
      lines ← map_all (sale_line_of c) rows
      buyer ← get_key "buyer" raw
      name ← get_key "name" (or_empty buyer)
      id ← text_at t "ref" raw
      subtotal ← int_at t "sub_amount_minor" totals
      grand_total ← int_at t "grand_amount_minor" totals
      currency ← currency_code t is_currency c
      word ← get_key "state" raw
      status ← order_status (sale_to_order (sale_state_of word))
      ok (record {
        channel_order_id = id;
        lines = lines;
        totals = record {
          subtotal_minor = subtotal;
          grand_total_minor = grand_total;
          currency = currency;
          shipping_minor = pos 0;
          tax_minor = pos 0;
        };
        status = status;
        customer = buyer_of name;
        fulfillment = none;
      })

    abbrev of_sale_value : Json → Result Failure CanonicalOrder
    of_sale_value (object fields) = normalise_sale (object fields)
    of_sale_value _ = err (plain permanent "webhook body must be a JSON object")

    -- `normalize_webhook`, of a body that `json.loads` gave a value or an error.
    unfoldable pub normalize_sale_webhook : Result String Json → Result Failure CanonicalOrder
    normalize_sale_webhook (ok j) = of_sale_value j
    normalize_sale_webhook (err e) =
        err (plain permanent (str_append "webhook body is not JSON: " e))

abbrev pub sales_in : Json → Result Failure (List Json)
sales_in j = at_key "sales" j >>= each
