-- ===== src/Channels/Marketplace/Reading.antt =====
-- services/core/app/adapters/mock_marketplace/adapter.py: what it reads
-- in the channel's JSON: results of a push, snapshots, and orders (`_normalise_order`,
-- `normalize_webhook`).
use Prim.Native.String.{◌++◌ as str_append}
use posnet_adapter.Prelude.{String, Bool, Option, none, some, List, if◌then◌else◌, str_eq}
use posnet_adapter.Prelude.Int.{pos}
use posnet_adapter.Prelude.Exec.{Result, ok, err}
use posnet_adapter.CanonicalModel.{
  OrderStatus, pending, confirmed, fulfilled, cancelled, returned, CanonicalCustomer,
  CanonicalOrderLine, CanonicalOrder,
}
use posnet_adapter.Adapter.Errors.{permanent, Failure, other_exception}
use posnet_adapter.Sync.Dispatcher.Handlers.{ChannelListingResult}
use posnet_adapter.Sync.Reconcile.{ChannelListingSnapshot}
use posnet_adapter.Channels.Json.{
  Json, text, object, at_key, get_key, to_text, Texts, text_at, int_at, is_truthy, each, map_all,
  ◌>>=◌,
}
use posnet_adapter.Channels.Http.{plain}

-- `OrderStatus(…)`: a `ValueError` on a word that is none of its own.
abbrev pub order_status : String → Result Failure OrderStatus
order_status s =
    if str_eq s "pending"
    then ok pending
    else if str_eq s "confirmed"
    then ok confirmed
    else if str_eq s "fulfilled"
    then ok fulfilled
    else if str_eq s "cancelled"
    then ok cancelled
    else if str_eq s "returned"
    then ok returned
    else err other_exception

module _ (t : Texts) (is_currency : String → Bool) where
  -- `CurrencyCode`: pydantic raises on a text that is no code.
  abbrev pub currency_code : String → Result Failure String
  currency_code c = if is_currency c then ok c else err other_exception

  abbrev pub line_of : Json → Json → Result Failure CanonicalOrderLine
  line_of raw line = do
    sku ← text_at t "sku" line
    name ← text_at t "name" line
    qty ← int_at t "qty" line
    unit_price_minor ← int_at t "unit_price_minor" line
    c ← text_at t "currency" raw
    currency ← currency_code c
    ok (record {
      sku = sku;
      name = name;
      qty = qty;
      unit_price_minor = unit_price_minor;
      currency = currency;
    })

  -- `CanonicalCustomer(…) if raw.get("customer_name") else None`.
  abbrev customer_of : Option Json → Option CanonicalCustomer
  customer_of none = none
  customer_of (some j) =
      if is_truthy t j
      then some (record { name = to_text t j; email = none; phone = none })
      else none

  -- `raw.get("status", "pending")`, whose word is looked up as it is.
  abbrev status_in : Option Json → Result Failure OrderStatus
  status_in none = ok pending
  status_in (some (text s)) = order_status s
  status_in (some _) = err other_exception

  unfoldable pub normalise_order : Json → Result Failure CanonicalOrder
  normalise_order raw = do
    rows ← at_key "lines" raw >>= each
    lines ← map_all (line_of raw) rows
    name ← get_key "customer_name" raw
    id ← text_at t "channel_order_id" raw
    subtotal ← int_at t "subtotal_minor" raw
    grand_total ← int_at t "grand_total_minor" raw
    c ← text_at t "currency" raw
    currency ← currency_code c
    word ← get_key "status" raw
    status ← status_in word
    ok (record {
      channel_order_id = id;
      lines = lines;
      totals = record {
        subtotal_minor = subtotal;
        grand_total_minor = grand_total;
        currency = currency;
        shipping_minor = pos 0;
        tax_minor = pos 0;
      };
      status = status;
      customer = customer_of name;
      fulfillment = none;
    })

  abbrev of_value : Json → Result Failure CanonicalOrder
  of_value (object fields) = normalise_order (object fields)
  of_value _ = err (plain permanent "webhook body must be a JSON object")

  -- `normalize_webhook`, of a body that `json.loads` gave a value or an error.
  unfoldable pub normalize_webhook : Result String Json → Result Failure CanonicalOrder
  normalize_webhook (ok j) = of_value j
  normalize_webhook (err e) = err (plain permanent (str_append "webhook body is not JSON: " e))

module _ (t : Texts) where
  abbrev pub result_of : Json → Result Failure ChannelListingResult
  result_of j = do
    sku ← text_at t "seller_sku" j
    id ← text_at t "external_listing_id" j
    status ← text_at t "status" j
    ok (record { sku = sku; external_listing_id = id; status = status })

  -- The fields that a run compares; the other keys are looked up all the same.
  abbrev pub snapshot_of : Json → Result Failure ChannelListingSnapshot
  snapshot_of j = do
    _ ← text_at t "seller_sku" j
    stock ← int_at t "stock" j
    price_minor ← int_at t "price_minor" j
    currency ← text_at t "currency" j
    _ ← text_at t "external_listing_id" j
    _ ← text_at t "status" j
    ok (record { stock = stock; price_minor = price_minor; currency = currency })

abbrev pub orders_in : Json → Result Failure (List Json)
orders_in j = at_key "orders" j >>= each
