-- ===== src/Channels/Bazar/Client.antt =====
-- services/core/app/adapters/mock_bazar/adapter.py, over a client of the server.
use posnet_adapter.Prelude.{ℕ, String, Bool, Option, none, some, List, [], ◌∷◌, if◌then◌else◌, ◌==◌}
use posnet_adapter.Prelude.Int.{ℤ}
use posnet_adapter.Prelude.Exec.{Exec, pure, lift, ◌>>=◌, ◌>>◌}
use posnet_adapter.CanonicalModel.{CanonicalProduct, CanonicalPrice, CanonicalOrder}
use posnet_adapter.Adapter.Errors.{Failure}
use posnet_adapter.Sync.Dispatcher.Handlers.{ChannelListingResult}
use posnet_adapter.Sync.Reconcile.{ChannelListingSnapshot, ChannelAdapter}
use posnet_adapter.Channels.Json.{Texts, or_error, map_all}
use posnet_adapter.Channels.Http.{Response, Client, send_request, raise_for_status, request}
use posnet_adapter.Channels.Bazar.Reading.{
  ack_to_sale, bazar_result_of, bazar_snapshot_of, sales_in, normalise_sale,
}
use posnet_adapter.Channels.Bazar.{
  ProductUpsert, BazarRequest, upsert, update_quantity, update_price, get_product, list_sales,
  set_state,
}

abbrev pub product_payload : CanonicalProduct → ProductUpsert
product_payload p = record {
  merchant_sku = p.sku;
  gtin = p.barcode;
  title = p.name;
  attrs = p.attributes;
  category_path = p.category_path;
  price = record { amount_minor = p.price_minor; currency = p.currency };
  quantity = p.stock_qty;
}

module _ {W : Type 0} (t : Texts) (client : Client BazarRequest W) where
  unfoldable pub push_products : List CanonicalProduct → Exec Failure W (List ChannelListingResult)
  push_products [] = pure []
  push_products (p ∷ products) = do
    data_ ← request client t (upsert (product_payload p))
    result ← lift (bazar_result_of t data_)
    rest ← push_products products
    pure (result ∷ rest)

  unfoldable pub push_quantity : String → ℤ → Exec Failure W (Unit {0})
  push_quantity sku qty = request client t (update_quantity sku qty) >> pure tt

  unfoldable pub push_money : String → CanonicalPrice → Exec Failure W (Unit {0})
  push_money sku price =
      request client t
        (update_price sku (record { amount_minor = price.price_minor; currency = price.currency }))
      >> pure tt

  abbrev pub read_product : Response → Exec Failure W (Option ChannelListingSnapshot)
  read_product a = do
    lift (raise_for_status t a)
    data_ ← lift (or_error a.body)
    s ← lift (bazar_snapshot_of t data_)
    pure (some s)

  unfoldable pub fetch_product : String → Exec Failure W (Option ChannelListingSnapshot)
  fetch_product sku = do
    a ← send_request client (get_product sku)
    if a.status_code == 404 then pure none else read_product a

  unfoldable pub pull_sales : (String → Bool) → ℕ → Exec Failure W (List CanonicalOrder)
  unfolding normalise_sale
  pull_sales is_currency since = do
    data_ ← request client t (list_sales since)
    raw ← lift (sales_in data_)
    lift (map_all (normalise_sale t is_currency) raw)

  unfoldable pub acknowledge_sale : String → String → Exec Failure W (Unit {0})
  unfolding ack_to_sale
  acknowledge_sale id status = request client t (set_state id (ack_to_sale status)) >> pure tt

  abbrev pub bazar_adapter : ChannelAdapter W
  bazar_adapter = record {
    fetch_listing = fetch_product;
    push_stock = push_quantity;
    push_price = push_money;
  }
