-- ===== src/Channels/Marketplace/Client.antt =====
-- services/core/app/adapters/mock_marketplace/adapter.py, over a client `client` of the server.
use Prim.Native.String.{◌++◌ as str_append}
use posnet_adapter.Prelude.{
  ℕ, String, Bool, Option, none, some, List, [], ◌∷◌, if◌then◌else◌, str_eq, ◌==◌,
}
use posnet_adapter.Prelude.Int.{ℤ}
use posnet_adapter.Prelude.Exec.{Exec, pure, lift, ◌>>=◌, ◌>>◌}
use posnet_adapter.CanonicalModel.{CanonicalProduct, CanonicalPrice, CanonicalOrder}
use posnet_adapter.Adapter.Errors.{Failure}
use posnet_adapter.Sync.Dispatcher.Handlers.{ChannelListingResult}
use posnet_adapter.Sync.Reconcile.{ChannelListingSnapshot, ChannelAdapter}
use posnet_adapter.Channels.Json.{Texts, or_error, map_all}
use posnet_adapter.Channels.Http.{Response, Client, send_request, raise_for_status, request}
use posnet_adapter.Channels.Marketplace.Reading.{result_of, snapshot_of, orders_in, normalise_order}
use posnet_adapter.Channels.Marketplace.{
  ListingCreate, Request, create_listing, update_stock, update_price, get_listing, list_orders,
  acknowledge_order,
}

-- `"/".join(path)`.
abbrev pub join_slash : List String → String
join_slash [] = ""
join_slash (x ∷ []) = x
join_slash (x ∷ y ∷ path) = str_append (str_append x "/") (join_slash (y ∷ path))

abbrev pub or_none : String → Option String
or_none s = if str_eq s "" then none else some s

abbrev pub listing_payload : CanonicalProduct → ListingCreate
listing_payload p = record {
  seller_sku = p.sku;
  barcode = p.barcode;
  name = p.name;
  attributes = p.attributes;
  category = or_none (join_slash p.category_path);
  price_minor = p.price_minor;
  currency = p.currency;
  stock = p.stock_qty;
}

module _ {W : Type 0} (t : Texts) (client : Client Request W) where
  unfoldable pub push_listing : List CanonicalProduct → Exec Failure W (List ChannelListingResult)
  push_listing [] = pure []
  push_listing (p ∷ products) = do
    data_ ← request client t (create_listing (listing_payload p))
    result ← lift (result_of t data_)
    rest ← push_listing products
    pure (result ∷ rest)

  unfoldable pub push_stock : String → ℤ → Exec Failure W (Unit {0})
  push_stock sku qty = do _ ← request client t (update_stock sku qty); pure tt

  unfoldable pub push_price : String → CanonicalPrice → Exec Failure W (Unit {0})
  push_price sku price = do
    _ ← request client t (update_price sku price.price_minor price.currency)
    pure tt

  abbrev pub read_listing : Response → Exec Failure W (Option ChannelListingSnapshot)
  read_listing a = do
    lift (raise_for_status t a)
    data_ ← lift (or_error a.body)
    s ← lift (snapshot_of t data_)
    pure (some s)

  unfoldable pub fetch_listing : String → Exec Failure W (Option ChannelListingSnapshot)
  fetch_listing sku = do
    a ← send_request client (get_listing sku)
    if a.status_code == 404 then pure none else read_listing a

  unfoldable pub pull_orders : (String → Bool) → ℕ → Exec Failure W (List CanonicalOrder)
  unfolding normalise_order
  pull_orders is_currency since = do
    data_ ← request client t (list_orders since)
    raw ← lift (orders_in data_)
    lift (map_all (normalise_order t is_currency) raw)

  unfoldable pub acknowledge_order_ : String → String → Exec Failure W (Unit {0})
  acknowledge_order_ id status = do _ ← request client t (acknowledge_order id status); pure tt

  abbrev pub adapter : ChannelAdapter W
  adapter = record {
    fetch_listing = fetch_listing;
    push_stock = push_stock;
    push_price = push_price;
  }
