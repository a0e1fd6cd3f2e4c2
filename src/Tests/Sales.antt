-- ===== src/Tests/Sales.antt =====
-- A sale of the mock Bazar that is acknowledged, and read: services/core/app/adapters/mock_bazar
-- and mocks/mock_bazar.
use posnet_adapter.Prelude.{String, ◌≡◌, refl, true, some, [], ◌∷◌, str_eq, Bool}
use posnet_adapter.Prelude.Int.{pos}
use posnet_adapter.Prelude.Exec.{ok}
use posnet_adapter.CanonicalModel.{confirmed}
use posnet_adapter.Channels.Json.{null}
use posnet_adapter.Channels.Http.{Client, request, raise_for_status}
use posnet_adapter.Channels.Http.Served.{IsServed}
use posnet_adapter.Channels.Rows.{at}
use posnet_adapter.Channels.Marketplace.Server.{is_valid_ack}
use posnet_adapter.Channels.Marketplace.Reading.{order_status}
use posnet_adapter.Channels.Bazar.{
  Sale, MockBazarStore, BazarRequest, BazarLocal, ref_of_sale, set_sale_state,
}
use posnet_adapter.Channels.Bazar.Server.{serve_bazar, sale_json, is_valid_state}
use posnet_adapter.Channels.Bazar.Reading.{sale_to_order, normalise_sale}
use posnet_adapter.Channels.Bazar.Client.{acknowledge_sale}
use posnet_adapter.Channels.Bazar.Acknowledged.{acknowledge_sale-reads_back}
use posnet_adapter.Channels.Bazar.Read.{order_of_sale, normalise_sale-sale_json}
use posnet_adapter.Tests.Market.{texts}

abbrev local : BazarLocal
local = record { new_ref = λ n. "BZR-1"; iso = λ n. ""; refused = null }

abbrev client : Client BazarRequest MockBazarStore
client r s = let (a, s') = serve_bazar texts local r s in (ok a, s')

abbrev store : MockBazarStore → MockBazarStore
store s = s

client-IsServed : IsServed (serve_bazar texts local) client store
client-IsServed = record { answers = λ r w w' a h genuine. cc }

abbrev sale : Sale
sale = record {
  ref = "BZR-SALE-1";
  placed_at = 0;
  items =
      record { merchant_sku = "TEA"; units = pos 2; unit_amount_minor = pos 250; label = "Tea" }
      ∷ [];
  totals = record { sub_amount_minor = pos 500; grand_amount_minor = pos 500; currency = "AZN" };
  buyer = record { name = some "Leyla" };
  state = "accepted";
}

abbrev shop_store : MockBazarStore
shop_store = record { products = []; sales = sale ∷ []; states = []; made = 0 }

abbrev acknowledged : MockBazarStore
acknowledged = (acknowledge_sale texts client "BZR-SALE-1" "cancelled" shop_store).1

sale_acknowledged :
    acknowledge_sale texts client "BZR-SALE-1" "cancelled" shop_store ≡ (ok tt, acknowledged)
unfolding acknowledge_sale request raise_for_status serve_bazar is_valid_state set_sale_state
sale_acknowledged = refl

cancelled_known : is_valid_ack "cancelled" ≡ true
unfolding is_valid_ack
cancelled_known = refl

acknowledge_sale-reads_back_example :
    (x : Sale) × (at ref_of_sale "BZR-SALE-1" acknowledged.sales ≡ some x)
    × (sale_to_order x.state ≡ "cancelled")
acknowledge_sale-reads_back_example =
    acknowledge_sale-reads_back texts local client store client-IsServed "BZR-SALE-1" "cancelled"
      shop_store acknowledged tt cancelled_known sale_acknowledged

abbrev is_manat : String → Bool
is_manat c = str_eq c "AZN"

accepted_reads : order_status (sale_to_order "accepted") ≡ ok confirmed
unfolding sale_to_order
accepted_reads = refl

normalise_sale-sale_json_example :
    normalise_sale texts is_manat (sale_json local sale) ≡ ok (order_of_sale confirmed sale)
normalise_sale-sale_json_example =
    normalise_sale-sale_json texts is_manat local sale confirmed refl accepted_reads
