-- ===== src/Tests/Market.antt =====
-- The mock marketplace behind a network that loses requests and answers:
-- services/core/app/adapters/mock_marketplace and mocks/mock_marketplace.
use posnet_adapter.Prelude.{
  ◌≡◌, refl, true, false, none, some, List, [], ◌∷◌, inr, str_eq, if◌then◌else◌,
}
use posnet_adapter.Prelude.Int.{pos}
use posnet_adapter.Prelude.Exec.{Result, ok, err}
use posnet_adapter.CanonicalModel.{CanonicalProduct, active}
use posnet_adapter.Adapter.Errors.{other_exception}
use posnet_adapter.Sync.Dispatcher.Handlers.{ChannelListingResult}
use posnet_adapter.Sync.Reconcile.Faithful.{IsFaithful}
use posnet_adapter.Channels.Json.{null, Texts}
use posnet_adapter.Channels.Http.{
  Response, NetworkError, timeout, Client, raise_for_status, request,
}
use posnet_adapter.Channels.Http.Classes.{IsClassified, raise_for_status-IsClassified}
use posnet_adapter.Channels.Http.Served.{IsServed, is_genuine}
use posnet_adapter.Channels.Marketplace.{MockStore, Request, Local, upsert_listing}
use posnet_adapter.Channels.Marketplace.Server.{serve, is_valid_listing}
use posnet_adapter.Channels.Marketplace.Client.{adapter, push_listing, push_stock}
use posnet_adapter.Channels.Marketplace.Faithful.{listed, adapter-IsFaithful}

abbrev pub texts : Texts
texts = record {
  show_json = λ j. "";
  show_number = λ n. "";
  parse_int = λ s. none;
  truncate = λ s. none;
  is_nonzero = λ s. true;
  parse_seconds = λ s. if str_eq s "30" then some 30 else none;
}

abbrev local : Local
local = record { external_id = λ n. "MOCK-1"; iso = λ n. ""; refused = null }

-- What becomes of a request: it is answered, it is lost, its answer is lost, or a gateway refuses it.
data Fate : Type 0 where
  arrives is_lost answer_lost overloaded : Fate

abbrev World : Type 0
World = MockStore × List Fate

abbrev unavailable : Response
unavailable = record { status_code = 503; retry_after = none; text = "busy"; body = none }

abbrev by_fate :
    Fate → List Fate → Response × MockStore → MockStore → Result NetworkError Response × World
by_fate arrives fates (a, s') s = (ok a, (s', fates))
by_fate is_lost fates (a, s') s = (err (timeout "lost"), (s, fates))
by_fate answer_lost fates (a, s') s = (err (timeout "no answer"), (s', fates))
by_fate overloaded fates (a, s') s = (ok unavailable, (s, fates))

abbrev next_fate :
    List Fate → Response × MockStore → MockStore → Result NetworkError Response × World
next_fate [] answer s = by_fate arrives [] answer s
next_fate (fate ∷ fates) answer s = by_fate fate fates answer s

abbrev network : Client Request World
network r (s, fates) = next_fate fates (serve texts local r s) s

abbrev store : World → MockStore
store w = w.0

fate_answers :
    (fate : Fate) (fates : List Fate) (answer : Response × MockStore) (s : MockStore) (w' : World)
    (a : Response)
    → by_fate fate fates answer s ≡ (ok a, w')
    → is_genuine a.status_code ≡ true
    → answer ≡ (a, store w')
fate_answers arrives fates (b, s') s w' a h genuine = cc
fate_answers is_lost fates (b, s') s w' a h genuine = cc
fate_answers answer_lost fates (b, s') s w' a h genuine = cc
fate_answers overloaded fates (b, s') s w' a h genuine =
    let same : unavailable ≡ a = cc in let no : false ≡ true = rw (← same) at genuine in cc

network-IsServed : IsServed (serve texts local) network store
network-IsServed = record {
  answers = λ r w w' a h genuine. next (serve texts local r w.0) w.1 w.0 w' a h genuine;
}
  where
    next :
        (answer : Response × MockStore) (fates : List Fate) (s : MockStore) (w' : World)
        (a : Response)
        → next_fate fates answer s ≡ (ok a, w')
        → is_genuine a.status_code ≡ true
        → answer ≡ (a, store w')
    next answer [] s w' a h genuine = fate_answers arrives [] answer s w' a h genuine
    next answer (fate ∷ fates) s w' a h genuine = fate_answers fate fates answer s w' a h genuine

adapter-IsFaithful_example : IsFaithful (adapter texts network) (listed texts local network store)
adapter-IsFaithful_example = adapter-IsFaithful texts local network store network-IsServed

abbrev tea : CanonicalProduct
tea = record {
  sku = "TEA";
  barcode = none;
  name = "Tea";
  attributes = [];
  category_path = "Drinks" ∷ "Hot" ∷ [];
  price_minor = pos 250;
  currency = "AZN";
  stock_qty = pos 5;
  images = [];
  status = active;
}

abbrev empty : World
empty = (
  record { listings = []; orders = []; acks = []; made = 0 },
  arrives ∷ is_lost ∷ answer_lost ∷ [],
)

abbrev results : List ChannelListingResult
results = record { sku = "TEA"; external_listing_id = "MOCK-1"; status = "active" } ∷ []

abbrev listed_world : World
listed_world = (push_listing texts network (tea ∷ []) empty).1

tea_pushed : push_listing texts network (tea ∷ []) empty ≡ (ok results, listed_world)
unfolding push_listing request raise_for_status serve is_valid_listing upsert_listing
tea_pushed = refl

-- The next request is lost, and the channel keeps what it has.
lost_push :
    listed texts local network store "TEA" (push_stock texts network "TEA" (pos 3) listed_world).1
    ≡ some (record { stock = pos 5; price_minor = pos 250; currency = "AZN" })
unfolding push_listing push_stock request raise_for_status serve is_valid_listing upsert_listing
lost_push = refl

abbrev too_many_requests : Response
too_many_requests = record { status_code = 429; retry_after = some "30"; text = ""; body = none }

raise_for_status-IsClassified_example : IsClassified 429 (raise_for_status texts too_many_requests)
raise_for_status-IsClassified_example =
    raise_for_status-IsClassified texts too_many_requests (inr (30, refl))

-- A date in "Retry-After" makes the classification itself fail.
dated :
    raise_for_status texts
      (record too_many_requests { retry_after = some "Wed, 21 Oct 2026 07:28:00 GMT" })
    ≡ err other_exception
unfolding raise_for_status
dated = refl
