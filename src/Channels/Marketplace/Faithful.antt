-- ===== src/Channels/Marketplace/Faithful.antt =====
-- The adapter of services/core/app/adapters/mock_marketplace against the server of
-- mocks/mock_marketplace: a channel that keeps what is pushed to it.
use posnet_adapter.Prelude.{
  String, Bool, true, false, Option, none, some, ◌≡◌, refl, sym, ◌∙◌, ap, leb, ◌==◌, inl, inr,
  Bool-cases, Option-cases, if◌then◌else◌,
}
use posnet_adapter.Prelude.Int.{ℤ}
use posnet_adapter.Prelude.Exec.{Result, ok, err, pure, Result-cases}
use posnet_adapter.CanonicalModel.{CanonicalPrice}
use posnet_adapter.Adapter.Errors.{Failure}
use posnet_adapter.Sync.Reconcile.{ChannelListingSnapshot}
use posnet_adapter.Sync.Reconcile.Faithful.{IsFaithful}
use posnet_adapter.Channels.Json.{Texts}
use posnet_adapter.Channels.Http.{Response, Client, send_request, raise_for_status}
use posnet_adapter.Channels.Http.Classes.{send_met, raise_for_status_fine}
use posnet_adapter.Channels.Http.Served.{is_genuine, IsServed, below_400, carried_out}
use posnet_adapter.Channels.Rows.{at-alter_self}
use posnet_adapter.Channels.Marketplace.{
  Listing, MockStore, Request, update_stock, update_price, get_listing, Local, sku_of_listing,
  listing_by_sku, set_listing_stock, set_price, with_stock, with_price, alter_listing, found_then,
}
use posnet_adapter.Channels.Marketplace.Server.{
  serve, of_detail, of_listing, unprocessable, not_found_json, respond, listing_json,
  is_valid_stock, is_valid_price,
}
use posnet_adapter.Channels.Marketplace.Client.{
  adapter, fetch_listing, push_stock, push_price, read_listing,
}

abbrev pub snapshot_shown : Option Listing → Option ChannelListingSnapshot
snapshot_shown none = none
snapshot_shown (some l) =
    some (record { stock = l.stock; price_minor = l.price_minor; currency = l.currency })

abbrev changed_snapshot :
    (ChannelListingSnapshot → ChannelListingSnapshot)
    → Option ChannelListingSnapshot
    → Option ChannelListingSnapshot
changed_snapshot f none = none
changed_snapshot f (some x) = some (f x)

module _ {W : Type 0} (t : Texts) (local : Local) (client : Client Request W)
    (store_of : W → MockStore) where
  -- What the channel lists under a SKU.
  abbrev pub listed : String → W → Option ChannelListingSnapshot
  listed sku w = snapshot_shown (listing_by_sku sku (store_of w))

  -- How a fetch ends, given the server's answer to it.
  read_detail :
      (o : Option Listing) (a : Response) (v w' : W) (r : Option ChannelListingSnapshot)
      → of_detail t local o ≡ a
      → (if a.status_code == 404 then pure none else read_listing t client a) v ≡ (ok r, w')
      → (snapshot_shown o ≡ r) × (v ≡ w')
  unfolding raise_for_status
  read_detail none a v w' r e h =
      let k : ◌≡◌ {A = Result Failure (Option ChannelListingSnapshot) × W} (ok none, v) (ok r, w') =
        rw (← e) at h in
      (cc, cc)
  read_detail (some l) a v w' r e h =
      let k : ◌≡◌ {A = Result Failure (Option ChannelListingSnapshot) × W}
          (ok (snapshot_shown (some l)), v) (ok r, w') =
        rw (← e) at h in
      (cc, cc)

  genuine_of :
      (a : Response) (v w' : W) (r : Option ChannelListingSnapshot)
      → (if a.status_code == 404 then pure none else read_listing t client a) v ≡ (ok r, w')
      → is_genuine a.status_code ≡ true
  genuine_of a v w' r h = elim (Bool-cases (a.status_code == 404)) [
    | inl missing ↦ rw missing refl
    | inr other ↦ elim (Result-cases (raise_for_status t a)) [
      | inl (u, fine) ↦ below_400 a.status_code (raise_for_status_fine t a u fine)
      | inr (e, bad) ↦
          let k : ◌≡◌ {A = Result Failure (Option ChannelListingSnapshot) × W} (err e, v)
              (ok r, w') =
            rw (other, bad) at h in
          cc
    ]
  ]

  module _ (served : IsServed (serve t local) client store_of) where
    fetch_reads :
        (sku : String) (w w' : W) (o : Option ChannelListingSnapshot)
        → fetch_listing t client sku w ≡ (ok o, w')
        → (listed sku w ≡ o) × (listed sku w' ≡ o)
    unfolding fetch_listing serve
    fetch_reads sku w w' o h = elim (Result-cases (send_request client (get_listing sku) w).0) [
      | inl (a, fine) ↦
          let v = (send_request client (get_listing sku) w).1 in
          let rest : (if a.status_code == 404 then pure none else read_listing t client a) v
              ≡ (ok o, w') =
            rw fine at h in
          let came = send_met client t (get_listing sku) w v a cc in
          let e = served.answers (get_listing sku) w v a came (genuine_of a v w' o rest) in
          let shown : of_detail t local (listing_by_sku sku (store_of w)) ≡ a = cc in
          let (seen, same) = read_detail (listing_by_sku sku (store_of w)) a v w' o shown rest in
          let unread : store_of w ≡ store_of v = cc in
          let stays : store_of w' ≡ store_of w = sym (ap store_of same) ∙ sym unread in
          (seen, rw stays seen)
      | inr (e, bad) ↦
          let k : ◌≡◌ {A = Result Failure (Option ChannelListingSnapshot) × W}
              (err e, (send_request client (get_listing sku) w).1) (ok o, w') =
            rw bad at h in
          cc
    ]

    -- An assignment to the listing of a SKU, by a handler that checks its body and finds the SKU.
    assigned :
        (sku : String) (f : Listing → Listing) (valid : Bool) (s s' : MockStore) (a : Response)
        → ((l : Listing) → sku_of_listing (f l) ≡ sku_of_listing l)
        → (if valid
            then of_listing t local (found_then f (listing_by_sku sku s), alter_listing sku f s)
            else (unprocessable t local, s))
          ≡ (a, s')
        → leb 400 a.status_code ≡ false
        → listing_by_sku sku s' ≡ found_then f (listing_by_sku sku s)
    assigned sku f false s s' a keeps h low =
        let bad : leb 400 422 ≡ false = rw (← ap (λ x. x.0) h) at low in cc
    assigned sku f true s s' a keeps h low = elim (Option-cases (listing_by_sku sku s)) [
      | inl missing ↦
          let k : (not_found_json t local "unknown seller_sku", alter_listing sku f s) ≡ (a, s') =
            rw missing at h in
          let bad : leb 400 404 ≡ false = rw (← ap (λ x. x.0) k) at low in cc
      | inr (l, there) ↦
          let k : (respond t local 200 (listing_json (f l)), alter_listing sku f s) ≡ (a, s') =
            rw there at h in
          let self = at-alter_self sku_of_listing f keeps sku s.listings in
          rw (← ap (λ x. x.1) k, self, there) refl
    ]

    stock_lands :
        (sku : String) (q : ℤ) (w w' : W) (u : Unit {0}) (x : ChannelListingSnapshot)
        → push_stock t client sku q w ≡ (ok u, w')
        → listed sku w ≡ some x
        → listed sku w' ≡ some (record x { stock = q })
    unfolding push_stock serve set_listing_stock
    stock_lands sku q w w' u x h there =
        let (a, e, low) =
          carried_out (serve t local) client store_of t served (update_stock sku q) w w' u h in
        let now =
          assigned sku (with_stock q) (is_valid_stock q) (store_of w) (store_of w') a (λ l. refl) e
            low in
        rw now (moved (listing_by_sku sku (store_of w)) there)
      where
        moved :
            (o : Option Listing)
            → snapshot_shown o ≡ some x
            → snapshot_shown (found_then (with_stock q) o) ≡ some (record x { stock = q })
        moved none k = cc
        moved (some l) k = ap (changed_snapshot (λ y. record y { stock = q })) k

    price_lands :
        (sku : String) (c : CanonicalPrice) (w w' : W) (u : Unit {0}) (x : ChannelListingSnapshot)
        → push_price t client sku c w ≡ (ok u, w')
        → listed sku w ≡ some x
        → listed sku w' ≡ some (record x { price_minor = c.price_minor; currency = c.currency })
    unfolding push_price serve set_price
    price_lands sku c w w' u x h there =
        let (a, e, low) =
          carried_out (serve t local) client store_of t served
            (update_price sku c.price_minor c.currency) w w' u h in
        let now =
          assigned sku (with_price c.price_minor c.currency)
            (is_valid_price c.price_minor c.currency) (store_of w) (store_of w') a (λ l. refl) e
            low in
        rw now (moved (listing_by_sku sku (store_of w)) there)
      where
        moved :
            (o : Option Listing)
            → snapshot_shown o ≡ some x
            → snapshot_shown (found_then (with_price c.price_minor c.currency) o)
              ≡ some (record x { price_minor = c.price_minor; currency = c.currency })
        moved none k = cc
        moved (some l) k =
            ap
              (changed_snapshot
                (λ y. record y { price_minor = c.price_minor; currency = c.currency }))
              k

    -- The adapter over its server is a channel that keeps what is pushed to it: a fetch that
    -- returns has read the listing, and a push that returns has put its figure there and left the
    -- others, whatever else becomes of the calls.
    pub adapter-IsFaithful : IsFaithful (adapter t client) listed
    adapter-IsFaithful = record {
      fetch_reads = fetch_reads;
      stock_lands = stock_lands;
      price_lands = price_lands;
    }
