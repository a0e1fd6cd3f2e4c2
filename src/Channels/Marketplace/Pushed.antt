-- ===== src/Channels/Marketplace/Pushed.antt =====
-- services/core/app/adapters/mock_marketplace/adapter.py: a product that is pushed is listed.
use posnet_adapter.Prelude.{
  false, some, ◌≡◌, refl, ap, leb, inl, inr, Bool-cases, Option-cases, List, [], ◌∷◌, ◌++◌, suc,
}
use posnet_adapter.Prelude.Exec.{Result, ok, err, Result-cases}
use posnet_adapter.CanonicalModel.{CanonicalProduct}
use posnet_adapter.Adapter.Errors.{Failure}
use posnet_adapter.Sync.Reconcile.Faithful.{Agrees}
use posnet_adapter.Channels.Json.{Json, Texts}
use posnet_adapter.Channels.Http.{Response, Client, request}
use posnet_adapter.Channels.Http.Classes.{request_met}
use posnet_adapter.Channels.Rows.{at-alter_self, at-append_new}
use posnet_adapter.Sync.Dispatcher.Handlers.{ChannelListingResult}
use posnet_adapter.Channels.Marketplace.Reading.{result_of}
use posnet_adapter.Channels.Marketplace.{
  Listing, MockStore, Request, create_listing, Local, sku_of_listing, listing_by_sku, alter_listing,
  ListingCreate, upsert_listing, refreshed, new_listing,
}
use posnet_adapter.Channels.Marketplace.Server.{
  serve, unprocessable, respond, listing_json, is_valid_listing,
}
use posnet_adapter.Channels.Marketplace.Client.{push_listing, listing_payload}
use posnet_adapter.Channels.Marketplace.Faithful.{listed}
use posnet_adapter.Channels.Http.Served.{IsServed, below_400}

module _ {W : Type 0} (t : Texts) (local : Local) (client : Client Request W)
    (store_of : W → MockStore) where
  abbrev ap_created : Listing → MockStore → Response × MockStore
  ap_created l s = (respond t local 201 (listing_json l), s)

  module _ (served : IsServed (serve t local) client store_of) where
    -- What a push of one product comes to.
    upserted :
        (b : ListingCreate) (s s' : MockStore) (a : Response)
        → serve t local (create_listing b) s ≡ (a, s')
        → leb 400 a.status_code ≡ false
        → (l : Listing) × (listing_by_sku b.seller_sku s' ≡ some l)
          × (l.stock ≡ b.stock)
          × (l.price_minor ≡ b.price_minor)
          × (l.currency ≡ b.currency)
    unfolding serve upsert_listing
    upserted b s s' a h low = elim (Bool-cases (is_valid_listing b)) [
      | inl valid ↦ elim (Option-cases (listing_by_sku b.seller_sku s)) [
        | inl fresh ↦
            let id = local.external_id s.made in
            let k : ap_created (new_listing id b)
                  (record s { listings = s.listings ++ new_listing id b ∷ []; made = suc s.made })
                ≡ (a, s') =
              rw (valid, fresh) at h in
            (
              new_listing id b,
              rw (← ap (λ x. x.1) k) (
                  at-append_new sku_of_listing b.seller_sku s.listings (new_listing id b) fresh
                    refl),
              refl,
              refl,
              refl,
            )
        | inr (l, there) ↦
            let k : ap_created (refreshed b l) (alter_listing b.seller_sku (refreshed b) s)
                ≡ (a, s') =
              rw (valid, there) at h in
            let self =
              at-alter_self sku_of_listing (refreshed b) (λ l. refl) b.seller_sku s.listings in
            (refreshed b l, rw (← ap (λ x. x.1) k, self, there) refl, refl, refl, refl)
      ]
      | inr invalid ↦
          let k : (unprocessable t local, s) ≡ (a, s') = rw invalid at h in
          let bad : leb 400 422 ≡ false = rw (← ap (λ x. x.0) k) at low in cc
    ]

    pushed_one :
        (p : CanonicalProduct) (w w' : W) (rs : List ChannelListingResult)
        → push_listing t client (p ∷ []) w ≡ (ok rs, w')
        → (j : Json) × (request client t (create_listing (listing_payload p)) w ≡ (ok j, w'))
    unfolding push_listing
    pushed_one p w w' rs h =
        let m = request client t (create_listing (listing_payload p)) in
        elim (Result-cases (m w).0) [
          | inl (j, fine) ↦ elim (Result-cases (result_of t j)) [
            | inl (r, read) ↦
                let k : ◌≡◌ {A = Result Failure (List ChannelListingResult) × W}
                    (ok (r ∷ []), (m w).1) (ok rs, w') =
                  rw (fine, read) at h in
                (j, cc)
            | inr (e, unread) ↦
                let k : ◌≡◌ {A = Result Failure (List ChannelListingResult) × W} (err e, (m w).1)
                    (ok rs, w') =
                  rw (fine, unread) at h in
                cc
          ]
          | inr (e, bad) ↦
              let k : ◌≡◌ {A = Result Failure (List ChannelListingResult) × W} (err e, (m w).1)
                  (ok rs, w') =
                rw bad at h in
              cc
        ]

    -- A product whose push returned is listed under its SKU with its stock, its price and its
    -- currency, whether the SKU was listed before or not: a run of the reconciliation would find
    -- no drift.
    pub push_listing-Agrees :
        (p : CanonicalProduct) (w w' : W) (rs : List ChannelListingResult)
        → push_listing t client (p ∷ []) w ≡ (ok rs, w')
        → Agrees (listed t local client store_of p.sku w') p
    push_listing-Agrees p w w' rs h =
        let (j, ran) = pushed_one p w w' rs h in
        let (a, came, low, _) =
          request_met client t (create_listing (listing_payload p)) w w' j ran in
        let e =
          served.answers (create_listing (listing_payload p)) w w' a came
            (below_400 a.status_code low) in
        let (l, there, stock, price, currency) =
          upserted (listing_payload p) (store_of w) (store_of w') a e low in
        (_, rw there refl, stock, price, currency)
