-- ===== src/Sync/Dispatcher/Tenants.antt =====
-- The dispatch of an event stays within its tenant.
use posnet_adapter.Prelude.{
  ℕ, String, ◌≡◌, refl, ◌∙◌, Bool, true, false, not, ◌&&◌, Option, none, some, List, [], ◌∷◌, ◌++◌,
  map, ◌==◌, arith, All, select, find?, if◌then◌else◌, ==_iff, Bool-cases, Option-cases, inl, inr,
}
use posnet_adapter.Prelude.Int.{ℤ}
use posnet_adapter.Prelude.Exec.{
  Result, Exec, Result-cases, pure, lift, or_raise, raise_if, gets, modify, ◌>>=◌,
}
use posnet_adapter.Adapter.Errors.{Failure}
use posnet_adapter.CanonicalModel.{CanonicalProduct, CanonicalPrice}
use posnet_adapter.Tables.{
  Payload, product_created, variant_added, movement_applied, override_set, other, Scope,
}
use posnet_adapter.Catalog.{Catalog}
use posnet_adapter.Sync.Guard.{Timing}
use posnet_adapter.Sync.Dispatcher.{
  Channel, ChannelListing, Dispatch, PushStock, active_listings, is_live, stamp_row, stamp_landed,
  guarded, push_one, push_all, push_sku, on_movement_applied,
}
use posnet_adapter.Sync.Dispatcher.Handlers.{
  ChannelListingResult, SyncAdapter, pending_row, list_row, ensure_listing, list_landed, list_one,
  list_all, list_shown, price_one, price_all, reprice_sku, on_variant_added, on_override_set,
  dispatch, active_channels,
}

-- The listings of other tenants.
abbrev pub foreign : ℕ → List ChannelListing → List ChannelListing
foreign tenant rows = select (λ l. not (l.tenant_id == tenant)) rows

module _ (tenant : ℕ) where
  stamp_row-foreign :
      (l : ChannelListing) (now : ℕ) (rows : List ChannelListing)
      → (l.tenant_id == tenant) ≡ true
      → foreign tenant (map (stamp_row l now) rows) ≡ foreign tenant rows
  stamp_row-foreign l now [] own = refl
  stamp_row-foreign l now (x ∷ rows) own = ground (arith, own, stamp_row-foreign l now rows own)

  list_row-foreign :
      (channel v : ℕ) (result : ChannelListingResult) (now : ℕ) (rows : List ChannelListing)
      → foreign tenant (map (list_row tenant channel v result now) rows) ≡ foreign tenant rows
  list_row-foreign channel v result now [] = refl
  list_row-foreign channel v result now (x ∷ rows) =
      ground (arith, list_row-foreign channel v result now rows)

  append-foreign :
      (rows : List ChannelListing) (l : ChannelListing)
      → (l.tenant_id == tenant) ≡ true
      → foreign tenant (rows ++ l ∷ []) ≡ foreign tenant rows
  append-foreign [] l own = ground (arith, own)
  append-foreign (x ∷ rows) l own = ground (arith, append-foreign rows l own)

  active_listings-own :
      (v : ℕ) (channels : List Channel) (rows : List ChannelListing)
      → All (λ p. (p.0.tenant_id == tenant) ≡ true) (active_listings v tenant channels rows)
  active_listings-own v channels [] = tt
  active_listings-own v channels (l ∷ rows) =
      let own = active_listings-own v channels rows in
      elim (Bool-cases ((l.tenant_id == tenant && l.variant_id == v) && is_live l)) [
        | inl passes ↦
            elim (Option-cases
              (find? (λ (c : Channel). c.id == l.channel_id && c.is_active) channels)) [
                | inl gone ↦ rw passes (rw gone own)
                | inr (c, there) ↦ rw passes (rw there (ground (arith, passes), own))
              ]
        | inr fails ↦ rw fails own
      ]

-- The step leaves them as they were, whether it returns or raises.
record Keeps {W : Type 0} (tenant : ℕ) {A : Type 0} (m : Exec Failure (Dispatch W) A) : Type 0 where
  kept : (d : Dispatch W) → foreign tenant (m d).1.listings ≡ foreign tenant d.listings

module _ {W : Type 0} (tenant : ℕ) where
  bind-Keeps :
      {A B : Type 0} {m : Exec Failure (Dispatch W) A} {f : A → Exec Failure (Dispatch W) B}
      → Keeps tenant m
      → ((a : A) → Keeps tenant (f a))
      → Keeps tenant (m >>= f)
  bind-Keeps {m} {f} hm hf = record {
    kept = λ d. elim (Result-cases (m d).0) [
      | inl (a, fine) ↦ rw fine ((hf a).kept (m d).1 ∙ hm.kept d)
      | inr (e, raised) ↦ rw raised (hm.kept d)
    ];
  }

  gets-Keeps : {A : Type 0} (f : Dispatch W → A) → Keeps tenant (gets f)
  gets-Keeps f = record { kept = λ d. refl }

  lift-Keeps : {A : Type 0} (r : Result Failure A) → Keeps {W = W} tenant (lift r)
  lift-Keeps r = record { kept = λ d. refl }

  pure-Keeps : Keeps {W = W} tenant (pure {A = Unit {0}} tt)
  pure-Keeps = record { kept = λ d. refl }

  or_raise-Keeps : {A : Type 0} (o : Option A) (e : Failure) → Keeps {W = W} tenant (or_raise o e)
  or_raise-Keeps none e = record { kept = λ d. refl }
  or_raise-Keeps (some a) e = record { kept = λ d. refl }

  raise_if-Keeps : (b : Bool) (e : Failure) → Keeps {W = W} tenant (raise_if b e)
  raise_if-Keeps true e = record { kept = λ d. refl }
  raise_if-Keeps false e = record { kept = λ d. refl }

  guarded-Keeps :
      {A : Type 0} (id : ℕ) (t : Timing) (op : Exec Failure W A) → Keeps tenant (guarded id t op)
  unfolding guarded
  guarded-Keeps id t op = record { kept = λ d. refl }

  stamp_landed-Keeps :
      (l : ChannelListing) (now : ℕ) (o : Option (Unit {0}))
      → (l.tenant_id == tenant) ≡ true
      → Keeps {W = W} tenant (modify (stamp_landed l now o))
  stamp_landed-Keeps l now none own = record { kept = λ d. refl }
  stamp_landed-Keeps l now (some _) own = record {
    kept = λ d. stamp_row-foreign tenant l now d.listings own;
  }

  list_landed-Keeps :
      (channel v now : ℕ) (o : Option (List ChannelListingResult))
      → Keeps {W = W} tenant (modify (list_landed tenant channel v now o))
  list_landed-Keeps channel v now none = record { kept = λ d. refl }
  list_landed-Keeps channel v now (some []) = record { kept = λ d. refl }
  list_landed-Keeps channel v now (some (r ∷ _)) = record {
    kept = λ d. list_row-foreign tenant channel v r now d.listings;
  }

  add_row-Keeps :
      (channel v : ℕ) (known : Bool)
      → Keeps {W = W} tenant (
          modify (λ d.
            if known
            then d
            else record d { listings = d.listings ++ (pending_row tenant channel v ∷ []) }))
  add_row-Keeps channel v true = record { kept = λ d. refl }
  add_row-Keeps channel v false = record {
    kept = λ d.
        append-foreign tenant d.listings (pending_row tenant channel v)
          ((==_iff tenant tenant).1 refl);
  }

  ensure_listing-Keeps : (channel v : ℕ) → Keeps {W = W} tenant (ensure_listing tenant channel v)
  unfolding ensure_listing
  ensure_listing-Keeps channel v = search (bind-Keeps, gets-Keeps, raise_if-Keeps, add_row-Keeps)

  module _ (timing : ℕ → Timing) (now : ℕ) where
    push_one-Keeps :
        (factory : Channel → Result Failure (PushStock W)) (sku : String) (free : ℤ)
        (l : ChannelListing) (c : Channel)
        → (l.tenant_id == tenant) ≡ true
        → Keeps tenant (push_one factory timing now sku free l c)
    unfolding push_one
    push_one-Keeps factory sku free l c own =
        search (bind-Keeps, lift-Keeps, or_raise-Keeps, guarded-Keeps, stamp_landed-Keeps, own)

    push_all-Keeps :
        (factory : Channel → Result Failure (PushStock W)) (sku : String) (free : ℤ)
        (pairs : List (ChannelListing × Channel))
        → All (λ p. (p.0.tenant_id == tenant) ≡ true) pairs
        → Keeps tenant (push_all factory timing now sku free pairs)
    unfolding push_all
    push_all-Keeps factory sku free [] own = pure-Keeps
    push_all-Keeps factory sku free ((l, c) ∷ pairs) own =
        bind-Keeps (push_one-Keeps factory sku free l c own.0)
          (λ _. push_all-Keeps factory sku free pairs own.1)

    push_sku-Keeps :
        (factory : Channel → Result Failure (PushStock W)) (free : ℤ)
        (pairs : List (ChannelListing × Channel)) (sku : Option String)
        → All (λ p. (p.0.tenant_id == tenant) ≡ true) pairs
        → Keeps tenant (push_sku factory timing now free pairs sku)
    push_sku-Keeps factory free pairs none own = pure-Keeps
    push_sku-Keeps factory free pairs (some sku) own = push_all-Keeps factory sku free pairs own

    module _ (factory : Channel → Result Failure (SyncAdapter W)) where
      price_one-Keeps :
          (price : CanonicalPrice) (l : ChannelListing) (c : Channel)
          → (l.tenant_id == tenant) ≡ true
          → Keeps tenant (price_one factory timing now price l c)
      unfolding price_one
      price_one-Keeps price l c own =
          search (bind-Keeps, lift-Keeps, guarded-Keeps, stamp_landed-Keeps, own)

      price_all-Keeps :
          (price : CanonicalPrice) (pairs : List (ChannelListing × Channel))
          → All (λ p. (p.0.tenant_id == tenant) ≡ true) pairs
          → Keeps tenant (price_all factory timing now price pairs)
      unfolding price_all
      price_all-Keeps price [] own = pure-Keeps
      price_all-Keeps price ((l, c) ∷ pairs) own =
          bind-Keeps (price_one-Keeps price l c own.0) (λ _. price_all-Keeps price pairs own.1)

      list_one-Keeps :
          (v : ℕ) (p : CanonicalProduct) (c : Channel)
          → Keeps tenant (list_one factory timing now tenant v p c)
      unfolding list_one
      list_one-Keeps v p c = search (
        bind-Keeps, ensure_listing-Keeps, lift-Keeps, or_raise-Keeps, guarded-Keeps,
        list_landed-Keeps,
      )

      list_all-Keeps :
          (v : ℕ) (p : CanonicalProduct) (channels : List Channel)
          → Keeps tenant (list_all factory timing now tenant v p channels)
      unfolding list_all
      list_all-Keeps v p [] = pure-Keeps
      list_all-Keeps v p (c ∷ channels) =
          bind-Keeps (list_one-Keeps v p c) (λ _. list_all-Keeps v p channels)

      list_shown-Keeps :
          (v : ℕ) (channels : List Channel) (o : Option CanonicalProduct)
          → Keeps tenant (list_shown factory timing now tenant v channels o)
      list_shown-Keeps v channels none = pure-Keeps
      list_shown-Keeps v channels (some p) = list_all-Keeps v p (active_channels tenant channels)

      module _ (is_currency : String → Bool) (scope : Scope) (c : Catalog)
          (channels : List Channel) where
        on_variant_added-Keeps :
            (v : ℕ)
            → Keeps tenant
                (on_variant_added factory timing now is_currency scope c channels tenant v)
        unfolding on_variant_added
        on_variant_added-Keeps v = bind-Keeps (lift-Keeps _) (λ o. list_shown-Keeps v channels o)

        price_pairs-Keeps :
            (v : ℕ) (price : CanonicalPrice)
            → Keeps tenant (
                gets (λ d. active_listings v tenant channels d.listings) >>= λ pairs.
                price_all factory timing now price pairs)
        price_pairs-Keeps v price = record {
          kept = λ d.
              (price_all-Keeps price (active_listings v tenant channels d.listings)
                  (active_listings-own tenant v channels d.listings)).kept
                d;
        }

        reprice_sku-Keeps :
            (v : ℕ) (o : Option String)
            → Keeps tenant (reprice_sku factory timing now is_currency scope c channels tenant v o)
        reprice_sku-Keeps v none = pure-Keeps
        reprice_sku-Keeps v (some sku) = search (bind-Keeps, lift-Keeps, price_pairs-Keeps)

        -- Whatever the event, the tenant it is dispatched for and how the handling ends, the
        -- listings of every other tenant are left as they were, in their order.
        pub dispatch-foreign :
            (e : Payload) (d : Dispatch W)
            → foreign tenant
                (dispatch factory timing now is_currency scope c channels tenant e d).1.listings
              ≡ foreign tenant d.listings
        unfolding dispatch on_override_set on_movement_applied
        dispatch-foreign (variant_added v) d = (on_variant_added-Keeps v).kept d
        dispatch-foreign (movement_applied v w kind qty new_qty new_reserved version) d =
            (push_sku-Keeps _ _ (active_listings v tenant channels d.listings) _
                (active_listings-own tenant v channels d.listings)).kept
              d
        dispatch-foreign (override_set v) d = (reprice_sku-Keeps v _).kept d
        dispatch-foreign (product_created _) d = refl
        dispatch-foreign (other _) d = refl
