-- ===== src/Sync/Dispatcher/Stamps.antt =====
-- Which listings a stock movement touches.
use posnet_adapter.Prelude.{
  ℕ, String, ◌≡◌, refl, ◌∙◌, Bool, true, not, ◌&&◌, Option, none, some, List, [], ◌∷◌, map, ◌==◌,
  arith, All, select, if◌then◌else◌, Bool-cases, Option-cases, inl, inr,
}
use posnet_adapter.Prelude.Int.{ℤ, pos, ◌-ℤ◌, max_ℤ}
use posnet_adapter.Prelude.Exec.{Result, ok, err, continue, modify, Result-cases}
use posnet_adapter.Adapter.Errors.{
  Failure, adapter_error, breaker_open, rate_timeout, other_exception, is_final,
}
use posnet_adapter.Tables.{Variant}
use posnet_adapter.Sync.Guard.{Timing, call, classify}
use posnet_adapter.Sync.Guard.Isolation.{is_ok}
use posnet_adapter.Sync.Dispatcher.{
  Channel, ChannelListing, Dispatch, is_live, PushStock, sku_of, with_channel, active_listings,
  stamp_row, stamp_landed, guarded, push_one, push_all, push_sku, on_movement_applied,
}

-- The listings of other variants.
abbrev pub others : ℕ → List ChannelListing → List ChannelListing
others v rows = select (λ l. not (l.variant_id == v)) rows

stamp_others :
    (v now : ℕ) (l : ChannelListing) (rows : List ChannelListing)
    → (l.variant_id == v) ≡ true
    → others v (map (stamp_row l now) rows) ≡ others v rows
stamp_others v now l [] h = refl
stamp_others v now l (x ∷ rows) h = ground (arith, h, stamp_others v now l rows h)

with_channel-own :
    (v : ℕ) (l : ChannelListing) (o : Option Channel) (rest : List (ChannelListing × Channel))
    → (l.variant_id == v) ≡ true
    → All (λ p. (p.0.variant_id == v) ≡ true) rest
    → All (λ p. (p.0.variant_id == v) ≡ true) (with_channel l o rest)
with_channel-own v l none rest h own = own
with_channel-own v l (some c) rest h own = (h, own)

active_listings-own :
    (v tenant : ℕ) (channels : List Channel) (rows : List ChannelListing)
    → All (λ p. (p.0.variant_id == v) ≡ true) (active_listings v tenant channels rows)
active_listings-own v tenant channels [] = tt
active_listings-own v tenant channels (l ∷ rows) =
    let own = active_listings-own v tenant channels rows in
    elim (Bool-cases ((l.tenant_id == tenant && l.variant_id == v) && is_live l)) [
      | inl passes ↦ rw passes (with_channel-own v l _ _ (ground (arith, passes)) own)
      | inr fails ↦ rw fails own
    ]

module _ {W : Type 0} (factory : Channel → Result Failure (PushStock W)) (timing : ℕ → Timing)
    (now v : ℕ) where
  landed_others :
      (l : ChannelListing) (r : Result Failure (Option (Unit {0}))) (d : Dispatch W)
      → (l.variant_id == v) ≡ true
      → others v (continue r (λ outcome. modify (stamp_landed l now outcome)) d).1.listings
        ≡ others v d.listings
  landed_others l (err e) d h = refl
  landed_others l (ok none) d h = refl
  landed_others l (ok (some _)) d h = stamp_others v now l d.listings h

  push_one-others :
      (sku : String) (free : ℤ) (l : ChannelListing) (c : Channel) (d : Dispatch W)
      → (l.variant_id == v) ≡ true
      → others v (push_one factory timing now sku free l c d).1.listings ≡ others v d.listings
  unfolding push_one guarded
  push_one-others sku free l c d h = elim (Result-cases (factory c)) [
    | inl (push_stock, made) ↦ elim (Option-cases c.safety_stock) [
      | inl malformed ↦ rw made (rw malformed refl)
      | inr (buffer, parsed) ↦ rw made (rw parsed (landed_others l _ _ h))
    ]
    | inr (e, failed) ↦ rw failed refl
  ]

  push_all-others :
      (sku : String) (free : ℤ) (pairs : List (ChannelListing × Channel)) (d : Dispatch W)
      → All (λ p. (p.0.variant_id == v) ≡ true) pairs
      → others v (push_all factory timing now sku free pairs d).1.listings ≡ others v d.listings
  unfolding push_all
  push_all-others sku free [] d h = refl
  push_all-others sku free ((l, c) ∷ pairs) d h =
      elim (Result-cases (push_one factory timing now sku free l c d).0) [
        | inl (_, fine) ↦ rw fine (
            push_all-others sku free pairs (push_one factory timing now sku free l c d).1 h.1
            ∙ push_one-others sku free l c d h.0)
        | inr (e, failed) ↦ rw failed (push_one-others sku free l c d h.0)
      ]

  push_sku-others :
      (free : ℤ) (pairs : List (ChannelListing × Channel)) (sku : Option String) (d : Dispatch W)
      → All (λ p. (p.0.variant_id == v) ≡ true) pairs
      → others v (push_sku factory timing now free pairs sku d).1.listings ≡ others v d.listings
  push_sku-others free pairs none d h = refl
  push_sku-others free pairs (some sku) d h = push_all-others sku free pairs d h

  -- The handling of a stock movement, returning or raising, leaves the listings of every other
  -- variant as they were, in their order.
  pub on_movement_applied-others :
      (variants : List Variant) (channels : List Channel) (tenant : ℕ) (new_qty new_reserved : ℤ)
      (d : Dispatch W)
      → others v
          (on_movement_applied factory timing now variants channels tenant v new_qty new_reserved
            d).1.listings
        ≡ others v d.listings
  unfolding on_movement_applied
  on_movement_applied-others variants channels tenant new_qty new_reserved d =
      push_sku-others (max_ℤ (new_qty -ℤ new_reserved) (pos 0))
        (active_listings v tenant channels d.listings) (sku_of tenant v variants) d
        (active_listings-own v tenant channels d.listings)

module _ {W : Type 0} (factory : Channel → Result Failure (PushStock W)) (timing : ℕ → Timing)
    (now : ℕ) (l : ChannelListing) where
  abbrev after_call : Bool → Dispatch W → Dispatch W
  after_call landed d = record d {
    listings = if landed then map (stamp_row l now) d.listings else d.listings;
  }

  landed_state :
      (r : Result Failure (Unit {0})) (d : Dispatch W)
      → (continue (classify r) (λ outcome. modify (stamp_landed l now outcome)) d).1
        ≡ after_call (is_ok r) d
  landed_state (ok _) d = refl
  landed_state (err breaker_open) d = refl
  landed_state (err rate_timeout) d = refl
  landed_state (err other_exception) d = refl
  landed_state (err (adapter_error e)) d = elim (Bool-cases (is_final e.kind)) [
    | inl final ↦ rw final refl
    | inr passing ↦ rw passing refl
  ]

  -- For a channel with an adapter and a config that parses, what is pushed is the available stock
  -- less the buffer, and never less than 0; and the listing is stamped if the push has landed, and
  -- not if it was skipped or raised.
  pub push_one_stamps :
      (sku : String) (free : ℤ) (c : Channel) (push_stock : PushStock W) (buffer : ℕ)
      (d : Dispatch W)
      → factory c ≡ ok push_stock
      → c.safety_stock ≡ some buffer
      → let (r, (g, w)) =
          call c.id
            (timing c.id)
            (push_stock sku (max_ℤ (free -ℤ pos buffer) (pos 0)))
            (d.guard, d.world) in
        (push_one factory timing now sku free l c d).1 ≡ record {
          listings = if is_ok r then map (stamp_row l now) d.listings else d.listings;
          guard = g;
          world = w;
        }
  unfolding push_one guarded
  push_one_stamps sku free c push_stock buffer d made parsed =
      let (r, (g, w)) =
        call c.id (timing c.id) (push_stock sku (max_ℤ (free -ℤ pos buffer) (pos 0)))
          (d.guard, d.world) in
      rw made (rw parsed (landed_state r (record d { guard = g; world = w })))
