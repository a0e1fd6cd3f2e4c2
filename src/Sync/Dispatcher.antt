-- ===== src/Sync/Dispatcher.antt =====
-- services/core/app/sync/dispatcher.py: the handler of a stock movement; that of the other events
-- is in Sync/Dispatcher/Handlers. The listings are rows of
-- the database; the adapters work on the world `W` beyond it. `factory` makes a channel's adapter,
-- and `timing` has the clock readings of a channel's call.
pub mod Stamps
pub mod Handlers
pub mod Tenants
use posnet_adapter.Prelude.{
  ℕ, String, Bool, true, false, ◌&&◌, Option, none, some, List, [], ◌∷◌, map, ◌==◌, find?,
  if◌then◌else◌, str_eq,
}
use posnet_adapter.Prelude.Int.{ℤ, pos, ◌-ℤ◌, max_ℤ}
use posnet_adapter.Prelude.Exec.{Result, Exec, pure, gets, lift, or_raise, modify, ◌>>=◌, ◌>>◌}
use posnet_adapter.Adapter.Errors.{Failure, other_exception}
use posnet_adapter.Tables.{Variant}
use posnet_adapter.Sync.Guard.{ChannelGuard, Timing, call, classify}

-- A channel, with `safety_stock` of its parsed config; `none` is a config that does not parse.
pub record Channel : Type 0 where
  pub id : ℕ
  pub tenant_id : ℕ
  pub code : String
  pub is_active : Bool
  pub safety_stock : Option ℕ

pub record ChannelListing : Type 0 where
  pub tenant_id : ℕ
  pub channel_id : ℕ
  pub variant_id : ℕ
  pub status : String
  pub external_listing_id : Option String
  pub last_synced_at : Option ℕ

abbrev pub is_live : ChannelListing → Bool
is_live l = str_eq l.status "active"

pub record Dispatch (W : Type 0) : Type 0 where
  pub listings : List ChannelListing
  pub guard : ChannelGuard
  pub world : W

abbrev pub PushStock : Type 0 → Type 0
PushStock W = String → ℤ → Exec Failure W (Unit {0})

-- `_sku`.
abbrev pub sku_of : ℕ → ℕ → List Variant → Option String
sku_of tenant v [] = none
sku_of tenant v (x ∷ rows) =
    let rest = sku_of tenant v rows in
    if x.tenant_id == tenant && x.id == v then some x.sku else rest

abbrev with_channel :
    ChannelListing
    → Option Channel
    → List (ChannelListing × Channel)
    → List (ChannelListing × Channel)
with_channel l none rest = rest
with_channel l (some c) rest = (l, c) ∷ rest

-- `_active_listings`.
abbrev pub active_listings :
    ℕ → ℕ → List Channel → List ChannelListing → List (ChannelListing × Channel)
active_listings v tenant channels [] = []
active_listings v tenant channels (l ∷ rows) =
    let rest = active_listings v tenant channels rows in
    if (l.tenant_id == tenant && l.variant_id == v) && is_live l
    then with_channel l (find? (λ c. c.id == l.channel_id && c.is_active) channels) rest
    else rest

-- The row of UNIQUE (channel_id, variant_id), of its tenant.
abbrev pub same_listing : ChannelListing → ChannelListing → Bool
same_listing l x =
    x.tenant_id == l.tenant_id && (x.channel_id == l.channel_id && x.variant_id == l.variant_id)

-- `listing.last_synced_at = …`.
abbrev pub stamp_row : ChannelListing → ℕ → ChannelListing → ChannelListing
stamp_row l now x = if same_listing l x then record x { last_synced_at = some now } else x

module _ {W : Type 0} where
  abbrev pub stamp_landed : ChannelListing → ℕ → Option (Unit {0}) → Dispatch W → Dispatch W
  stamp_landed l now none d = d
  stamp_landed l now (some _) d = record d { listings = map (stamp_row l now) d.listings }

  -- `_guard`.
  unfoldable pub guarded :
      {A : Type 0} → ℕ → Timing → Exec Failure W A → Exec Failure (Dispatch W) (Option A)
  guarded id t op d =
      let (r, (g, w)) = call id t op (d.guard, d.world) in
      (classify r, record d { guard = g; world = w })

  module _ (factory : Channel → Result Failure (PushStock W)) (timing : ℕ → Timing) (now : ℕ) where
    -- One round of the loop of `_on_movement_applied`.
    unfoldable pub push_one :
        String → ℤ → ChannelListing → Channel → Exec Failure (Dispatch W) (Unit {0})
    unfolding guarded
    push_one sku free l c = do
      push_stock ← lift (factory c)
      buffer ← or_raise c.safety_stock other_exception
      outcome ← guarded c.id (timing c.id) (push_stock sku (max_ℤ (free -ℤ pos buffer) (pos 0)))
      modify (stamp_landed l now outcome)

    unfoldable pub push_all :
        String → ℤ → List (ChannelListing × Channel) → Exec Failure (Dispatch W) (Unit {0})
    unfolding push_one
    push_all sku free [] = pure tt
    push_all sku free ((l, c) ∷ pairs) = do push_one sku free l c; push_all sku free pairs

    abbrev pub push_sku :
        ℤ → List (ChannelListing × Channel) → Option String → Exec Failure (Dispatch W) (Unit {0})
    push_sku free pairs none = pure tt
    push_sku free pairs (some sku) = push_all sku free pairs

    -- `_on_movement_applied`, for a movement of the tenant's variant `v`.
    unfoldable pub on_movement_applied :
        List Variant → List Channel → ℕ → ℕ → ℤ → ℤ → Exec Failure (Dispatch W) (Unit {0})
    unfolding push_all
    on_movement_applied variants channels tenant v new_qty new_reserved = do
      pairs ← gets (λ d. active_listings v tenant channels d.listings)
      push_sku (max_ℤ (new_qty -ℤ new_reserved) (pos 0)) pairs (sku_of tenant v variants)
