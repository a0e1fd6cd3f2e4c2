-- ===== src/Sync/Reconcile/Faithful.antt =====
-- Channels that keep what is pushed to them, and when a listing agrees with the POS.
use posnet_adapter.Prelude.{
  String, ◌≡◌, refl, Bool, true, false, ◌||◌, Option, some, arith, Bool-cases, ◌⊎◌, inl, inr,
  eq_iff,
}
use posnet_adapter.Prelude.Int.{ℤ, ==ℤ_iff}
use posnet_adapter.Prelude.Exec.{ok, err, Exec, Result-cases}
use posnet_adapter.CanonicalModel.{CanonicalProduct, CanonicalPrice}
use posnet_adapter.Adapter.Errors.{Failure}
use posnet_adapter.Sync.Reconcile.{
  ChannelListingSnapshot, ChannelAdapter, is_caught, attempt, stock_drifts, price_drifts,
}

-- A channel whose listing of a SKU, in the world `w`, is `listed sku w`: a fetch reads it, and a
-- push that lands puts its figure there and leaves the others.
pub record IsFaithful {W : Type 0} (adapter : ChannelAdapter W)
    (listed : String → W → Option ChannelListingSnapshot) : Type 0 where
  pub fetch_reads :
      (sku : String) (w w' : W) (o : Option ChannelListingSnapshot)
      → adapter.fetch_listing sku w ≡ (ok o, w')
      → (listed sku w ≡ o) × (listed sku w' ≡ o)
  pub stock_lands :
      (sku : String) (q : ℤ) (w w' : W) (a : Unit {0}) (s : ChannelListingSnapshot)
      → adapter.push_stock sku q w ≡ (ok a, w')
      → listed sku w ≡ some s
      → listed sku w' ≡ some (record s { stock = q })
  pub price_lands :
      (sku : String) (c : CanonicalPrice) (w w' : W) (a : Unit {0}) (s : ChannelListingSnapshot)
      → adapter.push_price sku c w ≡ (ok a, w')
      → listed sku w ≡ some s
      → listed sku w' ≡ some (record s { price_minor = c.price_minor; currency = c.currency })

abbrev pub Agrees : Option ChannelListingSnapshot → CanonicalProduct → Type 0
Agrees o p =
    (s : ChannelListingSnapshot) × (o ≡ some s)
    × (s.stock ≡ p.stock_qty)
    × (s.price_minor ≡ p.price_minor)
    × (s.currency ≡ p.currency)

pub no_stock_drift :
    (s : ChannelListingSnapshot) (p : CanonicalProduct)
    → stock_drifts s p ≡ false
    → s.stock ≡ p.stock_qty
no_stock_drift s p h = grind (arith, ==ℤ_iff s.stock p.stock_qty, h)

pub no_price_drift :
    (s : ChannelListingSnapshot) (p : CanonicalProduct)
    → price_drifts s p ≡ false
    → (s.price_minor ≡ p.price_minor) × (s.currency ≡ p.currency)
no_price_drift s p h =
    grind (arith, ==ℤ_iff s.price_minor p.price_minor, eq_iff s.currency p.currency, h)

pub no_drift :
    (s : ChannelListingSnapshot) (p : CanonicalProduct)
    → s.stock ≡ p.stock_qty
    → s.price_minor ≡ p.price_minor
    → s.currency ≡ p.currency
    → (stock_drifts s p ≡ false) × (price_drifts s p ≡ false)
no_drift s p a b c = grind (
  arith,
  ==ℤ_iff s.stock p.stock_qty,
  ==ℤ_iff s.price_minor p.price_minor,
  eq_iff s.currency p.currency,
)

pub not_either : (a b : Bool) → (a || b) ≡ false → (a ≡ false) × (b ≡ false)
not_either true b h = cc
not_either false b h = (refl, h)

-- How a `try` ends.
pub tried :
    {S A : Type 0} (m : Exec Failure S A) (s : S)
    → ((a : A) × ((m s).0 ≡ ok a))
      ⊎ (((e : Failure) × ((attempt m s).0 ≡ ok (err e)))
          ⊎ ((e : Failure) × ((attempt m s).0 ≡ err e)))
tried m s = elim (Result-cases (m s).0) [
  | inl (a, fine) ↦ inl (a, fine)
  | inr (e, raised) ↦ elim (Bool-cases (is_caught e)) [
    | inl caught ↦ inr (inl (e, rw (raised, caught) refl))
    | inr missed ↦ inr (inr (e, rw (raised, missed) refl))
  ]
]
