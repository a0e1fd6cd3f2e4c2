-- ===== src/Sync/Reconcile/Healing.antt =====
-- What a run does for a listing of a channel that keeps what is pushed to it.
use posnet_adapter.Prelude.{
  ℕ, String, ◌≡◌, refl, sym, ap, ◌∙◌, Bool, true, false, ◌&&◌, ◌||◌, Option, none, some, Bool-cases,
  inl, inr,
}
use posnet_adapter.Prelude.Exec.{Result, ok, Result-cases}
use posnet_adapter.CanonicalModel.{CanonicalProduct}
use posnet_adapter.Adapter.Errors.{Failure}
use posnet_adapter.Tables.{Variant, Scope}
use posnet_adapter.Catalog.{Catalog}
use posnet_adapter.Sync.Canonical.{build_canonical_product}
use posnet_adapter.Sync.Guard.{ChannelGuard, Timing, call}
use posnet_adapter.Sync.Guard.Runs.{call_runs}
use posnet_adapter.Sync.Dispatcher.{Channel}
use posnet_adapter.Sync.Reconcile.{
  ChannelListingSnapshot, ChannelAdapter, ListingReconcileResult, repair_stock, repair_price,
  repair, compare_listing, against, reconcile_one, stock_drifts, price_drifts, price_of, compared,
  is_drifted, skip, Note, not_listed, fetch_failed,
}
use posnet_adapter.Sync.Reconcile.Faithful.{
  IsFaithful, Agrees, no_stock_drift, no_price_drift, no_drift, not_either, tried,
}

module _ {W : Type 0} (channel : Channel) (adapter : ChannelAdapter W)
    (listed : String → W → Option ChannelListingSnapshot) (faithful : IsFaithful adapter listed)
    (timing : ℕ → Timing) (p : CanonicalProduct) where
  -- Where a push lands, the listing has the figure of the POS.
  repair_stock_lands :
      (g : ChannelGuard) (w : W) (s : ChannelListingSnapshot)
      → listed p.sku w ≡ some s
      → (repair_stock channel adapter timing p (g, w)).0 ≡ ok true
      → listed p.sku (repair_stock channel adapter timing p (g, w)).1.1
        ≡ some (record s { stock = p.stock_qty })
  unfolding repair_stock
  repair_stock_lands g w s there h =
      let op = adapter.push_stock p.sku p.stock_qty in
      elim (tried (call channel.id (timing 1) op) (g, w)) [
        | inl (a, fine) ↦ rw fine (
            faithful.stock_lands p.sku p.stock_qty w _ a s
              (call_runs channel.id (timing 1) op w a g fine) there)
        | inr (inl (e, caught)) ↦ let t : _ = rw caught at h in cc
        | inr (inr (e, missed)) ↦ let t : _ = rw missed at h in cc
      ]

  repair_price_lands :
      (g : ChannelGuard) (w : W) (s : ChannelListingSnapshot)
      → listed p.sku w ≡ some s
      → (repair_price channel adapter timing p (g, w)).0 ≡ ok true
      → listed p.sku (repair_price channel adapter timing p (g, w)).1.1
        ≡ some (record s { price_minor = p.price_minor; currency = p.currency })
  unfolding repair_price
  repair_price_lands g w s there h =
      let op = adapter.push_price p.sku (price_of p) in
      elim (tried (call channel.id (timing 2) op) (g, w)) [
        | inl (a, fine) ↦ rw fine (
            faithful.price_lands p.sku (price_of p) w _ a s
              (call_runs channel.id (timing 2) op w a g fine) there)
        | inr (inl (e, caught)) ↦ let t : _ = rw caught at h in cc
        | inr (inr (e, missed)) ↦ let t : _ = rw missed at h in cc
      ]

  -- The repairs that the result says were due were made, of one kind at most.
  abbrev IsMended : ListingReconcileResult → Type 0
  IsMended r = (r.stock_drift && r.price_drift ≡ false) × (r.repaired ≡ is_drifted r)

  abbrev returned :
      {G : Type 0} → ListingReconcileResult → G → Result Failure ListingReconcileResult × G
  returned r s = (ok r, s)

  compared-IsMended :
      {G : Type 0} (sku : String) (s : ChannelListingSnapshot) (repaired : Bool)
      (r : ListingReconcileResult) (before after : G)
      → returned (compared sku channel.code p s repaired) before ≡ returned r after
      → IsMended r
      → (stock_drifts s p && price_drifts s p ≡ false)
        × (repaired ≡ (stock_drifts s p || price_drifts s p))
        × (before ≡ after)
  compared-IsMended sku s repaired r before after h mended =
      let k : compared sku channel.code p s repaired ≡ r = cc in
      let (one, due) = rw (sym k) at mended in (one, due, ap (λ x. x.1) h)

  repair_heals :
      (s : ChannelListingSnapshot) (g : ChannelGuard) (w : W) (stock price : Bool)
      → listed p.sku w ≡ some s
      → stock_drifts s p ≡ stock
      → price_drifts s p ≡ price
      → stock && price ≡ false
      → (repair channel adapter timing p stock price (g, w)).0 ≡ ok true
      → Agrees (listed p.sku (repair channel adapter timing p stock price (g, w)).1.1) p
  unfolding repair
  repair_heals s g w true true there short dear one h = cc
  repair_heals s g w false false there level fair one h = cc
  repair_heals s g w true false there short fair one h =
      elim (Result-cases (repair_stock channel adapter timing p (g, w)).0) [
        | inl (true, landed) ↦ rw landed (
          record s { stock = p.stock_qty },
          repair_stock_lands g w s there landed,
          refl,
          (no_price_drift s p fair).0,
          (no_price_drift s p fair).1,
        )
        | inl (false, lost) ↦ let t : _ = rw lost at h in cc
        | inr (e, raised) ↦ let t : _ = rw raised at h in cc
      ]
  repair_heals s g w false true there level dear one h =
      elim (Result-cases (repair_price channel adapter timing p (g, w)).0) [
        | inl (true, landed) ↦ rw landed (
          record s { price_minor = p.price_minor; currency = p.currency },
          repair_price_lands g w s there landed,
          no_stock_drift s p level,
          refl,
          refl,
        )
        | inl (false, lost) ↦ let t : _ = rw lost at h in cc
        | inr (e, raised) ↦ let t : _ = rw raised at h in cc
      ]

  compare_heals :
      (sku : String) (s : ChannelListingSnapshot) (g : ChannelGuard) (w : W)
      (r : ListingReconcileResult) (s' : ChannelGuard × W)
      → listed p.sku w ≡ some s
      → compare_listing channel adapter timing sku p (ok (some s)) (g, w) ≡ (ok r, s')
      → IsMended r
      → Agrees (listed p.sku s'.1) p
  unfolding compare_listing
  compare_heals sku s g w r s' there h mended =
      let m = repair channel adapter timing p (stock_drifts s p) (price_drifts s p) in
      elim (Bool-cases (stock_drifts s p || price_drifts s p)) [
        | inl drifts ↦ elim (Result-cases (m (g, w)).0) [
          | inl (b, ran) ↦
              let (one, due, k) = compared-IsMended sku s b r _ s' (rw (drifts, ran) at h) mended in
              let landed : (m (g, w)).0 ≡ ok true = rw (sym (due ∙ drifts)) ran in
              rw (sym k) (repair_heals s g w _ _ there refl refl one landed)
          | inr (e, raised) ↦ let t : _ = rw (drifts, raised) at h in cc
        ]
        | inr same ↦
            let (one, due, k) = compared-IsMended sku s false r _ s' (rw same at h) mended in
            let (level, fair) = not_either _ _ same in
            (
              s,
              ap (λ x. listed p.sku x.1) (sym k) ∙ there,
              no_stock_drift s p level,
              (no_price_drift s p fair).0,
              (no_price_drift s p fair).1,
            )
      ]

  skip_note :
      {G : Type 0} (sku : String) (n : Note) (r : ListingReconcileResult) (before after : G)
      → returned (skip sku channel.code (some p.stock_qty) n) before ≡ returned r after
      → r.note ≡ none
      → ⊥
  skip_note sku n r before after h seen =
      let k : skip sku channel.code (some p.stock_qty) n ≡ r = cc in
      let t : some n ≡ none = rw (sym k) at seen in cc

  against_heals :
      (g : ChannelGuard) (w : W) (r : ListingReconcileResult) (s' : ChannelGuard × W)
      → against channel adapter timing p.sku (some p) (g, w) ≡ (ok r, s')
      → r.note ≡ none
      → IsMended r
      → Agrees (listed p.sku s'.1) p
  unfolding compare_listing
  against_heals g w r s' h seen mended =
      let op = adapter.fetch_listing p.sku in
      let at = (call channel.id (timing 0) op (g, w)).1 in
      elim (tried (call channel.id (timing 0) op) (g, w)) [
        | inl (none, fine) ↦ absurd (skip_note p.sku not_listed r at s' (rw fine at h) seen)
        | inl (some s, fine) ↦
            let here =
              faithful.fetch_reads p.sku w at.1 (some s)
                (call_runs channel.id (timing 0) op w (some s) g fine) in
            compare_heals p.sku s at.0 at.1 r s' here.1 (rw fine at h) mended
        | inr (inl (e, caught)) ↦
            absurd (skip_note p.sku (fetch_failed e) r at s' (rw caught at h) seen)
        | inr (inr (e, missed)) ↦ let t : _ = rw missed at h in cc
      ]

  -- The result of a listing in which nothing differs.
  abbrev IsAtRest : ListingReconcileResult → Type 0
  IsAtRest r = (is_drifted r ≡ false) × (r.repaired ≡ false)

  returned-IsAtRest :
      {G : Type 0} (q r : ListingReconcileResult) (before after : G)
      → returned q before ≡ returned r after
      → IsAtRest q
      → IsAtRest r × (after ≡ before)
  returned-IsAtRest q r before after h rest =
      let k : q ≡ r = cc in let moved : after ≡ before = cc in (rw (sym k) rest, moved)

  compare_rests :
      (sku : String) (s : ChannelListingSnapshot) (r : ListingReconcileResult)
      (before after : ChannelGuard × W)
      → stock_drifts s p || price_drifts s p ≡ false
      → compare_listing channel adapter timing sku p (ok (some s)) before ≡ (ok r, after)
      → IsAtRest r × (after ≡ before)
  unfolding compare_listing
  compare_rests sku s r before after calm h =
      returned-IsAtRest (compared sku channel.code p s false) r before after (rw calm at h)
        (calm, refl)

  against_rests :
      (g : ChannelGuard) (w : W) (r : ListingReconcileResult) (s' : ChannelGuard × W)
      → Agrees (listed p.sku w) p
      → against channel adapter timing p.sku (some p) (g, w) ≡ (ok r, s')
      → IsAtRest r × (s' ≡ (call channel.id (timing 0) (adapter.fetch_listing p.sku) (g, w)).1)
  unfolding compare_listing
  against_rests g w r s' (t, same, stock, price, currency) h =
      let op = adapter.fetch_listing p.sku in
      let at = (call channel.id (timing 0) op (g, w)).1 in
      let quiet : (n : Note) → IsAtRest (skip p.sku channel.code (some p.stock_qty) n) =
        λ n. (refl, refl) in
      elim (tried (call channel.id (timing 0) op) (g, w)) [
        | inl (none, fine) ↦ returned-IsAtRest _ r at s' (rw fine at h) (quiet not_listed)
        | inl (some s, fine) ↦
            let here =
              faithful.fetch_reads p.sku w at.1 (some s)
                (call_runs channel.id (timing 0) op w (some s) g fine) in
            let there : some s ≡ some t = sym here.0 ∙ same in
            let e : t ≡ s = cc in
            let (level, fair) = no_drift s p (rw e at stock) (rw e at price) (rw e at currency) in
            compare_rests p.sku s r at s' (rw (level, fair) refl) (rw fine at h)
        | inr (inl (e, caught)) ↦
            returned-IsAtRest _ r at s' (rw caught at h) (quiet (fetch_failed e))
        | inr (inr (e, missed)) ↦ let t : _ = rw missed at h in cc
      ]

  module _ (is_currency : String → Bool) (scope : Scope) (c : Catalog) (at : ℕ) (v : Variant)
      (shown : build_canonical_product is_currency scope v.id at c ≡ ok (some p))
      (named : v.sku ≡ p.sku) (g : ChannelGuard) (w : W) (r : ListingReconcileResult)
      (s' : ChannelGuard × W)
      (ran : reconcile_one channel adapter timing is_currency scope c at v (g, w)
        ≡ (ok r, s')) where
    ran_against : against channel adapter timing p.sku (some p) (g, w) ≡ (ok r, s')
    unfolding reconcile_one
    ran_against = rw (shown, named) at ran

    -- Where the channel keeps what is pushed to it: a variant that has a snapshot for the channels,
    -- under its own SKU, whose listing was read and had at most one kind of drift, the stock's or
    -- the price's, and which the run repaired if it had one, has after the run a listing with the
    -- stock, the price and the currency of the POS.
    pub reconcile_one_heals :
        r.note ≡ none
        → r.stock_drift && r.price_drift ≡ false
        → r.repaired ≡ is_drifted r
        → Agrees (listed v.sku s'.1) p
    reconcile_one_heals seen one due = rw named (against_heals g w r s' ran_against seen (one, due))

    -- Where the channel keeps what is pushed to it: for a variant that has a snapshot for the
    -- channels, under its own SKU, a listing that agrees with the POS is left alone by a run that
    -- returns: no drift, no repair, and the channel is as the one call of the fetch left it.
    pub reconcile_one_rests :
        Agrees (listed v.sku w) p
        → (is_drifted r ≡ false)
          × (r.repaired ≡ false)
          × (s' ≡ (call channel.id (timing 0) (adapter.fetch_listing v.sku) (g, w)).1)
    reconcile_one_rests agree =
        let (rest, still) = against_rests g w r s' (rw named at agree) ran_against in
        (rest.0, rest.1, rw named still)
