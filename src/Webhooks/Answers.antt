-- ===== src/Webhooks/Answers.antt =====
-- services/core/app/api/v1/webhooks.py: whom a delivery calls after its commit, and its answer.
use posnet_adapter.Prelude.{
  ℕ, String, false, Option, none, some, ◌≡◌, refl, ◌∙◌, ◌⊎◌, inl, inr, Bool-cases, if◌then◌else◌,
}
use posnet_adapter.Prelude.Exec.{Result, ok, err, pure_then}
use posnet_adapter.CanonicalModel.{CanonicalOrder}
use posnet_adapter.Tables.{Db, Error, too_long}
use posnet_adapter.Adapter.Errors.{Failure, adapter_error, AdapterError}
use posnet_adapter.Inventory.Journal.{IsConsistent}
use posnet_adapter.OrderIngest.{
  IngestStatus, reserved_status, rejected_status, duplicate, IngestOutcome, redelivery, rejection,
  reservation, ingest_channel_order,
}
use posnet_adapter.OrderIngest.Ingest.{ingest_outcome}
use posnet_adapter.Webhooks.{
  WebhookAdapter, PushFailure, not_implemented, raised, PosSource, App, Request, Hub, Refusal,
  Reply, Admitted, push_to, write_order_to_pos, tell, after_commit, receive_webhook, push_swallowed,
  ack_swallowed,
}
use posnet_adapter.Webhooks.Delivery.{Passes, received}

-- The errors that the handler swallows, as the contracts of the two collaborators limit them to.
abbrev pub IsForgiven : PushFailure → Type 0
IsForgiven e = (e ≡ not_implemented) ⊎ ((x : AdapterError) × (e ≡ raised (adapter_error x)))

abbrev pub IsPoliteSource : {W : Type 0} → PosSource W → Type 0
IsPoliteSource {W = W} source =
    (order : CanonicalOrder) (w : W) (e : PushFailure)
    → (source.push_order order w).0 ≡ err e
    → IsForgiven e

abbrev pub IsPoliteAdapter : {W : Type 0} → WebhookAdapter W → Type 0
IsPoliteAdapter {W = W} adapter =
    (id status : String) (w : W) (e : Failure)
    → (adapter.acknowledge_order id status w).0 ≡ err e
    → (x : AdapterError) × (e ≡ adapter_error x)

abbrev pub IsPoliteOption : {W : Type 0} → Option (PosSource W) → Type 0
IsPoliteOption none = Unit
IsPoliteOption (some source) = IsPoliteSource source

abbrev pub IsPolitePos : {W : Type 0} → Option (ℕ → Option (PosSource W)) → ℕ → Type 0
IsPolitePos none tenant = Unit
IsPolitePos (some factory) tenant = IsPoliteOption (factory tenant)

-- The world after one acknowledgement, and after a write-back of an order.
abbrev pub told : {W : Type 0} → Admitted W → String → W → W
told a status w = (a.adapter.acknowledge_order a.order.channel_order_id status w).1

abbrev pub pushed_to : {W : Type 0} → CanonicalOrder → Option (PosSource W) → W → W
pushed_to order none w = w
pushed_to order (some source) w =
    if source.supports_push_order then (source.push_order order w).1 else w

abbrev pub written : {W : Type 0} → Option (ℕ → Option (PosSource W)) → ℕ → CanonicalOrder → W → W
written none tenant order w = w
written (some factory) tenant order w = pushed_to order (factory tenant) w

-- Whom a delivery calls: a reserved order goes to the POS and is confirmed to the channel, a
-- rejected one is cancelled, and of a duplicate nobody hears.
abbrev pub contacted : {W : Type 0} → App W → ℕ → Admitted W → IngestStatus → W → W
contacted app tenant a reserved_status w =
    told a "confirmed" (written app.pos_source_factory tenant a.order w)
contacted app tenant a rejected_status w = told a "cancelled" w
contacted app tenant a duplicate w = w

ack_forgiven :
    (r : Result Failure (Unit {0}))
    → ((e : Failure) → r ≡ err e → (x : AdapterError) × (e ≡ adapter_error x))
    → ack_swallowed r ≡ ok tt
ack_forgiven (ok a) h = refl
ack_forgiven (err e) h = let (x, is) = h e refl in rw is refl

push_forgiven :
    (r : Result PushFailure (Unit {0}))
    → ((e : PushFailure) → r ≡ err e → IsForgiven e)
    → push_swallowed r ≡ ok tt
push_forgiven (ok a) h = refl
push_forgiven (err e) h = elim (h e refl) [ inl is ↦ rw is refl | inr (x, is) ↦ rw is refl ]

module _ {W : Type 0} where
  tell-told :
      (a : Admitted W) (status : String) (h : Hub W)
      → IsPoliteAdapter a.adapter
      → tell a.adapter a.order.channel_order_id (some status) h
        ≡ (ok tt, record h { world = told a status h.world })
  tell-told a status h polite =
      let r = a.adapter.acknowledge_order a.order.channel_order_id status h.world in
      let e : ack_swallowed r.0 ≡ ok tt =
        ack_forgiven r.0 (polite a.order.channel_order_id status h.world) in
      rw e refl

  push_to-pushed :
      (order : CanonicalOrder) (o : Option (PosSource W)) (h : Hub W)
      → IsPoliteOption o
      → push_to order o h ≡ (ok tt, record h { world = pushed_to order o h.world })
  push_to-pushed order none h polite = refl
  push_to-pushed order (some source) h polite =
      let r = source.push_order order h.world in
      let e : push_swallowed r.0 ≡ ok tt = push_forgiven r.0 (polite order h.world) in
      elim (Bool-cases source.supports_push_order) [
        | inl able ↦ rw (able, e) refl
        | inr unable ↦ rw unable refl
      ]

  write_order_to_pos-written :
      (factory : Option (ℕ → Option (PosSource W))) (tenant : ℕ) (order : CanonicalOrder)
      (h : Hub W)
      → IsPolitePos factory tenant
      → write_order_to_pos factory tenant order h
        ≡ (ok tt, record h { world = written factory tenant order h.world })
  unfolding write_order_to_pos
  write_order_to_pos-written none tenant order h polite = refl
  write_order_to_pos-written (some factory) tenant order h polite =
      push_to-pushed order (factory tenant) h polite

module _ {W : Type 0} (app : App W) (tenant : ℕ) (a : Admitted W) (h : Hub W) where
  abbrev answer : IngestStatus → Result Refusal Reply × Hub W
  answer status = (
    ok (record { channel_order_id = a.order.channel_order_id; status = status }),
    record h { world = contacted app tenant a status h.world },
  )

  rejected_commit :
      (e : Error)
      → IsPoliteAdapter a.adapter
      → after_commit app tenant (a, rejection a.order.channel_order_id e) h ≡ answer rejected_status
  unfolding after_commit
  rejected_commit e polite =
      pure_then (tell a.adapter a.order.channel_order_id (some "cancelled")) _ h _ tt
        (tell-told a "cancelled" h polite)

  reserved_commit :
      IsPoliteAdapter a.adapter
      → IsPolitePos app.pos_source_factory tenant
      → after_commit app tenant (a, reservation a.order.channel_order_id) h ≡ answer reserved_status
  unfolding after_commit
  reserved_commit polite polite_pos =
      let pushed = record h { world = written app.pos_source_factory tenant a.order h.world } in
      rw (write_order_to_pos-written app.pos_source_factory tenant a.order h polite_pos) (
        pure_then (tell a.adapter a.order.channel_order_id (some "confirmed")) _ pushed _ tt
          (tell-told a "confirmed" pushed polite))

module _ {W : Type 0} (app : App W) (q : Request) (a : Admitted W) (h : Hub W) where
  -- The answer to a delivery, and the state that it leaves.
  abbrev pub Answered : Type 0
  Answered =
      (outcome : IngestOutcome) × (db' : Db) × (ingest_channel_order none q.tenant_id a.channel.id
          a.order h.db
        ≡ (ok outcome, db'))
      × (receive_webhook app q h ≡ (
        ok (record { channel_order_id = a.order.channel_order_id; status = outcome.status }),
        record { db = db'; world = contacted app q.tenant_id a outcome.status h.world },
      ))

  -- A delivery that passes, on consistent stock and with an order id of at most 200 characters, is
  -- answered by the outcome of its ingest, provided the adapter's acknowledgement raises only
  -- adapter errors and the write-back only those or that it is not implemented. It calls the POS
  -- and the channel as `contacted` says, and one that fails them does not fail the delivery.
  pub receive_webhook-Answered :
      Passes app q a
      → IsConsistent h.db
      → too_long 200 a.order.channel_order_id ≡ false
      → IsPoliteAdapter a.adapter
      → IsPolitePos app.pos_source_factory q.tenant_id
      → Answered
  unfolding after_commit
  receive_webhook-Answered passes consistent fits polite polite_pos =
      elim (ingest_outcome none q.tenant_id a.channel.id a.order h.db consistent refl fits) [
        | inl (_, e) ↦ (
          redelivery a.order.channel_order_id,
          h.db,
          e,
          received app q a h (redelivery a.order.channel_order_id) h.db passes e,
        )
        | inr (inl (_, _, e)) ↦ (
          redelivery a.order.channel_order_id,
          h.db,
          e,
          received app q a h (redelivery a.order.channel_order_id) h.db passes e,
        )
        | inr (inr (inl (_, x, _, e))) ↦ (
          _,
          _,
          e,
          received app q a h (rejection a.order.channel_order_id x) _ passes e
              ∙ rejected_commit app q.tenant_id a (record h { db = _ }) x polite,
        )
        | inr (inr (inr (_, db', _, _, e))) ↦ (
          _,
          _,
          e,
          received app q a h (reservation a.order.channel_order_id) _ passes e
              ∙ reserved_commit app q.tenant_id a (record h { db = _ }) polite polite_pos,
        )
      ]
