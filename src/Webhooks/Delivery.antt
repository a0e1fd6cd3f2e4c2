-- ===== src/Webhooks/Delivery.antt =====
-- services/core/app/api/v1/webhooks.py: what a delivery leaves behind.
use posnet_adapter.Prelude.{
  ℕ, String, Bool, true, false, Option, none, some, ◌≡◌, refl, ◌∙◌, inl, inr, Bool-cases,
  Option-cases,
}
use posnet_adapter.Prelude.Exec.{Result, ok, err, Exec, pure, ◌>>=◌, Result-cases}
use posnet_adapter.Prelude.Readers.{IsConstant, constant_rules}
use posnet_adapter.CanonicalModel.{CanonicalOrder}
use posnet_adapter.Tables.{Db, too_long}
use posnet_adapter.Adapter.Errors.{
  Failure, adapter_error, breaker_open, rate_timeout, other_exception,
}
use posnet_adapter.Inventory.Journal.{IsConsistent}
use posnet_adapter.OrderIngest.{
  IngestStatus, reserved_status, rejected_status, duplicate, IngestOutcome, redelivery,
  ingest_channel_order,
}
use posnet_adapter.OrderIngest.Ingest.{ingest_outcome, ingest_twice}
use posnet_adapter.Webhooks.{
  ChannelRow, WebhookAdapter, PushFailure, not_implemented, raised, PosSource, App, Request, Hub,
  Refusal, http, uncaught, database, Admitted, authenticate, admit_delivery, delivery, push_to,
  write_order_to_pos, write_back, tell, after_commit, receive_webhook, push_swallowed,
  ack_swallowed,
}

module _ {W : Type 0} (app : App W) where
  pub admit_delivery-IsConstant :
      (factory : ChannelRow → Result Failure (WebhookAdapter W)) (q : Request)
      → IsConstant (admit_delivery app factory q)
  unfolding admit_delivery authenticate
  admit_delivery-IsConstant factory q = search constant_rules depth 40 fits 2000

-- The ends of a request that come before the commit: an HTTP error or an error of the database.
abbrev pub aborts : Refusal → Bool
aborts (http _ _) = true
aborts (database _) = true
aborts (uncaught _) = false

abbrev pub is_aborted {ℓ} : {A : Type ℓ} → Result Refusal A → Bool
is_aborted (ok a) = false
is_aborted (err e) = aborts e

-- What an action after the commit leaves alone, and how it does not end.
pub record IsAfterCommit {W A : Type 0} (m : Exec Refusal (Hub W) A) : Type 0 where
  pub keeps : (h : Hub W) → (m h).1.db ≡ h.db
  pub late : (h : Hub W) → is_aborted (m h).0 ≡ false

push_swallowed_late : (r : Result PushFailure (Unit {0})) → is_aborted (push_swallowed r) ≡ false
push_swallowed_late (ok a) = refl
push_swallowed_late (err not_implemented) = refl
push_swallowed_late (err (raised (adapter_error e))) = refl
push_swallowed_late (err (raised breaker_open)) = refl
push_swallowed_late (err (raised rate_timeout)) = refl
push_swallowed_late (err (raised other_exception)) = refl

ack_swallowed_late : (r : Result Failure (Unit {0})) → is_aborted (ack_swallowed r) ≡ false
ack_swallowed_late (ok a) = refl
ack_swallowed_late (err (adapter_error e)) = refl
ack_swallowed_late (err breaker_open) = refl
ack_swallowed_late (err rate_timeout) = refl
ack_swallowed_late (err other_exception) = refl

module _ {W : Type 0} where
  pure-IsAfterCommit : {A : Type 0} (a : A) → IsAfterCommit {W = W} (pure a)
  pure-IsAfterCommit a = record { keeps = λ h. refl; late = λ h. refl }

  bind-IsAfterCommit :
      {A B : Type 0} (m : Exec Refusal (Hub W) A) (f : A → Exec Refusal (Hub W) B)
      → IsAfterCommit m
      → ((a : A) → IsAfterCommit (f a))
      → IsAfterCommit (m >>= f)
  bind-IsAfterCommit m f x k = record {
    keeps = λ h. elim (Result-cases (m h).0) [
      | inl (a, fine) ↦ rw fine ((k a).keeps (m h).1 ∙ x.keeps h)
      | inr (e, bad) ↦ rw bad (x.keeps h)
    ];
    late = λ h. elim (Result-cases (m h).0) [
      | inl (a, fine) ↦ rw fine ((k a).late (m h).1)
      | inr (e, bad) ↦ rw bad (let t : _ = x.late h in rw bad at t)
    ];
  }

  push_to-IsAfterCommit :
      (order : CanonicalOrder) (o : Option (PosSource W)) → IsAfterCommit (push_to order o)
  push_to-IsAfterCommit order none = record { keeps = λ h. refl; late = λ h. refl }
  push_to-IsAfterCommit order (some source) = elim (Bool-cases source.supports_push_order) [
    | inl able ↦ record {
      keeps = λ h. rw able refl;
      late = λ h. rw able (push_swallowed_late (source.push_order order h.world).0);
    }
    | inr unable ↦ record { keeps = λ h. rw unable refl; late = λ h. rw unable refl }
  ]

  write_order_to_pos-IsAfterCommit :
      (factory : Option (ℕ → Option (PosSource W))) (tenant : ℕ) (order : CanonicalOrder)
      → IsAfterCommit (write_order_to_pos factory tenant order)
  unfolding write_order_to_pos
  write_order_to_pos-IsAfterCommit none tenant order = pure-IsAfterCommit tt
  write_order_to_pos-IsAfterCommit (some factory) tenant order =
      push_to-IsAfterCommit order (factory tenant)

  write_back-IsAfterCommit :
      (app : App W) (tenant : ℕ) (order : CanonicalOrder) (status : IngestStatus)
      → IsAfterCommit (write_back app tenant order status)
  write_back-IsAfterCommit app tenant order reserved_status =
      write_order_to_pos-IsAfterCommit app.pos_source_factory tenant order
  write_back-IsAfterCommit app tenant order rejected_status = pure-IsAfterCommit tt
  write_back-IsAfterCommit app tenant order duplicate = pure-IsAfterCommit tt

  tell-IsAfterCommit :
      (adapter : WebhookAdapter W) (id : String) (status : Option String)
      → IsAfterCommit (tell adapter id status)
  tell-IsAfterCommit adapter id none = record { keeps = λ h. refl; late = λ h. refl }
  tell-IsAfterCommit adapter id (some status) = record {
    keeps = λ h. refl;
    late = λ h. ack_swallowed_late (adapter.acknowledge_order id status h.world).0;
  }

  pub after_commit-IsAfterCommit :
      (app : App W) (tenant : ℕ) (landed : Admitted W × IngestOutcome)
      → IsAfterCommit (after_commit app tenant landed)
  unfolding after_commit
  after_commit-IsAfterCommit app tenant (a, outcome) =
      bind-IsAfterCommit _ _ (write_back-IsAfterCommit app tenant a.order outcome.status) (λ _.
        bind-IsAfterCommit _ _
          (tell-IsAfterCommit a.adapter outcome.channel_order_id outcome.ack_status)
          (λ _. pure-IsAfterCommit _))

module _ {W : Type 0} (app : App W) (q : Request) where
  -- A request that ends with an HTTP error, or with an error of the database, changes nothing:
  -- neither the database nor anything behind the channel and the POS.
  pub receive_webhook-aborted :
      (h : Hub W) → is_aborted (receive_webhook app q h).0 ≡ true → (receive_webhook app q h).1 ≡ h
  unfolding receive_webhook
  receive_webhook-aborted h bad = elim (Option-cases app.webhook_adapter_factory) [
    | inl unset ↦ rw unset refl
    | inr (factory, set) ↦ elim (Result-cases (delivery app factory q h.db).0) [
      | inl (landed, fine) ↦
          let t : is_aborted
                (after_commit app q.tenant_id landed
                  (record h { db = (delivery app factory q h.db).1 })).0
              ≡ true =
            rw (set, fine) at bad in
          let late : _ =
            (after_commit-IsAfterCommit app q.tenant_id landed).late
              (record h { db = (delivery app factory q h.db).1 }) in
          cc
      | inr (e, bad_end) ↦ rw (set, bad_end) refl
    ]
  ]

-- A request that the gate lets through, whatever the database holds.
pub record Passes {W : Type 0} (app : App W) (q : Request) (a : Admitted W) : Type 0 where
  pub factory : ChannelRow → Result Failure (WebhookAdapter W)
  pub wired : app.webhook_adapter_factory ≡ some factory
  pub admitted : (db : Db) → admit_delivery app factory q db ≡ (ok a, db)

module _ {W : Type 0} (app : App W) (q : Request) where
  -- One state of the database is enough to tell.
  pub let_through :
      (factory : ChannelRow → Result Failure (WebhookAdapter W)) (a : Admitted W) (db : Db)
      → app.webhook_adapter_factory ≡ some factory
      → admit_delivery app factory q db ≡ (ok a, db)
      → Passes app q a
  let_through factory a db set h =
      let constant = admit_delivery-IsConstant app factory q in
      let e : constant.result ≡ ok a = let t : _ = constant.runs db in cc in
      record { factory = factory; wired = set; admitted = λ d. constant.runs d ∙ rw e refl }

  -- The state that a delivery which passes has at its commit, and how its request goes on.
  pub received :
      (a : Admitted W) (h : Hub W) (outcome : IngestOutcome) (db' : Db)
      → Passes app q a
      → ingest_channel_order none q.tenant_id a.channel.id a.order h.db ≡ (ok outcome, db')
      → receive_webhook app q h ≡ after_commit app q.tenant_id (a, outcome) (record h { db = db' })
  unfolding receive_webhook delivery
  received a h outcome db' passes e = rw (passes.wired, passes.admitted h.db, e) refl

  -- A delivery whose order id fits always commits what the ingest made of its order.
  pub ingested :
      (a : Admitted W) (db : Db)
      → IsConsistent db
      → too_long 200 a.order.channel_order_id ≡ false
      → (outcome : IngestOutcome) × (db' : Db) × (ingest_channel_order none q.tenant_id a.channel.id
            a.order db
          ≡ (ok outcome, db'))
        × IsConsistent db'
  ingested a db h fits =
      elim (ingest_outcome none q.tenant_id a.channel.id a.order db h refl fits) [
        | inl (_, e) ↦ (_, db, e, h)
        | inr (inl (_, _, e)) ↦ (_, db, e, h)
        | inr (inr (inl (_, _, _, e))) ↦
            (_, _, e, record { sound = h.sound; unique = h.unique; journaled = h.journaled })
        | inr (inr (inr (_, db', _, k, e))) ↦
            (_, _, e, record { sound = k.sound; unique = k.unique; journaled = k.journaled })
      ]

  -- A delivery that passes, and whose order id fits, leaves the database as the ingest of its order
  -- leaves it, however the write-back to the POS and the acknowledgement end.
  pub receive_webhook-ingests :
      (a : Admitted W) (h : Hub W)
      → Passes app q a
      → IsConsistent h.db
      → too_long 200 a.order.channel_order_id ≡ false
      → (receive_webhook app q h).1.db
        ≡ (ingest_channel_order none q.tenant_id a.channel.id a.order h.db).1
  receive_webhook-ingests a h passes consistent fits =
      let (outcome, db', e, _) = ingested a h.db consistent fits in
      rw (received a h outcome db' passes e, e)
        ((after_commit-IsAfterCommit app q.tenant_id (a, outcome)).keeps (record h { db = db' }))

module _ {W : Type 0} (app : App W) (q : Request) where
  -- Where two deliveries of one order of a channel pass, the stock is consistent and the order's id
  -- has at most 200 characters, the second answers that the order is a duplicate and changes
  -- nothing: no stock is reserved again, and neither the POS nor the channel is called, however the
  -- first one ended after its commit.
  pub receive_webhook_twice :
      (q' : Request) (a a' : Admitted W) (h : Hub W)
      → Passes app q a
      → Passes app q' a'
      → q'.tenant_id ≡ q.tenant_id
      → a'.channel.id ≡ a.channel.id
      → a'.order ≡ a.order
      → IsConsistent h.db
      → too_long 200 a.order.channel_order_id ≡ false
      → let again = (receive_webhook app q h).1 in
        receive_webhook app q' again
        ≡ (ok (record { channel_order_id = a.order.channel_order_id; status = duplicate }), again)
  unfolding after_commit
  receive_webhook_twice q' a a' h passes passes' one_tenant one_channel one_order consistent fits =
      let again = (receive_webhook app q h).1 in
      let e : ingest_channel_order none q'.tenant_id a'.channel.id a'.order again.db
          ≡ (ok (redelivery a.order.channel_order_id), again.db) =
        rw
          (
            one_tenant,
            one_channel,
            one_order,
            receive_webhook-ingests app q a h passes consistent fits,
          )
          (ingest_twice none q.tenant_id a.channel.id a.order h.db consistent refl fits) in
      received app q' a' again (redelivery a.order.channel_order_id) again.db passes' e
