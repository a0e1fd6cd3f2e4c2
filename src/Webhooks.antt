-- ===== src/Webhooks.antt =====
-- services/core/app/api/v1/webhooks.py: the door through which channels post orders. Its state is
-- the database and the world `W` behind the channel's adapter and the POS. What the application
-- holds and what comes with the request are the records `App` and `Request`. A channel's config is
-- `ChannelConfig` of services/core/app/sync/channel_config.py, and `none` one that does not parse.
pub mod Delivery
pub mod Answers
use posnet_adapter.Prelude.{
  ℕ, String, Bool, true, false, not, ◌&&◌, Option, none, some, List, ◌==◌, find?, str_eq, ◌≡◌,
  if◌then◌else◌,
}
use posnet_adapter.Prelude.Int.{ℤ}
use posnet_adapter.Prelude.Exec.{
  Result, ok, err, Exec, pure, raise, lift, or_raise, raise_if, savepoint, ◌>>=◌, ◌>>◌,
}
use posnet_adapter.CanonicalModel.{CanonicalOrder}
use posnet_adapter.Tables.{Db, Error}
use posnet_adapter.Adapter.Errors.{
  ErrorKind, permanent, AdapterError, Failure, adapter_error, other_exception,
}
use posnet_adapter.Adapter.Signature.{verify_signature, default_max_skew_seconds, is_empty_text}
use posnet_adapter.OrderIngest.{
  IngestStatus, reserved_status, rejected_status, duplicate, IngestOutcome, ingest_channel_order,
}

pub record ChannelConfig : Type 0 where
  pub base_url : Option String
  pub webhook_secret : Option String
  pub safety_stock : ℕ

pub record ChannelRow : Type 0 where
  pub id : ℕ
  pub tenant_id : ℕ
  pub code : String
  pub status : String
  pub config : Option ChannelConfig

abbrev pub Headers : Type 0
Headers = String → Option String

-- The parts of a channel's adapter that a delivery uses.
pub record WebhookAdapter (W : Type 0) : Type 0 where
  pub supports_webhook_orders : Bool
  pub webhook_signature_header : Option String
  pub webhook_timestamp_header : Option String
  pub normalize_webhook : String → Headers → Result Failure CanonicalOrder
  pub acknowledge_order : String → String → Exec Failure W (Unit {0})

-- What `push_order` of a POS may raise.
pub data PushFailure : Type 0 where
  not_implemented : PushFailure
  raised : Failure → PushFailure

-- `PosSourceAdapter` of libs/pos_source/protocol.py, for the write-back.
pub record PosSource (W : Type 0) : Type 0 where
  pub supports_push_order : Bool
  pub push_order : CanonicalOrder → Exec PushFailure W (Unit {0})

-- `request.app.state`, the rows of `channels`, and the parameters of the signature check.
pub record App (W : Type 0) : Type 0 where
  pub webhook_adapter_factory : Option (ChannelRow → Result Failure (WebhookAdapter W))
  pub pos_source_factory : Option (ℕ → Option (PosSource W))
  pub channels : List ChannelRow
  pub mac : String → String → List ℕ
  pub parse_int : String → Option ℤ
  pub show_int : ℤ → String

pub record Request : Type 0 where
  pub tenant_id : ℕ
  pub code : String
  pub body : String
  pub headers : Headers
  pub now : ℕ

pub record Hub (W : Type 0) : Type 0 where
  pub db : Db
  pub world : W

-- How a request ends other than with 200: an `HTTPException`, or an error that nothing catches.
pub data Refusal : Type 0 where
  http : ℕ → String → Refusal
  uncaught : Failure → Refusal
  database : Error → Refusal

pub record Reply : Type 0 where
  pub channel_order_id : String
  pub status : IngestStatus

pub record Admitted (W : Type 0) : Type 0 where
  pub channel : ChannelRow
  pub adapter : WebhookAdapter W
  pub order : CanonicalOrder

abbrev pub unhandled : {A : Type 0} → Result Failure A → Result Refusal A
unhandled (ok a) = ok a
unhandled (err e) = err (uncaught e)

-- `except AdapterPermanentError`.
abbrev pub bad_body : ErrorKind → AdapterError → Refusal
bad_body permanent e = http 400 e.message
bad_body _ e = uncaught (adapter_error e)

abbrev pub normalized : Result Failure CanonicalOrder → Result Refusal CanonicalOrder
normalized (ok order) = ok order
normalized (err (adapter_error e)) = err (bad_body e.kind e)
normalized (err e) = err (uncaught e)

-- `not x` for an optional text: missing or empty.
abbrev pub given : Option String → Option String
given none = none
given (some s) = if is_empty_text s then none else some s

abbrev pub is_missing : Option String → Bool
is_missing none = true
is_missing (some s) = is_empty_text s

-- `request.headers.get(timestamp_header) if timestamp_header else None`.
abbrev pub timestamp_of : Option String → Headers → Option String
timestamp_of none headers = none
timestamp_of (some h) headers = if is_empty_text h then none else headers h

abbrev pub lacks_time : Option String → Headers → Bool
lacks_time none headers = false
lacks_time (some h) headers = is_missing (timestamp_of (some h) headers)

-- The SELECT by UNIQUE (tenant_id, code).
abbrev pub channel_at : ℕ → String → List ChannelRow → Option ChannelRow
channel_at tenant code rows = find? (λ c. c.tenant_id == tenant && str_eq c.code code) rows

-- `except (AdapterError, NotImplementedError)`.
abbrev pub push_swallowed : Result PushFailure (Unit {0}) → Result Refusal (Unit {0})
push_swallowed (ok _) = ok tt
push_swallowed (err not_implemented) = ok tt
push_swallowed (err (raised (adapter_error _))) = ok tt
push_swallowed (err (raised e)) = err (uncaught e)

-- `except AdapterError`.
abbrev pub ack_swallowed : Result Failure (Unit {0}) → Result Refusal (Unit {0})
ack_swallowed (ok _) = ok tt
ack_swallowed (err (adapter_error _)) = ok tt
ack_swallowed (err e) = err (uncaught e)

module _ {W : Type 0} where
  abbrev pub signature_check :
      App W → Request → WebhookAdapter W → String → String → Result Failure Bool
  signature_check app q adapter secret header =
      verify_signature app.mac app.parse_int app.show_int q.body secret (q.headers header)
        (timestamp_of adapter.webhook_timestamp_header q.headers) default_max_skew_seconds q.now

  -- From the secret to the canonical order.
  unfoldable pub authenticate :
      App W → Request → ChannelRow → WebhookAdapter W → Exec Refusal Db (Admitted W)
  authenticate app q channel adapter = do
    config ← or_raise channel.config (uncaught other_exception)
    secret ←
        or_raise (given config.webhook_secret) (http 503 "channel has no webhook secret configured")
    header ←
        or_raise adapter.webhook_signature_header
          (http 503 "adapter declares no webhook signature header")
    raise_if (lacks_time adapter.webhook_timestamp_header q.headers)
        (http 401 "missing webhook timestamp")
    genuine ← lift (unhandled (signature_check app q adapter secret header))
    raise_if (not genuine) (http 401 "invalid webhook signature")
    order ← lift (normalized (adapter.normalize_webhook q.body q.headers))
    pure (record { channel = channel; adapter = adapter; order = order })

  -- What precedes the ingest in the transaction.
  unfoldable pub admit_delivery :
      App W
      → (ChannelRow → Result Failure (WebhookAdapter W))
      → Request
      → Exec Refusal Db (Admitted W)
  unfolding authenticate
  admit_delivery app factory q = do
    channel ←
        or_raise (channel_at q.tenant_id q.code app.channels)
          (http 404 "channel not found or inactive")
    raise_if (not (str_eq channel.status "active")) (http 404 "channel not found or inactive")
    adapter ← lift (unhandled (factory channel))
    raise_if (not adapter.supports_webhook_orders)
        (http 400 "channel adapter does not support webhook orders")
    authenticate app q channel adapter

  abbrev pub with_outcome :
      Admitted W → Result Error IngestOutcome → Result Refusal (Admitted W × IngestOutcome)
  with_outcome a (ok outcome) = ok (a, outcome)
  with_outcome a (err e) = err (database e)

  abbrev pub ingest : ℕ → Admitted W → Exec Refusal Db (Admitted W × IngestOutcome)
  ingest tenant a db =
      let (r, db') = ingest_channel_order none tenant a.channel.id a.order db in
      (with_outcome a r, db')

  -- The body of `session.begin()`.
  unfoldable pub delivery :
      App W
      → (ChannelRow → Result Failure (WebhookAdapter W))
      → Request
      → Exec Refusal Db (Admitted W × IngestOutcome)
  unfolding admit_delivery
  delivery app factory q = do a ← admit_delivery app factory q; ingest q.tenant_id a

  -- An action on the database, and one on the world behind the adapters.
  abbrev pub on_db : {A : Type 0} → Exec Refusal Db A → Exec Refusal (Hub W) A
  on_db m h = let (r, db') = m h.db in (r, record h { db = db' })

  abbrev pub push_to : CanonicalOrder → Option (PosSource W) → Exec Refusal (Hub W) (Unit {0})
  push_to order none h = (ok tt, h)
  push_to order (some source) h =
      let (r, w) = source.push_order order h.world in
      if source.supports_push_order then (push_swallowed r, record h { world = w }) else (ok tt, h)

  -- `_write_order_to_pos`.
  unfoldable pub write_order_to_pos :
      Option (ℕ → Option (PosSource W)) → ℕ → CanonicalOrder → Exec Refusal (Hub W) (Unit {0})
  write_order_to_pos none tenant order = pure tt
  write_order_to_pos (some factory) tenant order = push_to order (factory tenant)

  abbrev pub write_back :
      App W → ℕ → CanonicalOrder → IngestStatus → Exec Refusal (Hub W) (Unit {0})
  write_back app tenant order reserved_status =
      write_order_to_pos app.pos_source_factory tenant order
  write_back app tenant order _ = pure tt

  abbrev pub tell : WebhookAdapter W → String → Option String → Exec Refusal (Hub W) (Unit {0})
  tell adapter id none h = (ok tt, h)
  tell adapter id (some status) h =
      let (r, w) = adapter.acknowledge_order id status h.world in
      (ack_swallowed r, record h { world = w })

  -- What follows the commit.
  unfoldable pub after_commit : App W → ℕ → Admitted W × IngestOutcome → Exec Refusal (Hub W) Reply
  unfolding write_order_to_pos
  after_commit app tenant (a, outcome) = do
    write_back app tenant a.order outcome.status
    tell a.adapter outcome.channel_order_id outcome.ack_status
    pure (record { channel_order_id = outcome.channel_order_id; status = outcome.status })

  unfoldable pub receive_webhook : App W → Request → Exec Refusal (Hub W) Reply
  unfolding delivery after_commit
  receive_webhook app q = do
    factory ← or_raise app.webhook_adapter_factory (http 503 "webhook ingress is not wired")
    landed ← on_db (savepoint (delivery app factory q))
    after_commit app q.tenant_id landed
