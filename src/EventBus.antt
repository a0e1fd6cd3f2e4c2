-- ===== src/EventBus.antt =====
-- libs/eventbus: the tuning knobs, the queue's interface and the retry delay of config.py. pgmq is
-- an extension of Postgres, and the parsing of a message is pydantic's; both are parameters.
pub mod Consumer
pub mod Relay
pub mod Idempotency
use Prim.Native.Nat.{min, max}
use posnet_adapter.Prelude.{ℕ, ◌^◌, Option}

pub record EventBusConfig : Type 0 where
  pub batch_size : ℕ
  pub visibility_timeout_seconds : ℕ
  pub max_retries : ℕ
  pub backoff_base_seconds : ℕ
  pub backoff_cap_seconds : ℕ

unfoldable pub backoff_seconds : ℕ → ℕ → ℕ → ℕ
backoff_seconds read_ct base cap = min (base ^ max read_ct 1) cap

pub record QueueMessage (M : Type 0) : Type 0 where
  pub msg_id : ℕ
  pub read_ct : ℕ
  pub message : M

pub record DlqEnvelope (M X : Type 0) : Type 0 where
  pub event : M
  pub error : X
  pub original_msg_id : ℕ
  pub read_ct : ℕ

-- The functions of pgmq on the event queue and its dead letter queue. `read` takes the time at
-- which it runs and the visibility timeout; `set_vt` the delay.
pub record Pgmq (Q M X : Type 0) : Type 0 where
  pub read : ℕ → ℕ → Q → Option (QueueMessage M) × Q
  pub archive : ℕ → Q → Q
  pub set_vt : ℕ → ℕ → ℕ → Q → Q
  pub send : M → Q → Q
  pub send_dead : DlqEnvelope M X → Q → Q
