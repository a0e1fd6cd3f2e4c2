-- ===== src/EventBus/Consumer.antt =====
-- libs/eventbus/consumer.py. The database, where the handler writes, is `W`, the queues are `Q`;
-- both live in one Postgres, so a transaction rolls both back. `Event` is the parsed message and
-- `X` the exceptions of a handler, which may also be cancelled. A loop of `run_forever` is a
-- sequence of runs at given times.
pub mod Delivery
pub mod Runs
pub mod Bounded
use posnet_adapter.Prelude.{ℕ, Bool, true, false, Option, none, some, leb, if◌then◌else◌}
use posnet_adapter.Prelude.Exec.{
  Result, ok, err, Exec, pure, lift, gets, modify, savepoint, ◌>>=◌, ◌>>◌,
}
use posnet_adapter.EventBus.{EventBusConfig, backoff_seconds, QueueMessage, DlqEnvelope, Pgmq}

-- What comes up out of a handler: an `Exception`, or the `CancelledError` of a task that
-- `EventBusWorkers.stop` cancels, which is a `BaseException` only. A run that is cancelled anywhere
-- after its read, or whose `_on_failure` raises, ends as with a cancelled handler: all but the read
-- is rolled back, and the error goes up. So it counts as that.
pub data Raised (X : Type 0) : Type 0 where
  exception : X → Raised X
  cancelled_error : Raised X

unfoldable pub dlq_envelope : {M X : Type 0} → QueueMessage M → X → DlqEnvelope M X
dlq_envelope m e = record {
  event = m.message;
  error = e;
  original_msg_id = m.msg_id;
  read_ct = m.read_ct;
}

-- The handler's work on the database, inside the transaction that also has the queues.
abbrev pub on_database : {W Q X : Type 0} → Exec X W (Unit {0}) → Exec X (W × Q) (Unit {0})
on_database handler (w, q) = let (r, w') = handler w in (r, (w', q))

module _ {Q M X : Type 0} (pgmq : Pgmq Q M X) (config : EventBusConfig) where
  unfoldable pub on_failure : ℕ → QueueMessage M → X → Q → Q
  unfolding dlq_envelope
  on_failure now m e q =
      if leb config.max_retries m.read_ct
      then pgmq.archive m.msg_id (pgmq.send_dead (dlq_envelope m e) q)
      else pgmq.set_vt now m.msg_id
          (backoff_seconds m.read_ct config.backoff_base_seconds config.backoff_cap_seconds) q

  -- What `run_once` makes of the end of its transaction: `except Exception` takes an exception to
  -- `_on_failure`, and a cancellation goes on up.
  abbrev pub recover :
      {W : Type 0}
      → ℕ
      → QueueMessage M
      → Result (Raised X) (Unit {0})
      → W × Q
      → Option Bool × (W × Q)
  recover now m (ok _) s = (some true, s)
  recover now m (err (exception e)) (w, q) = (some true, (w, on_failure now m e q))
  recover now m (err cancelled_error) s = (none, s)

module _ {W Q M X Event : Type 0} (pgmq : Pgmq Q M X) (config : EventBusConfig) where
  -- The handler and the archiving in one transaction.
  unfoldable pub handle_and_archive :
      (Event → Exec (Raised X) W (Unit {0})) → Event → ℕ → Exec (Raised X) (W × Q) (Unit {0})
  handle_and_archive handler event id =
      savepoint (on_database (handler event) >> modify (λ s. (s.0, pgmq.archive id s.1)))

  -- The rest of `run_once` for a message that was read; `none` from `from_message` is a validation
  -- error, raised before the `try`.
  unfoldable pub process :
      (Event → Exec (Raised X) W (Unit {0}))
      → ℕ
      → QueueMessage M
      → Option Event
      → W × Q
      → Option Bool × (W × Q)
  process handler now m none s = (none, s)
  process handler now m (some event) s =
      let (r, s') = handle_and_archive handler event m.msg_id s in recover pgmq config now m r s'

  abbrev pub after_read :
      (M → Option Event)
      → (Event → Exec (Raised X) W (Unit {0}))
      → ℕ
      → Option (QueueMessage M)
      → W × Q
      → Option Bool × (W × Q)
  after_read from_message handler now none s = (some false, s)
  after_read from_message handler now (some m) s = process handler now m (from_message m.message) s

  -- `run_once` at the time `now`; the result `none` is the validation error or the
  -- cancellation that goes up.
  unfoldable pub run_once :
      (M → Option Event)
      → (Event → Exec (Raised X) W (Unit {0}))
      → ℕ
      → W × Q
      → Option Bool × (W × Q)
  run_once from_message handler now (w, q) =
      let (found, q') = pgmq.read now config.visibility_timeout_seconds q in
      after_read from_message handler now found (w, q')
