-- ===== src/Tests/Bus.antt =====
-- The consumer, the relay and the wrapper at small inputs: libs/eventbus and
-- services/core/app/idempotency.py. The queue of these tests has room for one message.
use posnet_adapter.Prelude.{
  take, drop, ℕ, suc, ◌≡◌, refl, true, false, Option, none, some, List, [], ◌∷◌, ◌++◌, ◌==◌, arith,
  if◌then◌else◌,
}
use posnet_adapter.Prelude.Exec.{ok, err, Exec}
use posnet_adapter.Tables.{OutboxEvent, variant_added, override_set}
use posnet_adapter.EventBus.{EventBusConfig, QueueMessage, DlqEnvelope, Pgmq, backoff_seconds}
use posnet_adapter.EventBus.Consumer.{
  Raised, exception, cancelled_error, process, handle_and_archive, run_once, on_failure,
}
use posnet_adapter.EventBus.Consumer.Delivery.{IsLawful}
use posnet_adapter.EventBus.Consumer.Runs.{Fate, run_once_accounted, run_once_malformed}
use posnet_adapter.EventBus.Consumer.Bounded.{IsBounded, run_all, run_all-IsBounded}
use posnet_adapter.EventBus.Idempotency.{deliver, deliver_all, deliver_again}
use posnet_adapter.EventBus.Relay.{Envelope, send_all}
use posnet_adapter.EventBus.Relay.Drain.{runs, waiting, runs_lem}

abbrev Slot : Type 0
Slot = Option (QueueMessage ℕ) × List (DlqEnvelope ℕ ℕ)

abbrev read : ℕ → ℕ → Slot → Option (QueueMessage ℕ) × Slot
read now vt (none, letters) = (none, (none, letters))
read now vt (some m, letters) =
    let m' = record m { read_ct = suc m.read_ct } in (some m', (some m', letters))

abbrev archive : ℕ → Slot → Slot
archive id (none, letters) = (none, letters)
archive id (some m, letters) = if id == m.msg_id then (none, letters) else (some m, letters)

abbrev slot : Pgmq Slot ℕ ℕ
slot = record {
  read = read;
  archive = archive;
  set_vt = λ now id delay s. s;
  send = λ m s. (some (record { msg_id = m; read_ct = 0; message = m }), s.1);
  send_dead = λ e s. (s.0, s.1 ++ (e ∷ []));
}

abbrev pending : ℕ → Slot → Option ℕ
pending k (none, letters) = none
pending k (some m, letters) = if k == m.msg_id then some m.read_ct else none

abbrev dead : Slot → List (DlqEnvelope ℕ ℕ)
dead s = s.1

slot_read :
    (now vt : ℕ) (q : Slot) (m : QueueMessage ℕ)
    → (read now vt q).0 ≡ some m
    → (n : ℕ) × (pending m.msg_id q ≡ some n) × (m.read_ct ≡ suc n)
slot_read now vt (none, letters) m h = cc
slot_read now vt (some x, letters) m h = (x.read_ct, ground (arith, h), ground (arith, h))

slot-IsLawful : IsLawful slot pending dead
slot-IsLawful = record {
  read_pending = λ now vt q k. ground arith;
  read_count = slot_read;
  read_dead = λ now vt q. ground arith;
  archive_pending = λ id q k. ground arith;
  archive_dead = λ id q. ground arith;
  vt_pending = λ now id delay q k. refl;
  vt_dead = λ now id delay q. refl;
  letter_pending = λ e q k. ground arith;
  letter_dead = λ e q. refl;
}

abbrev config : EventBusConfig
config = record {
  batch_size = 2;
  visibility_timeout_seconds = 30;
  max_retries = 2;
  backoff_base_seconds = 2;
  backoff_cap_seconds = 300;
}

abbrev failing : ℕ → Exec (Raised ℕ) (List ℕ) (Unit {0})
failing event w = (err (exception 9), event ∷ w)

abbrev recording : ℕ → Exec (Raised ℕ) (List ℕ) (Unit {0})
recording event w = (ok tt, event ∷ w)

abbrev unreadable : ℕ → Option ℕ
unreadable m = none

abbrev queue : Slot
queue = (some (record { msg_id = 7; read_ct = 0; message = 70 }), [])

abbrev exhausted : Slot
exhausted = (some (record { msg_id = 7; read_ct = 9; message = 70 }), [])

queue-IsBounded : IsBounded slot pending dead slot-IsLawful config some failing queue
queue-IsBounded = record { tries = λ k n h. ground (arith, h); letters = tt }

run_all-IsBounded_example :
    IsBounded slot pending dead slot-IsLawful config some failing
      (run_all slot pending dead slot-IsLawful config some failing (0 ∷ 10 ∷ 20 ∷ []) ([], queue)).1
run_all-IsBounded_example =
    run_all-IsBounded slot pending dead slot-IsLawful config some failing (λ m. refl) (λ e w h. cc)
      (0 ∷ 10 ∷ 20 ∷ []) [] queue queue-IsBounded

run_once_malformed_example :
    let (r, (w', q')) = run_once slot config unreadable recording 0 ([], exhausted) in
    (r ≡ none) × (w' ≡ []) × (dead q' ≡ dead exhausted) × (pending 7 q' ≡ some 10)
run_once_malformed_example =
    run_once_malformed slot pending dead slot-IsLawful config unreadable recording 0 [] exhausted
      (record { msg_id = 7; read_ct = 10; message = 70 }) 9 refl refl refl

run_once_accounted_example :
    Fate slot pending dead slot-IsLawful config some failing 7 0
      ([], queue)
      (run_once slot config some failing 0 ([], queue))
run_once_accounted_example =
    run_once_accounted slot pending dead slot-IsLawful config some failing 0 [] queue 7 0 refl

abbrev stopped : ℕ → Exec (Raised ℕ) (List ℕ) (Unit {0})
stopped event w = (err cancelled_error, event ∷ w)

-- A cancelled run keeps the message, read once more, beyond `max_retries` too.
kept_on_stop :
    run_once slot config some stopped 0 ([], exhausted)
    ≡ (none, ([], (some (record { msg_id = 7; read_ct = 10; message = 70 }), [])))
unfolding run_once process handle_and_archive
kept_on_stop = refl

-- Two failures put the message with its error into the dead letter queue.
failed_twice :
    run_all slot pending dead slot-IsLawful config some failing (0 ∷ 10 ∷ []) ([], queue)
    ≡ ([], (none, record { event = 70; error = 9; original_msg_id = 7; read_ct = 2 } ∷ []))
unfolding run_once process handle_and_archive on_failure
failed_twice = refl

delays : backoff_seconds 3 2 300 ≡ 8
unfolding backoff_seconds
delays = refl

deliver_again_example :
    let s' = deliver_all (λ e. e) recording (6 ∷ []) (deliver (λ e. e) recording 5 ([], [])) in
    deliver (λ e. e) recording 5 s' ≡ s'
deliver_again_example = deliver_again (λ e. e) recording 5 5 (6 ∷ []) ([], []) (5 ∷ []) refl refl

abbrev outbox : List OutboxEvent
outbox =
    record { id = 1; tenant_id = 1; payload = variant_added 5; published = true }
    ∷ record { id = 2; tenant_id = 1; payload = override_set 5; published = false }
    ∷ record { id = 3; tenant_id = 2; payload = override_set 6; published = false }
    ∷ record { id = 4; tenant_id = 1; payload = variant_added 7; published = false }
    ∷ []

abbrev send : Envelope → List Envelope → List Envelope
send e q = q ++ (e ∷ [])

runs_lem_example :
    ((runs send 2 1 (outbox, [])).1 ≡ send_all send (take 2 (waiting outbox)) [])
    × (waiting (runs send 2 1 (outbox, [])).0 ≡ drop 2 (waiting outbox))
runs_lem_example =
    runs_lem send 2 1 outbox []
      ((refl, (refl, (refl, tt))), ((refl, (refl, tt)), ((refl, tt), (tt, tt))))
