-- ===== src/EventBus/Relay.antt =====
-- libs/eventbus/relay.py. The outbox is the list of its rows in the order of `seq`; `locked` says
-- which rows another relay worker holds, and `send` is pgmq's.
pub mod Drain
use posnet_adapter.Prelude.{
  take, ℕ, zero, suc, Bool, true, false, not, ◌&&◌, ◌||◌, List, [], ◌∷◌, map, length, select, ◌==◌,
  if◌then◌else◌,
}
use posnet_adapter.Tables.{OutboxEvent, Payload}

-- The wire form; the event's type is the payload's constructor.
pub record Envelope : Type 0 where
  pub event_id : ℕ
  pub tenant_id : ℕ
  pub payload : Payload

unfoldable pub to_envelope : OutboxEvent → Envelope
to_envelope row = record { event_id = row.id; tenant_id = row.tenant_id; payload = row.payload }

abbrev pub is_member : ℕ → List ℕ → Bool
is_member k [] = false
is_member k (x ∷ xs) = k == x || is_member k xs

-- WHERE NOT published … FOR UPDATE SKIP LOCKED, in the order of `seq`.
abbrev pub is_free : (ℕ → Bool) → OutboxEvent → Bool
is_free locked row = not row.published && not (locked row.id)

abbrev pub select_batch : (ℕ → Bool) → ℕ → List OutboxEvent → List OutboxEvent
select_batch locked batch rows = take batch (select (is_free locked) rows)

abbrev pub mark_row : List ℕ → OutboxEvent → OutboxEvent
mark_row ids row = if is_member row.id ids then record row { published = true } else row

abbrev pub mark_published : List ℕ → List OutboxEvent → List OutboxEvent
mark_published ids rows = map (mark_row ids) rows

abbrev pub row_id : OutboxEvent → ℕ
row_id row = row.id

module _ {Q : Type 0} (send : Envelope → Q → Q) where
  abbrev pub send_all : List OutboxEvent → Q → Q
  send_all [] q = q
  send_all (row ∷ rows) q = send_all rows (send (to_envelope row) q)

  unfoldable pub run_once : (ℕ → Bool) → ℕ → List OutboxEvent × Q → ℕ × (List OutboxEvent × Q)
  run_once locked batch (rows, q) =
      let found = select_batch locked batch rows in
      (length found, (mark_published (map row_id found) rows, send_all found q))
