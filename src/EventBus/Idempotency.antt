-- ===== src/EventBus/Idempotency.antt =====
-- services/core/app/idempotency.py: the wrapper that runs a handler once for an event id. The
-- table `idempotency_keys` stands beside the rest of the database, as the list of its keys.
use posnet_adapter.Prelude.{
  ℕ, ◌≡◌, refl, true, List, [], ◌∷◌, if◌then◌else◌, arith, Bool-cases, inl, inr,
}
use posnet_adapter.Prelude.Exec.{ok, Exec, savepoint, Result-cases}
use posnet_adapter.EventBus.Relay.{is_member}

member_first : (k : ℕ) (keys : List ℕ) → is_member k (k ∷ keys) ≡ true
member_first k keys = ground arith

member_later : (k x : ℕ) (keys : List ℕ) → is_member k keys ≡ true → is_member k (x ∷ keys) ≡ true
member_later k x keys h = ground arith

module _ {V X Event : Type 0} (event_id : Event → ℕ) where
  -- `idempotent`; INSERT … ON CONFLICT DO NOTHING inserts no row if the key is there.
  unfoldable pub idempotent : (Event → Exec X V (Unit {0})) → Event → Exec X (List ℕ × V) (Unit {0})
  idempotent handler event (keys, v) =
      let (r, v') = handler event v in
      if is_member (event_id event) keys
      then (ok tt, (keys, v))
      else (r, (event_id event ∷ keys, v'))

  -- One delivery: the handler in the consumer's transaction.
  abbrev pub deliver : (Event → Exec X V (Unit {0})) → Event → List ℕ × V → List ℕ × V
  deliver handler event s = (savepoint (idempotent handler event) s).1

  abbrev pub deliver_all : (Event → Exec X V (Unit {0})) → List Event → List ℕ × V → List ℕ × V
  deliver_all handler [] s = s
  deliver_all handler (event ∷ events) s = deliver_all handler events (deliver handler event s)

  module _ (handler : Event → Exec X V (Unit {0})) where
    deliver_kept :
        (k : ℕ) (event : Event) (s : List ℕ × V)
        → is_member k s.0 ≡ true
        → is_member k (deliver handler event s).0 ≡ true
    unfolding idempotent
    deliver_kept k event (keys, v) h = elim (Bool-cases (is_member (event_id event) keys)) [
      | inl known ↦ rw (known, deliver) h
      | inr fresh ↦ elim (Result-cases (handler event v).0) [
        | inl (_, fine) ↦ rw (fresh, deliver, fine) (member_later k (event_id event) keys h)
        | inr (e, raised) ↦ rw (fresh, deliver, raised) h
      ]
    ]

    deliver_all_kept :
        (k : ℕ) (events : List Event) (s : List ℕ × V)
        → is_member k s.0 ≡ true
        → is_member k (deliver_all handler events s).0 ≡ true
    deliver_all_kept k [] s h = h
    deliver_all_kept k (event ∷ events) s h =
        deliver_all_kept k events (deliver handler event s) (deliver_kept k event s h)

    deliver_known :
        (event : Event) (s : List ℕ × V)
        → is_member (event_id event) s.0 ≡ true
        → deliver handler event s ≡ s
    unfolding idempotent
    deliver_known event (keys, v) h = rw (h, deliver) refl

    deliver_fine :
        (event : Event) (s : List ℕ × V) (v : V)
        → handler event s.1 ≡ (ok tt, v)
        → is_member (event_id event) (deliver handler event s).0 ≡ true
    unfolding idempotent
    deliver_fine event (keys, v) v' h = elim (Bool-cases (is_member (event_id event) keys)) [
      | inl known ↦ rw (known, deliver) known
      | inr fresh ↦ rw (fresh, deliver, h) (member_first (event_id event) keys)
    ]

    -- Once a delivery of an event has succeeded, no later delivery of an event with the same id
    -- changes anything, whatever was delivered in between.
    pub deliver_again :
        (event again : Event) (between : List Event) (s : List ℕ × V) (v : V)
        → handler event s.1 ≡ (ok tt, v)
        → event_id again ≡ event_id event
        → let s' = deliver_all handler between (deliver handler event s) in
          deliver handler again s' ≡ s'
    deliver_again event again between s v h e = deliver_known again _ (
        rw e (
          deliver_all_kept (event_id event) between (deliver handler event s)
            (deliver_fine event s v h)))
