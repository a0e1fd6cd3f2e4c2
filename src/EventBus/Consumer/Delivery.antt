-- ===== src/EventBus/Consumer/Delivery.antt =====
-- What the consumer promises of every message of the queue, whatever the handler does.
use mathlib.Core.Path.{subst}
use posnet_adapter.Prelude.{
  ℕ, suc, ◌≡◌, ◌⊎◌, refl, sym, ◌∙◌, Bool, true, false, Option, none, some, List, [], ◌∷◌, ◌++◌,
  ◌==◌, if◌then◌else◌, arith, Bool-cases, inl, inr, leb,
}
use posnet_adapter.Prelude.Exec.{ok, err, Exec, Result-cases}
use posnet_adapter.EventBus.{EventBusConfig, backoff_seconds, QueueMessage, DlqEnvelope, Pgmq}
use posnet_adapter.EventBus.Consumer.{
  Raised, exception, cancelled_error, dlq_envelope, on_failure, handle_and_archive, process,
  run_once,
}

abbrev pub bump : {M : Type 0} → ℕ → Option (QueueMessage M) → Option ℕ → Option ℕ
bump k none c = c
bump k (some m) c = if k == m.msg_id then some m.read_ct else c

-- The documented behaviour of pgmq, by two observations: how often a message that is in the queue
-- has been read, and the letters of the dead letter queue.
pub record IsLawful {Q M X : Type 0} (pgmq : Pgmq Q M X) (pending : ℕ → Q → Option ℕ)
    (dead : Q → List (DlqEnvelope M X)) : Type 0 where
  -- A read gives a message of the queue, counts it, and leaves the others alone.
  pub read_pending :
      (now vt : ℕ) (q : Q) (k : ℕ)
      → pending k (pgmq.read now vt q).1 ≡ bump k (pgmq.read now vt q).0 (pending k q)
  pub read_count :
      (now vt : ℕ) (q : Q) (m : QueueMessage M)
      → (pgmq.read now vt q).0 ≡ some m
      → (n : ℕ) × (pending m.msg_id q ≡ some n) × (m.read_ct ≡ suc n)
  pub read_dead : (now vt : ℕ) (q : Q) → dead (pgmq.read now vt q).1 ≡ dead q
  pub archive_pending :
      (id : ℕ) (q : Q) (k : ℕ)
      → pending k (pgmq.archive id q) ≡ (if k == id then none else pending k q)
  pub archive_dead : (id : ℕ) (q : Q) → dead (pgmq.archive id q) ≡ dead q
  pub vt_pending :
      (now id delay : ℕ) (q : Q) (k : ℕ) → pending k (pgmq.set_vt now id delay q) ≡ pending k q
  pub vt_dead : (now id delay : ℕ) (q : Q) → dead (pgmq.set_vt now id delay q) ≡ dead q
  pub letter_pending :
      (e : DlqEnvelope M X) (q : Q) (k : ℕ) → pending k (pgmq.send_dead e q) ≡ pending k q
  pub letter_dead : (e : DlqEnvelope M X) (q : Q) → dead (pgmq.send_dead e q) ≡ dead q ++ (e ∷ [])

pair_path : {A B : Type 0} {p : A × B} {a : A} → p.0 ≡ a → p ≡ (a, p.1)
pair_path h = rw (sym h) refl

module _ {W Q M X Event : Type 0} (pgmq : Pgmq Q M X) (pending : ℕ → Q → Option ℕ)
    (dead : Q → List (DlqEnvelope M X)) (laws : IsLawful pgmq pending dead)
    (config : EventBusConfig) (from_message : M → Option Event)
    (handler : Event → Exec (Raised X) W (Unit {0})) where
  -- What happens to a message in the run that reads it for the `count`-th time, from the database
  -- `w` and the dead letters `letters` to (w', q') with the result `r`: it stays, for an error that
  -- goes up (a message that does not parse, or a cancellation) or for another try; or it leaves as
  -- its handler's work is committed; or it leaves as a dead letter.
  abbrev pub IsAccounted : ℕ → ℕ → W × List (DlqEnvelope M X) → Option Bool × (W × Q) → Type 0
  IsAccounted k count (w, letters) (r, (w', q')) =
      ((w' ≡ w)
        × (dead q' ≡ letters)
        × (pending k q' ≡ some count)
        × ((r ≡ none) ⊎ (leb config.max_retries count ≡ false)))
      ⊎ ((dead q' ≡ letters)
          × (pending k q' ≡ none)
          × ((event : Event) × (handler event w ≡ (ok tt, w'))))
      ⊎ ((w' ≡ w)
          × (pending k q' ≡ none)
          × (leb config.max_retries count ≡ true)
          × ((e : DlqEnvelope M X) × (e.original_msg_id ≡ k)
              × (e.read_ct ≡ count)
              × (dead q' ≡ letters ++ (e ∷ []))))

  module _ (now : ℕ) (m : QueueMessage M) (event : Event) (w : W) (q : Q) where
    process_fine :
        (handler event w).0 ≡ ok tt
        → process pgmq config handler now m (some event) (w, q)
          ≡ (some true, ((handler event w).1, pgmq.archive m.msg_id q))
    unfolding process handle_and_archive
    process_fine fine = rw fine refl

    process_raised :
        (e : X)
        → (handler event w).0 ≡ err (exception e)
        → process pgmq config handler now m (some event) (w, q)
          ≡ (some true, (w, on_failure pgmq config now m e q))
    unfolding process handle_and_archive
    process_raised e raised = rw raised refl

    pub process_cancelled :
        (handler event w).0 ≡ err cancelled_error
        → process pgmq config handler now m (some event) (w, q) ≡ (none, (w, q))
    unfolding process handle_and_archive
    process_cancelled raised = rw raised refl

  on_failure_spent :
      (now : ℕ) (m : QueueMessage M) (e : X) (q : Q)
      → leb config.max_retries m.read_ct ≡ true
      → on_failure pgmq config now m e q
        ≡ pgmq.archive m.msg_id (pgmq.send_dead (dlq_envelope m e) q)
  unfolding on_failure
  on_failure_spent now m e q spent = rw spent refl

  on_failure_left :
      (now : ℕ) (m : QueueMessage M) (e : X) (q : Q)
      → leb config.max_retries m.read_ct ≡ false
      → on_failure pgmq config now m e q
        ≡ pgmq.set_vt now m.msg_id
            (backoff_seconds m.read_ct config.backoff_base_seconds config.backoff_cap_seconds)
            q
  unfolding on_failure
  on_failure_left now m e q left = rw left refl

  archived : (id : ℕ) (q : Q) → pending id (pgmq.archive id q) ≡ none
  archived id q = grind (arith, laws.archive_pending id q id)

  failure-IsAccounted :
      (now : ℕ) (m : QueueMessage M) (e : X) (w : W) (q : Q)
      → pending m.msg_id q ≡ some m.read_ct
      → IsAccounted m.msg_id m.read_ct
          (w, dead q)
          (some true, (w, on_failure pgmq config now m e q))
  unfolding dlq_envelope
  failure-IsAccounted now m e w q h = elim (Bool-cases (leb config.max_retries m.read_ct)) [
    | inl spent ↦ rw (on_failure_spent now m e q spent) (
        inr (
          inr (
            refl,
            archived _ _,
            spent,
            (dlq_envelope m e, refl, refl, laws.archive_dead _ _ ∙ laws.letter_dead _ _),
          )))
    | inr left ↦
        rw (on_failure_left now m e q left)
          (inl (refl, laws.vt_dead _ _ _ _, laws.vt_pending _ _ _ _ _ ∙ h, inr left))
  ]

  kept_archive :
      (k id : ℕ) (q : Q) → (k == id) ≡ false → pending k (pgmq.archive id q) ≡ pending k q
  kept_archive k id q h = grind (arith, h, laws.archive_pending id q k)

  -- The run of a message that was read, for the message itself and for any other.
  pub process-IsAccounted :
      (now : ℕ) (m : QueueMessage M) (parsed : Option Event) (w : W) (q : Q)
      → pending m.msg_id q ≡ some m.read_ct
      → IsAccounted m.msg_id m.read_ct (w, dead q) (process pgmq config handler now m parsed (w, q))
  unfolding process
  process-IsAccounted now m none w q h = inl (refl, refl, h, inl refl)
  process-IsAccounted now m (some event) w q h = elim (Result-cases (handler event w).0) [
    | inl (_, fine) ↦
        subst (IsAccounted m.msg_id m.read_ct (w, dead q)) (sym (process_fine now m event w q fine))
          (inr (inl (laws.archive_dead _ _, archived _ _, (event, pair_path fine))))
    | inr (cancelled_error, raised) ↦
        subst (IsAccounted m.msg_id m.read_ct (w, dead q))
          (sym (process_cancelled now m event w q raised)) (inl (refl, refl, h, inl refl))
    | inr (exception e, raised) ↦
        subst (IsAccounted m.msg_id m.read_ct (w, dead q))
          (sym (process_raised now m event w q e raised)) (failure-IsAccounted now m e w q h)
  ]

  failure_others :
      (now : ℕ) (m : QueueMessage M) (e : X) (q : Q) (k : ℕ)
      → (k == m.msg_id) ≡ false
      → pending k (on_failure pgmq config now m e q) ≡ pending k q
  failure_others now m e q k h = elim (Bool-cases (leb config.max_retries m.read_ct)) [
    | inl spent ↦
        rw (on_failure_spent now m e q spent)
          (kept_archive k m.msg_id _ h ∙ laws.letter_pending _ q k)
    | inr left ↦ rw (on_failure_left now m e q left) (laws.vt_pending _ _ _ q k)
  ]

  pub process_others :
      (now : ℕ) (m : QueueMessage M) (parsed : Option Event) (w : W) (q : Q) (k : ℕ)
      → (k == m.msg_id) ≡ false
      → pending k (process pgmq config handler now m parsed (w, q)).1.1 ≡ pending k q
  unfolding process
  process_others now m none w q k h = refl
  process_others now m (some event) w q k h = elim (Result-cases (handler event w).0) [
    | inl (_, fine) ↦
        subst (λ s. pending k s.1.1 ≡ pending k q) (sym (process_fine now m event w q fine))
          (kept_archive k m.msg_id q h)
    | inr (cancelled_error, raised) ↦
        subst (λ s. pending k s.1.1 ≡ pending k q) (sym (process_cancelled now m event w q raised))
          refl
    | inr (exception e, raised) ↦
        subst (λ s. pending k s.1.1 ≡ pending k q) (sym (process_raised now m event w q e raised))
          (failure_others now m e q k h)
  ]

  pub run_once_idle :
      (now : ℕ) (w : W) (q : Q)
      → (pgmq.read now config.visibility_timeout_seconds q).0 ≡ none
      → run_once pgmq config from_message handler now (w, q)
        ≡ (some false, (w, (pgmq.read now config.visibility_timeout_seconds q).1))
  unfolding run_once
  run_once_idle now w q idle = rw idle refl

  pub run_once_found :
      (now : ℕ) (w : W) (q : Q) (m : QueueMessage M)
      → (pgmq.read now config.visibility_timeout_seconds q).0 ≡ some m
      → run_once pgmq config from_message handler now (w, q)
        ≡ process pgmq config handler now m
            (from_message m.message)
            (w, (pgmq.read now config.visibility_timeout_seconds q).1)
  unfolding run_once
  run_once_found now w q m found = rw found refl
