-- ===== src/EventBus/Consumer/Runs.antt =====
-- One run of the consumer's loop: what becomes of a message of the queue.
use mathlib.Core.Path.{subst}
use posnet_adapter.Prelude.{
  ℕ, suc, ◌≡◌, ◌⊎◌, refl, sym, ◌∙◌, Bool, true, false, Option, none, some, List, ◌==◌, Bool-cases,
  Option-cases, inl, inr, ==_iff, ap,
}
use posnet_adapter.Prelude.Exec.{Exec}
use posnet_adapter.EventBus.{EventBusConfig, QueueMessage, DlqEnvelope, Pgmq}
use posnet_adapter.EventBus.Consumer.{Raised, process, run_once}
use posnet_adapter.EventBus.Consumer.Delivery.{
  IsLawful, bump, IsAccounted, process-IsAccounted, process_others, run_once_idle, run_once_found,
}

module _ {W Q M X Event : Type 0} (pgmq : Pgmq Q M X) (pending : ℕ → Q → Option ℕ)
    (dead : Q → List (DlqEnvelope M X)) (laws : IsLawful pgmq pending dead)
    (config : EventBusConfig) (from_message : M → Option Event)
    (handler : Event → Exec (Raised X) W (Unit {0})) where
  abbrev step : ℕ → W × Q → Option Bool × (W × Q)
  step now s = run_once pgmq config from_message handler now s

  abbrev vt : ℕ
  vt = config.visibility_timeout_seconds

  pub read_same :
      (now : ℕ) (q : Q) (k : ℕ) (m : QueueMessage M)
      → (pgmq.read now vt q).0 ≡ some m
      → (k == m.msg_id) ≡ true
      → pending k (pgmq.read now vt q).1 ≡ some m.read_ct
  read_same now q k m found same = laws.read_pending now vt q k ∙ (rw (found, bump, same) refl)

  pub read_other :
      (now : ℕ) (q : Q) (k : ℕ) (m : QueueMessage M)
      → (pgmq.read now vt q).0 ≡ some m
      → (k == m.msg_id) ≡ false
      → pending k (pgmq.read now vt q).1 ≡ pending k q
  read_other now q k m found other = laws.read_pending now vt q k ∙ (rw (found, bump, other) refl)

  pub read_none :
      (now : ℕ) (q : Q) (k : ℕ)
      → (pgmq.read now vt q).0 ≡ none
      → pending k (pgmq.read now vt q).1 ≡ pending k q
  read_none now q k idle = laws.read_pending now vt q k ∙ (rw (idle, bump) refl)

  pub IsAccounted-as :
      {k k' c c' : ℕ} {w : W} {d d' : List (DlqEnvelope M X)} {t t' : Option Bool × (W × Q)}
      → k ≡ k'
      → c ≡ c'
      → d ≡ d'
      → t ≡ t'
      → IsAccounted pgmq pending dead laws config from_message handler k c (w, d) t
      → IsAccounted pgmq pending dead laws config from_message handler k' c' (w, d') t'
  IsAccounted-as {k} {k'} {c} {c'} {w} {d} {d'} {t} {t'} ek ec ed et h =
      subst (λ x. IsAccounted pgmq pending dead laws config from_message handler k' c' (w, d') x) et
        (subst (λ x. IsAccounted pgmq pending dead laws config from_message handler k' c' (w, x) t)
          ed
          (subst (λ x. IsAccounted pgmq pending dead laws config from_message handler k' x (w, d) t)
            ec
            (subst
              (λ x. IsAccounted pgmq pending dead laws config from_message handler x c (w, d) t) ek
              h)))

  pub read_times :
      (now : ℕ) (q : Q) (k n : ℕ) (m : QueueMessage M)
      → (pgmq.read now vt q).0 ≡ some m
      → k ≡ m.msg_id
      → pending k q ≡ some n
      → m.read_ct ≡ suc n
  read_times now q k n m found same h =
      let (n', held, count) = laws.read_count now vt q m found in
      let e : some n' ≡ some n = sym held ∙ ap (λ x. pending x q) (sym same) ∙ h in cc

  abbrev pub Fate : ℕ → ℕ → W × Q → Option Bool × (W × Q) → Type 0
  Fate k n s t =
      (pending k t.1.1 ≡ some n)
      ⊎ IsAccounted pgmq pending dead laws config from_message handler k (suc n) (s.0, dead s.1) t

  -- What a run, whatever its handler does, can make of a message of the queue that was read `n`
  -- times: the message is not the one that is read; or it is read, and stays, with no change to the
  -- database, for a parse error or a cancellation, which goes up, or for another try; or it leaves
  -- the queue as the work that its handler did on the database is committed; or it leaves as one
  -- dead letter, with no change to the database, after a number of reads that is not below
  -- `max_retries`.
  pub run_once_accounted :
      (now : ℕ) (w : W) (q : Q) (k n : ℕ) → pending k q ≡ some n → Fate k n (w, q) (step now (w, q))
  run_once_accounted now w q k n h = elim (Option-cases (pgmq.read now vt q).0) [
    | inl idle ↦ inl (
        subst (λ t. pending k t.1.1 ≡ some n)
          (sym (run_once_idle pgmq pending dead laws config from_message handler now w q idle))
          (read_none now q k idle ∙ h))
    | inr (m, found) ↦ elim (Bool-cases (k == m.msg_id)) [
      | inl same ↦ inr (
          IsAccounted-as (sym ((==_iff k m.msg_id).0 same))
            (read_times now q k n m found ((==_iff k m.msg_id).0 same) h) (laws.read_dead now vt q)
            (sym
              (run_once_found pgmq pending dead laws config from_message handler now w q m found))
            (process-IsAccounted pgmq pending dead laws config from_message handler now m
              (from_message m.message) w (pgmq.read now vt q).1
              (read_same now q m.msg_id m found ((==_iff m.msg_id m.msg_id).1 refl))))
      | inr other ↦ inl (
          subst (λ t. pending k t.1.1 ≡ some n)
            (sym
              (run_once_found pgmq pending dead laws config from_message handler now w q m found))
            (process_others pgmq pending dead laws config from_message handler now m
                (from_message m.message) w (pgmq.read now vt q).1 k other
              ∙ read_other now q k m found other
              ∙ h))
    ]
  ]

  malformed_found :
      (now : ℕ) (w : W) (q : Q) (m : QueueMessage M)
      → (pgmq.read now vt q).0 ≡ some m
      → from_message m.message ≡ none
      → step now (w, q) ≡ (none, (w, (pgmq.read now vt q).1))
  unfolding process
  malformed_found now w q m found bad =
      run_once_found pgmq pending dead laws config from_message handler now w q m found
      ∙ (rw bad refl)

  -- A run that reads a message which does not parse raises, and the message stays in the queue with
  -- one more read, however often it was read before: the retry limit does not apply to it, and no
  -- dead letter is written.
  pub run_once_malformed :
      (now : ℕ) (w : W) (q : Q) (m : QueueMessage M) (n : ℕ)
      → (pgmq.read now vt q).0 ≡ some m
      → from_message m.message ≡ none
      → pending m.msg_id q ≡ some n
      → let (r, (w', q')) = step now (w, q) in
        (r ≡ none) × (w' ≡ w) × (dead q' ≡ dead q) × (pending m.msg_id q' ≡ some (suc n))
  run_once_malformed now w q m n found bad held =
      subst
        (λ (t : Option Bool × (W × Q)).
          (t.0 ≡ none)
          × (t.1.0 ≡ w)
          × (dead t.1.1 ≡ dead q)
          × (pending m.msg_id t.1.1 ≡ some (suc n)))
        (sym (malformed_found now w q m found bad))
        (
          refl,
          refl,
          laws.read_dead now vt q,
          read_same now q m.msg_id m found ((==_iff m.msg_id m.msg_id).1 refl)
              ∙ ap some (read_times now q m.msg_id n m found refl held),
        )
