-- ===== src/EventBus/Consumer/Bounded.antt =====
-- The consumer's loop over any number of runs: the number of attempts.
use mathlib.Core.Path.{subst}
use posnet_adapter.Prelude.{
  ℕ, suc, ◌<◌, ◌≤◌, ◌≡◌, refl, sym, ◌∙◌, Bool, true, Option, none, some, List, [], ◌∷◌, ◌==◌, arith,
  All, All-append, Bool-cases, Option-cases, inl, inr, is_some, ==_iff,
}
use posnet_adapter.Prelude.Exec.{err, Exec, Result-cases}
use posnet_adapter.EventBus.{EventBusConfig, QueueMessage, DlqEnvelope, Pgmq}
use posnet_adapter.EventBus.Consumer.{
  Raised, exception, cancelled_error, handle_and_archive, process, run_once,
}
use posnet_adapter.EventBus.Consumer.Delivery.{
  IsLawful, IsAccounted, process-IsAccounted, process_others, run_once_idle, run_once_found,
}
use posnet_adapter.EventBus.Consumer.Runs.{run_once_accounted, read_none, read_other, read_same}

module _ {W Q M X Event : Type 0} (pgmq : Pgmq Q M X) (pending : ℕ → Q → Option ℕ)
    (dead : Q → List (DlqEnvelope M X)) (laws : IsLawful pgmq pending dead)
    (config : EventBusConfig) (from_message : M → Option Event)
    (handler : Event → Exec (Raised X) W (Unit {0})) where
  abbrev step : ℕ → W × Q → Option Bool × (W × Q)
  step now s = run_once pgmq config from_message handler now s

  -- Runs one after another, at the given times; a validation error or a cancellation ends the
  -- process, which then starts again.
  abbrev pub run_all : List ℕ → W × Q → W × Q
  run_all [] s = s
  run_all (now ∷ times) s = run_all times (step now s).1

  abbrev vt : ℕ
  vt = config.visibility_timeout_seconds

  -- Every message of the queue has been tried less often than `max_retries`, and every dead letter
  -- exactly that often.
  pub record IsBounded (q : Q) : Type 0 where
    pub tries : (k n : ℕ) → pending k q ≡ some n → n < config.max_retries
    pub letters : All (λ e. e.read_ct ≡ config.max_retries) (dead q)

  -- A message that is not in the queue does not come in.
  none_stays :
      (now : ℕ) (w : W) (q : Q) (k : ℕ)
      → pending k q ≡ none
      → pending k (step now (w, q)).1.1 ≡ none
  none_stays now w q k h = elim (Option-cases (pgmq.read now vt q).0) [
    | inl idle ↦
        subst (λ t. pending k t.1.1 ≡ none)
          (sym (run_once_idle pgmq pending dead laws config from_message handler now w q idle))
          (read_none pgmq pending dead laws config from_message handler now q k idle ∙ h)
    | inr (m, found) ↦ elim (Bool-cases (k == m.msg_id)) [
      | inl same ↦
          let (n, held, _) = laws.read_count now vt q m found in
          let e : k ≡ m.msg_id = (==_iff k m.msg_id).0 same in
          let t : pending m.msg_id q ≡ none = subst (λ x. pending x q ≡ none) e h in cc
      | inr other ↦
          subst (λ t. pending k t.1.1 ≡ none)
            (sym
              (run_once_found pgmq pending dead laws config from_message handler now w q m found))
            (process_others pgmq pending dead laws config from_message handler now m
                (from_message m.message) w (pgmq.read now vt q).1 k other
              ∙ read_other pgmq pending dead laws config from_message handler now q k m found other
              ∙ h)
    ]
  ]

  process_result :
      (now : ℕ) (m : QueueMessage M) (parsed : Option Event) (w : W) (q : Q)
      → is_some parsed ≡ true
      → ((event : Event) → ¬ ((handler event w).0 ≡ err cancelled_error))
      → (process pgmq config handler now m parsed (w, q)).0 ≡ some true
  unfolding process handle_and_archive
  process_result now m none w q h runs = cc
  process_result now m (some event) w q h runs = elim (Result-cases (handler event w).0) [
    | inl (_, fine) ↦ rw fine refl
    | inr (exception e, raised) ↦ rw raised refl
    | inr (cancelled_error, raised) ↦ absurd (runs event raised)
  ]

  abbrev IsExact : List (DlqEnvelope M X) → Type 0
  IsExact letters = All (λ e. e.read_ct ≡ config.max_retries) letters

  letters_after :
      (k c : ℕ) (w : W) (d : List (DlqEnvelope M X)) (t : Option Bool × (W × Q))
      → c ≤ config.max_retries
      → IsExact d
      → IsAccounted pgmq pending dead laws config from_message handler k c (w, d) t
      → IsExact (dead t.1.1)
  letters_after k c w d (r, (w', q')) fits exact (inl (_, same, _, _)) =
      subst IsExact (sym same) exact
  letters_after k c w d (r, (w', q')) fits exact (inr (inl (same, _, _))) =
      subst IsExact (sym same) exact
  letters_after k c w d (r, (w', q')) fits exact (inr (inr (_, _, spent, (e, _, count, sent)))) =
      subst IsExact (sym sent)
        (All-append _ d (e ∷ []) exact (ground (arith, spent, count, fits), tt))

  step_letters : (now : ℕ) (w : W) (q : Q) → IsBounded q → IsExact (dead (step now (w, q)).1.1)
  step_letters now w q bounded = elim (Option-cases (pgmq.read now vt q).0) [
    | inl idle ↦
        subst (λ t. IsExact (dead t.1.1))
          (sym (run_once_idle pgmq pending dead laws config from_message handler now w q idle))
          (subst IsExact (sym (laws.read_dead now vt q)) bounded.letters)
    | inr (m, found) ↦
        let (n, held, count) = laws.read_count now vt q m found in
        let below = bounded.tries m.msg_id n held in
        subst (λ t. IsExact (dead t.1.1))
          (sym (run_once_found pgmq pending dead laws config from_message handler now w q m found))
          (letters_after m.msg_id m.read_ct w (dead (pgmq.read now vt q).1) _
            (omega (arith, below, count))
            (subst IsExact (sym (laws.read_dead now vt q)) bounded.letters)
            (process-IsAccounted pgmq pending dead laws config from_message handler now m
              (from_message m.message) w (pgmq.read now vt q).1
              (read_same pgmq pending dead laws config from_message handler now q m.msg_id m found
                ((==_iff m.msg_id m.msg_id).1 refl))))
  ]

  module _ (parses : (m : M) → is_some (from_message m) ≡ true)
      (runs : (event : Event) (w : W) → ¬ ((handler event w).0 ≡ err cancelled_error)) where
    step_result : (now : ℕ) (w : W) (q : Q) → is_some (step now (w, q)).0 ≡ true
    step_result now w q = elim (Option-cases (pgmq.read now vt q).0) [
      | inl idle ↦
          subst (λ t. is_some t.0 ≡ true)
            (sym (run_once_idle pgmq pending dead laws config from_message handler now w q idle))
            refl
      | inr (m, found) ↦
          subst (λ t. is_some t.0 ≡ true)
            (sym
              (run_once_found pgmq pending dead laws config from_message handler now w q m found))
            (rw
              (process_result now m (from_message m.message) w _ (parses m.message) (λ e. runs e w))
              refl)
    ]

    step_tries :
        (now : ℕ) (w : W) (q : Q)
        → IsBounded q
        → (k n : ℕ) → pending k (step now (w, q)).1.1 ≡ some n
        → n < config.max_retries
    step_tries now w q bounded k n h = elim (Option-cases (pending k q)) [
      | inl absent ↦ let t = none_stays now w q k absent in cc
      | inr (c, held) ↦
          let r = step_result now w q in
          let t = bounded.tries k c held in
          elim (run_once_accounted pgmq pending dead laws config from_message handler now w q k c
            held) [
              | inl untouched ↦ let e : n ≡ c = cc in omega (arith, e, t)
              | inr (inl (_, _, kept, inl failed)) ↦ cc
              | inr (inl (_, _, kept, inr left)) ↦ let e : n ≡ suc c = cc in ground (arith, e, left)
              | inr (inr (inl (_, gone, _))) ↦ cc
              | inr (inr (inr (_, gone, _, _))) ↦ cc
            ]
    ]

    step-IsBounded : (now : ℕ) (w : W) (q : Q) → IsBounded q → IsBounded (step now (w, q)).1.1
    step-IsBounded now w q bounded = record {
      tries = step_tries now w q bounded;
      letters = step_letters now w q bounded;
    }

    -- If every message parses, and no run is cancelled after its read or fails in `_on_failure`,
    -- then any runs, whatever the handler does and whichever exceptions it raises, keep this: every
    -- message of the queue has been tried less often than `max_retries`, and every dead letter
    -- exactly that often.
    pub run_all-IsBounded :
        (times : List ℕ) (w : W) (q : Q) → IsBounded q → IsBounded (run_all times (w, q)).1
    run_all-IsBounded [] w q bounded = bounded
    run_all-IsBounded (now ∷ times) w q bounded =
        run_all-IsBounded times (step now (w, q)).1.0 (step now (w, q)).1.1
          (step-IsBounded now w q bounded)
