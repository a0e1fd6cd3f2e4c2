-- ===== src/EventBus/Relay/Drain.antt =====
-- What the relay promises over any number of runs.
use mathlib.Core.Path.{subst}
use posnet_adapter.Prelude.{
  take, drop, take_add, drop_add, ℕ, zero, suc, ◌+◌, ◌*◌, ◌≡◌, refl, sym, ap, ◌∙◌, Bool, true,
  false, List, [], ◌∷◌, ◌++◌, map, select, ◌==◌, arith, All, Bool-cases, inl, inr,
}
use posnet_adapter.Tables.{OutboxEvent}
use posnet_adapter.EventBus.Relay.{
  Envelope, is_free, mark_row, mark_published, row_id, send_all, run_once,
}

-- With no other worker.
abbrev pub unlocked : ℕ → Bool
unlocked _ = false

abbrev pub waiting : List OutboxEvent → List OutboxEvent
waiting rows = select (is_free unlocked) rows

-- Each id stands on one row: the table's primary key.
abbrev pub IsKeyed : List OutboxEvent → Type 0
IsKeyed [] = Unit {0}
IsKeyed (row ∷ rows) = All (λ r. (r.id == row.id) ≡ false) rows × IsKeyed rows

mark_other :
    (k : ℕ) (ids : List ℕ) (rows : List OutboxEvent)
    → All (λ r. (r.id == k) ≡ false) rows
    → mark_published (k ∷ ids) rows ≡ mark_published ids rows
mark_other k ids [] h = refl
mark_other k ids (row ∷ rows) h = rw (h.0, mark_other k ids rows h.1) refl

mark_nothing : (rows : List OutboxEvent) → mark_published [] rows ≡ rows
mark_nothing [] = refl
mark_nothing (row ∷ rows) = ap (λ x. row ∷ x) (mark_nothing rows)

waiting_published :
    (row : OutboxEvent) (rows : List OutboxEvent)
    → row.published ≡ true
    → waiting (row ∷ rows) ≡ waiting rows
waiting_published row rows h = ground (arith, h)

waiting_free :
    (row : OutboxEvent) (rows : List OutboxEvent)
    → row.published ≡ false
    → waiting (row ∷ rows) ≡ row ∷ waiting rows
waiting_free row rows h = ground (arith, h)

mark_row_published :
    (ids : List ℕ) (row : OutboxEvent) → row.published ≡ true → (mark_row ids row).published ≡ true
mark_row_published ids row h = ground (arith, h)

mark_row_first : (row : OutboxEvent) (ids : List ℕ) → (mark_row (row.id ∷ ids) row).published ≡ true
mark_row_first row ids = ground arith

abbrev ids_of : ℕ → List OutboxEvent → List ℕ
ids_of n rows = map row_id (take n rows)

-- The batch is the head of the waiting rows, and its marking leaves the others waiting, in order.
waiting_after :
    (n : ℕ) (rows : List OutboxEvent)
    → IsKeyed rows
    → waiting (mark_published (ids_of n (waiting rows)) rows) ≡ drop n (waiting rows)
waiting_after zero [] h = refl
waiting_after (suc n) [] h = refl
waiting_after zero (row ∷ rows) h = ap waiting (mark_nothing (row ∷ rows))
waiting_after (suc n) (row ∷ rows) h = elim (Bool-cases row.published) [
  | inl done ↦
      let e = waiting_published row rows done in
      ap (λ ws. waiting (mark_published (ids_of (suc n) ws) (row ∷ rows))) e
      ∙ waiting_published _ (mark_published (ids_of (suc n) (waiting rows)) rows)
          (mark_row_published _ row done)
      ∙ waiting_after (suc n) rows h.1
      ∙ ap (drop (suc n)) (sym e)
  | inr free ↦
      let e = waiting_free row rows free in
      ap (λ ws. waiting (mark_published (ids_of (suc n) ws) (row ∷ rows))) e
      ∙ waiting_published _ (mark_published (row.id ∷ ids_of n (waiting rows)) rows)
          (mark_row_first row (ids_of n (waiting rows)))
      ∙ ap waiting (mark_other row.id (ids_of n (waiting rows)) rows h.0)
      ∙ waiting_after n rows h.1
      ∙ ap (drop (suc n)) (sym e)
]

mark_row_id : (ids : List ℕ) (row : OutboxEvent) → (mark_row ids row).id ≡ row.id
mark_row_id ids row = ground arith

mark_others :
    (k : ℕ) (ids : List ℕ) (rows : List OutboxEvent)
    → All (λ r. (r.id == k) ≡ false) rows
    → All (λ r. (r.id == k) ≡ false) (mark_published ids rows)
mark_others k ids [] h = tt
mark_others k ids (row ∷ rows) h =
    (ap (λ x. x == k) (mark_row_id ids row) ∙ h.0, mark_others k ids rows h.1)

mark-IsKeyed :
    (ids : List ℕ) (rows : List OutboxEvent) → IsKeyed rows → IsKeyed (mark_published ids rows)
mark-IsKeyed ids [] h = tt
mark-IsKeyed ids (row ∷ rows) h = (
  subst (λ k. All (λ r. (r.id == k) ≡ false) (mark_published ids rows)) (sym (mark_row_id ids row))
      (mark_others row.id ids rows h.0),
  mark-IsKeyed ids rows h.1,
)

zero_mul : (n : ℕ) → zero ≡ zero * n
zero_mul n = omega arith

module _ {Q : Type 0} (send : Envelope → Q → Q) (batch : ℕ) where
  send_all-append :
      (xs ys : List OutboxEvent) (q : Q)
      → send_all send (xs ++ ys) q ≡ send_all send ys (send_all send xs q)
  send_all-append [] ys q = refl
  send_all-append (x ∷ xs) ys q = send_all-append xs ys _

  -- Runs of one relay, one after another.
  abbrev pub runs : ℕ → List OutboxEvent × Q → List OutboxEvent × Q
  runs zero s = s
  runs (suc k) s = runs k (run_once send unlocked batch s).1

  -- After `k` runs of a relay that works alone, the first `k * batch` of the rows that waited have
  -- been sent, each once and in the order of `seq`, and exactly the rest is still waiting.
  pub runs_lem :
      (k : ℕ) (rows : List OutboxEvent) (q : Q)
      → IsKeyed rows
      → ((runs k (rows, q)).1 ≡ send_all send (take (k * batch) (waiting rows)) q)
        × (waiting (runs k (rows, q)).0 ≡ drop (k * batch) (waiting rows))
  unfolding run_once
  runs_lem zero rows q h = (
    ap (λ n. send_all send (take n (waiting rows)) q) (zero_mul batch),
    ap (λ n. drop n (waiting rows)) (zero_mul batch),
  )
  runs_lem (suc k) rows q h =
      let found = take batch (waiting rows) in
      let rows' = mark_published (map row_id found) rows in
      let (sent, left) = runs_lem k rows' (send_all send found q) (mark-IsKeyed _ rows h) in
      let after = waiting_after batch rows h in
      let count : suc k * batch ≡ batch + k * batch = omega arith in
      (
        sent
            ∙ ap (λ ws. send_all send (take (k * batch) ws) (send_all send found q)) after
            ∙ sym (send_all-append found (take (k * batch) (drop batch (waiting rows))) q)
            ∙ ap (λ ws. send_all send ws q) (sym (take_add batch (k * batch) (waiting rows)))
            ∙ ap (λ n. send_all send (take n (waiting rows)) q) (sym count),
        left
            ∙ ap (drop (k * batch)) after
            ∙ drop_add batch (k * batch) (waiting rows)
            ∙ ap (λ n. drop n (waiting rows)) (sym count),
      )
