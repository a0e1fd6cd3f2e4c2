-- ===== src/OrderIngest/Ingest.antt =====
-- `ingest_channel_order`: every outcome, and what a second delivery finds.
use posnet_adapter.Prelude.{
  ℕ, String, ◌≡◌, refl, ap, ◌∙◌, true, false, Bool-cases, ◌⊎◌, none, List, [], ◌∷◌, ◌++◌, arith,
  Option-cases, inl, inr, find?, is_some, eq_iff,
}
use posnet_adapter.Prelude.Exec.{Result, ok, err}
use posnet_adapter.CanonicalModel.{CanonicalOrder}
use posnet_adapter.Tables.{
  too_long, ChannelOrder, OrderState, received, reserved, rejected, Db, Scope, visible, Error,
}
use posnet_adapter.Inventory.Journal.{IsConsistent}
use posnet_adapter.OrderIngest.{
  online_warehouse_ids, reserve_order, has_parents, same_order, order_at, order_row, set_state,
  mark_order, is_rejection, rejection, reservation, redelivery, ingest_channel_order,
}
use posnet_adapter.OrderIngest.Reserves.{Reserves}
use posnet_adapter.OrderIngest.Order.{
  demand, Outcome, reserve_order-Outcome, reserve_order-IsConsistent,
}

module _ (scope : Scope) (tenant channel : ℕ) (order : CanonicalOrder) where
  abbrev id : String
  id = order.channel_order_id

  -- The state in which the order is on record, in a given state.
  abbrev pub with_order : OrderState → Db → Db
  with_order state db = record db {
    channel_orders = db.channel_orders ++ order_row tenant channel order state ∷ [];
  }

  set_state-append :
      (state : OrderState) (rows : List ChannelOrder)
      → find? (same_order channel id) rows ≡ none
      → set_state channel id state (rows ++ order_row tenant channel order received ∷ [])
        ≡ rows ++ order_row tenant channel order state ∷ []
  set_state-append state [] h = ground (arith, eq_iff id id)
  set_state-append state (row ∷ rows) h = ground (arith, set_state-append state rows)

  pub order_at-append :
      (state : OrderState) (rows : List ChannelOrder)
      → is_some (find? (same_order channel id) (rows ++ order_row tenant channel order state ∷ []))
        ≡ true
  order_at-append state [] = ground (arith, eq_iff id id)
  order_at-append state (row ∷ rows) = ground (arith, order_at-append state rows)

  with_order-IsConsistent :
      (state : OrderState) (db : Db) → IsConsistent db → IsConsistent (with_order state db)
  with_order-IsConsistent state db h = record {
    sound = h.sound;
    unique = h.unique;
    journaled = h.journaled;
  }

  -- A redelivery: nothing changes.
  abbrev pub IsRedelivery : Db → Type 0
  IsRedelivery db =
      (is_some (order_at channel id db) ≡ true)
      × (ingest_channel_order scope tenant channel order db ≡ (ok (redelivery id), db))

  -- An order of a tenant or a channel that is not there is answered like a redelivery, though it is
  -- not on record: nothing changes.
  abbrev pub IsUnlisted : Db → Type 0
  IsUnlisted db =
      (order_at channel id db ≡ none)
      × (has_parents tenant channel db ≡ false)
      × (ingest_channel_order scope tenant channel order db ≡ (ok (redelivery id), db))

  -- A rejection: the order is on record as rejected, and nothing else changes.
  abbrev pub IsRefused : Db → Type 0
  IsRefused db =
      (order_at channel id db ≡ none)
      × (e : Error) × (is_rejection e ≡ true)
      × (ingest_channel_order scope tenant channel order db
          ≡ (ok (rejection id e), with_order rejected db))

  -- A reservation: the order is on record as reserved, and exactly its demand is reserved.
  abbrev pub IsAccepted : Db → Type 0
  IsAccepted db =
      (order_at channel id db ≡ none)
      × (db' : Db) × Reserves (online_warehouse_ids scope tenant db)
          (demand scope tenant db order.lines) (with_order received db) db'
      × IsConsistent db'
      × (ingest_channel_order scope tenant channel order db ≡ (
        ok (reservation id),
        record db' { channel_orders = (with_order reserved db).channel_orders },
      ))

  marked :
      (state : OrderState) (db db' : Db)
      → order_at channel id db ≡ none
      → db'.channel_orders ≡ (with_order received db).channel_orders
      → mark_order channel id state db'
        ≡ record db' { channel_orders = (with_order state db).channel_orders }
  marked state db db' free e =
      ap (λ rows. record db' { channel_orders = rows })
        (ap (set_state channel id state) e ∙ set_state-append state db.channel_orders free)

  redelivery_lem :
      (db : Db)
      → visible scope tenant ≡ true
      → too_long 200 id ≡ false
      → is_some (order_at channel id db) ≡ true
      → ingest_channel_order scope tenant channel order db ≡ (ok (redelivery id), db)
  unfolding ingest_channel_order
  redelivery_lem db own fits taken = rw (fits, own, taken) refl

  module _ (db : Db) (h : IsConsistent db) (own : visible scope tenant ≡ true)
      (fits : too_long 200 id ≡ false) where
    reserving :
        order_at channel id db ≡ none
        → has_parents tenant channel db ≡ true
        → (run : Result Error (Unit {0}) × Db)
        → run ≡ reserve_order scope tenant order (with_order received db)
        → Outcome
            (online_warehouse_ids scope tenant db)
            (demand scope tenant db order.lines)
            (with_order received db)
            run
        → IsConsistent run.1
        → IsRefused db ⊎ IsAccepted db
    unfolding ingest_channel_order
    reserving free known (ok tt', db') e kept k = inr (
      free,
      db',
      kept,
      k,
      rw (fits, own, free, known, ← e)
          (ap (λ d. (ok (reservation id), d)) (marked reserved db db' free kept.orders)),
    )
    reserving free known (err x, db') e kept k = inl (
      free,
      x,
      kept,
      rw (fits, own, free, known, ← e, kept)
          (ap (λ d. (ok (rejection id x), d))
            (marked rejected db (with_order received db) free refl)),
    )

    -- Where the stock is consistent, the session may write for the tenant and the order's id has at
    -- most 200 characters, every delivery returns. A redelivery changes nothing, nor does an order
    -- of a tenant or a channel that is not there, which is answered like one; a rejection leaves
    -- only the order's record; a reservation reserves exactly the order's demand, of each variant,
    -- in the tenant's online warehouses only, and leaves the quantities on hand, and keeps the
    -- stock consistent.
    pub ingest_outcome : IsRedelivery db ⊎ (IsUnlisted db ⊎ (IsRefused db ⊎ IsAccepted db))
    unfolding ingest_channel_order online_warehouse_ids
    ingest_outcome = elim (Option-cases (order_at channel id db)) [
      | inl free ↦ elim (Bool-cases (has_parents tenant channel db)) [
        | inl known ↦ inr (
            inr (
              reserving free known (reserve_order scope tenant order (with_order received db)) refl
                (reserve_order-Outcome scope tenant order (with_order received db)
                  (with_order-IsConsistent received db h))
                (reserve_order-IsConsistent scope tenant order (with_order received db)
                  (with_order-IsConsistent received db h))))
        | inr unknown ↦ inr (inl (free, unknown, rw (fits, own, free, unknown) refl))
      ]
      | inr (row, taken) ↦ inl (rw taken refl, rw (fits, own, taken) refl)
    ]

    -- However the first delivery ended, a second one is a redelivery: it changes nothing, and has
    -- nothing to acknowledge.
    pub ingest_twice :
        let again = (ingest_channel_order scope tenant channel order db).1 in
        ingest_channel_order scope tenant channel order again ≡ (ok (redelivery id), again)
    ingest_twice = elim ingest_outcome [
      | inl (_, e) ↦ rw e e
      | inr (inl (_, _, e)) ↦ rw e e
      | inr (inr (inl (_, _, _, e))) ↦ rw e (
          redelivery_lem (with_order rejected db) own fits
            (order_at-append rejected db.channel_orders))
      | inr (inr (inr (_, db', _, _, e))) ↦
          rw e (redelivery_lem _ own fits (order_at-append reserved db.channel_orders))
    ]
