-- ===== src/Channels/Bazar/Acknowledged.antt =====
-- services/core/app/adapters/mock_bazar/adapter.py: an acknowledgement in Bazar's vocabulary.
use posnet_adapter.Prelude.{
  String, true, false, some, ◌∷◌, ◌≡◌, refl, ap, leb, Bool-cases, Option-cases, inl, inr, str_eq,
  eq_iff,
}
use posnet_adapter.Prelude.Exec.{ok}
use posnet_adapter.Channels.Json.{Texts, object, field, no_field, text}
use posnet_adapter.Channels.Http.{Response, Client}
use posnet_adapter.Channels.Http.Served.{IsServed, carried_out}
use posnet_adapter.Channels.Rows.{at, alter, at-alter_self}
use posnet_adapter.Channels.Marketplace.Server.{is_valid_ack}
use posnet_adapter.Channels.Bazar.{
  Sale, MockBazarStore, BazarRequest, set_state, BazarLocal, ref_of_sale, with_state,
  set_sale_state,
}
use posnet_adapter.Channels.Bazar.Server.{
  serve_bazar, is_valid_state, unprocessable, not_found_json, respond,
}
use posnet_adapter.Channels.Bazar.Reading.{sale_to_order, ack_to_sale}
use posnet_adapter.Channels.Bazar.Client.{acknowledge_sale}

-- The two tables of words are inverse on the statuses that the hub may acknowledge.
sale_to_order-ack_to_sale :
    (status : String) → is_valid_ack status ≡ true → sale_to_order (ack_to_sale status) ≡ status
unfolding sale_to_order ack_to_sale is_valid_ack
sale_to_order-ack_to_sale status known = elim (Bool-cases (str_eq status "pending")) [
  | inl is ↦ rw ((eq_iff status "pending").0 is) refl
  | inr not_pending ↦ elim (Bool-cases (str_eq status "confirmed")) [
    | inl is ↦ rw ((eq_iff status "confirmed").0 is) refl
    | inr not_confirmed ↦ elim (Bool-cases (str_eq status "fulfilled")) [
      | inl is ↦ rw ((eq_iff status "fulfilled").0 is) refl
      | inr not_fulfilled ↦ elim (Bool-cases (str_eq status "cancelled")) [
        | inl is ↦ rw ((eq_iff status "cancelled").0 is) refl
        | inr not_cancelled ↦
            let no : false ≡ true =
              rw (not_pending, not_confirmed, not_fulfilled, not_cancelled) at known in
            cc
      ]
    ]
  ]
]

module _ {W : Type 0} (t : Texts) (local : BazarLocal) (client : Client BazarRequest W)
    (store_of : W → MockBazarStore) where
  -- What a change of state that the server accepted did.
  state_set :
      (ref state : String) (s s' : MockBazarStore) (a : Response)
      → serve_bazar t local (set_state ref state) s ≡ (a, s')
      → leb 400 a.status_code ≡ false
      → (x : Sale) × (at ref_of_sale ref s'.sales ≡ some x) × (x.state ≡ state)
  unfolding serve_bazar set_sale_state
  state_set ref state s s' a h low = elim (Bool-cases (is_valid_state state)) [
    | inl valid ↦ elim (Option-cases (at ref_of_sale ref s.sales)) [
      | inl missing ↦
          let k : (not_found_json t local "unknown sale ref", s) ≡ (a, s') =
            rw (valid, missing) at h in
          let bad : leb 400 404 ≡ false = rw (← ap (λ x. x.0) k) at low in cc
      | inr (x, there) ↦
          let k : ◌≡◌ {A = Response × MockBazarStore}
              (
                respond t local 200
                    (object (field "ref" (text ref) (field "state" (text state) no_field))),
                record s {
                  sales = alter ref_of_sale ref (with_state state) s.sales;
                  states = (ref, state) ∷ s.states;
                },
              )
              (a, s') =
            rw (valid, there) at h in
          let self = at-alter_self ref_of_sale (with_state state) (λ y. refl) ref s.sales in
          (with_state state x, rw (← ap (λ y. y.1) k, self, there) refl, refl)
    ]
    | inr invalid ↦
        let k : (unprocessable t local, s) ≡ (a, s') = rw invalid at h in
        let bad : leb 400 422 ≡ false = rw (← ap (λ x. x.0) k) at low in cc
  ]

  -- An acknowledgement that returned, with one of the four statuses that the hub may acknowledge,
  -- has put the sale of that reference into a state that reads back as that status.
  pub acknowledge_sale-reads_back :
      IsServed (serve_bazar t local) client store_of
      → (ref status : String) (w w' : W) (u : Unit {0}) → is_valid_ack status ≡ true
      → acknowledge_sale t client ref status w ≡ (ok u, w')
      → (x : Sale) × (at ref_of_sale ref (store_of w').sales ≡ some x)
        × (sale_to_order x.state ≡ status)
  unfolding acknowledge_sale
  acknowledge_sale-reads_back served ref status w w' u known h =
      let (a, e, low) =
        carried_out (serve_bazar t local) client store_of t served
          (set_state ref (ack_to_sale status)) w w' u h in
      let (x, there, is) = state_set ref (ack_to_sale status) (store_of w) (store_of w') a e low in
      (x, there, rw is (sale_to_order-ack_to_sale status known))
