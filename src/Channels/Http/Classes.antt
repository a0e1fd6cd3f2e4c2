-- ===== src/Channels/Http/Classes.antt =====
-- Which error a status gives (`_raise_for_status`), and what a request that returned has met.
use posnet_adapter.Prelude.{
  ℕ, String, Bool, true, false, ◌||◌, not, Option, none, some, leb, ◌==◌, ◌≡◌, refl, arith, ◌≤◌,
  ◌<◌, ◌⊎◌, inl, inr, Bool-cases, str_eq,
}
use posnet_adapter.Prelude.Exec.{Result, ok, err, Exec, lift, ◌>>◌, Result-cases}
use posnet_adapter.Adapter.Errors.{
  rate_limit, AdapterError, Failure, adapter_error, is_retryable, is_excluded,
}
use posnet_adapter.Channels.Json.{Json, Texts, or_error}
use posnet_adapter.Channels.Http.{
  Response, NetworkError, Client, sent, timeout, transport, too_many, raise_for_status,
  send_request, request, limit_error,
}

-- The statuses after which the adapter's callers try again.
abbrev pub is_transient : ℕ → Bool
is_transient s = leb 500 s || s == 429

-- A header "Retry-After" that `float` reads, or none.
abbrev pub IsReadable : Texts → Option String → Type 0
IsReadable t none = Unit
IsReadable t (some s) = (str_eq s "" ≡ true) ⊎ ((seconds : ℕ) × (t.parse_seconds s ≡ some seconds))

-- What a status does: below 400 nothing; a transient one raises an error that is retried, and that
-- the breaker counts; any other one raises an error that neither retries nor counts.
abbrev pub IsClassified : ℕ → Result Failure (Unit {0}) → Type 0
IsClassified s (ok _) = s < 400
IsClassified s (err f) =
    (400 ≤ s)
    × (e : AdapterError) × (f ≡ adapter_error e)
    × (is_retryable e.kind ≡ is_transient s)
    × (is_excluded f ≡ not (is_transient s))

too_many-retryable :
    (t : Texts) (h : Option String)
    → IsReadable t h
    → (e : AdapterError) × (too_many t h ≡ adapter_error e) × (e.kind ≡ rate_limit)
too_many-retryable t none r = (_, refl, refl)
too_many-retryable t (some s) (inl empty) = (limit_error none, rw empty refl, refl)
too_many-retryable t (some s) (inr (seconds, read)) = elim (Bool-cases (str_eq s "")) [
  | inl empty ↦ (limit_error none, rw empty refl, refl)
  | inr full ↦ (limit_error (some seconds), rw (full, read) refl, refl)
]

limited :
    (t : Texts) (a : Response)
    → IsReadable t a.retry_after
    → (a.status_code == 429) ≡ true
    → IsClassified a.status_code (err (too_many t a.retry_after))
limited t a readable is =
    let (e, made, kind) = too_many-retryable t a.retry_after readable in
    rw made
      (ground (arith, is), e, refl, rw kind (ground (arith, is)), rw kind (ground (arith, is)))

-- A response below 400 raises nothing; one of 500 and more, and a 429, raises an adapter error that
-- is retried and that the breaker counts; any other one raises an adapter error that is not retried
-- and that the breaker leaves out: provided a "Retry-After" header that comes with it is a number.
pub raise_for_status-IsClassified :
    (t : Texts) (a : Response)
    → IsReadable t a.retry_after
    → IsClassified a.status_code (raise_for_status t a)
unfolding raise_for_status
raise_for_status-IsClassified t a readable = elim (Bool-cases (leb 500 a.status_code)) [
  | inl server ↦ rw server (ground (arith, server), _, refl, rw server refl, rw server refl)
  | inr lower ↦ elim (Bool-cases (a.status_code == 429)) [
    | inl is ↦ rw (lower, is) (limited t a readable is)
    | inr not_429 ↦ elim (Bool-cases (a.status_code == 401 || a.status_code == 403)) [
      | inl forbidden ↦
          rw (lower, not_429, forbidden)
            (ground (arith, forbidden), _, refl, rw (lower, not_429) refl, rw (lower, not_429) refl)
      | inr allowed ↦ elim (Bool-cases (leb 400 a.status_code)) [
        | inl client ↦
            rw (lower, not_429, allowed, client)
              (ground (arith, client), _, refl, rw (lower, not_429) refl, rw (lower, not_429) refl)
        | inr fine ↦ rw (lower, not_429, allowed, fine) (ground (arith, fine))
      ]
    ]
  ]
]

-- A response that raises nothing has a status below 400.
pub raise_for_status_fine :
    (t : Texts) (a : Response) (u : Unit {0})
    → raise_for_status t a ≡ ok u
    → leb 400 a.status_code ≡ false
unfolding raise_for_status
raise_for_status_fine t a u h = ground (arith, h)

module _ {R W : Type 0} (client : Client R W) (t : Texts) where
  pub send_met :
      (r : R) (w w' : W) (a : Response)
      → send_request client r w ≡ (ok a, w')
      → client r w ≡ (ok a, w')
  send_met r w w' a h = met (client r w) h
    where
      met :
          (x : Result NetworkError Response × W)
          → ◌≡◌ {A = Result Failure Response × W} (sent x.0, x.1) (ok a, w')
          → x ≡ (ok a, w')
      met (ok b, v) h = cc
      met (err (timeout e), v) h = cc
      met (err (transport e), v) h = cc

  abbrev rest_of : Response → Exec Failure W Json
  rest_of a = lift (raise_for_status t a) >> lift (or_error a.body)

  finished :
      (a : Response) (v w' : W) (j : Json)
      → rest_of a v ≡ (ok j, w')
      → (leb 400 a.status_code ≡ false) × (a.body ≡ some j) × (v ≡ w')
  finished a v w' j h = elim (Result-cases (raise_for_status t a)) [
    | inl (u, fine) ↦
        let body : ◌≡◌ {A = Result Failure Json × W} (or_error a.body, v) (ok j, w') =
          rw fine at h in
        (raise_for_status_fine t a u fine, given a.body body, cc)
    | inr (e, bad) ↦
        let t : ◌≡◌ {A = Result Failure Json × W} (err e, v) (ok j, w') = rw bad at h in cc
  ]
    where
      given :
          (o : Option Json)
          → ◌≡◌ {A = Result Failure Json × W} (or_error o, v) (ok j, w')
          → o ≡ some j
      given none k = cc
      given (some j') k = cc

  -- The response that a request returned with.
  pub request_met :
      (r : R) (w w' : W) (j : Json)
      → request client t r w ≡ (ok j, w')
      → (a : Response) × (client r w ≡ (ok a, w'))
        × (leb 400 a.status_code ≡ false)
        × (a.body ≡ some j)
  unfolding request
  request_met r w w' j h = elim (Result-cases (send_request client r w).0) [
    | inl (a, fine) ↦
        let rest : rest_of a (send_request client r w).1 ≡ (ok j, w') = rw fine at h in
        let (low, given, same) = finished a (send_request client r w).1 w' j rest in
        (a, send_met r w w' a cc, low, given)
    | inr (e, bad) ↦
        let t : ◌≡◌ {A = Result Failure Json × W} (err e, (send_request client r w).1) (ok j, w') =
          rw bad at h in
        cc
  ]
