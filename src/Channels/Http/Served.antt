-- ===== src/Channels/Http/Served.antt =====
-- What an adapter relies on of httpx and of the network between it and a channel's server.
use posnet_adapter.Prelude.{ℕ, Bool, true, false, not, ◌||◌, leb, ◌==◌, ◌≡◌, arith, inl, inr}
use posnet_adapter.Prelude.Exec.{Result, ok, err, pure, ◌>>◌, Result-cases}
use posnet_adapter.Adapter.Errors.{Failure}
use posnet_adapter.Channels.Json.{Texts}
use posnet_adapter.Channels.Http.{Response, Client, request}
use posnet_adapter.Channels.Http.Classes.{request_met}

-- The statuses that a server's handler may have given: no error, or that a thing is not there.
abbrev pub is_genuine : ℕ → Bool
is_genuine s = s == 404 || not (leb 400 s)

pub below_400 : (s : ℕ) → leb 400 s ≡ false → is_genuine s ≡ true
below_400 s h = ground (arith, h)

-- A response that is no error, or a 404, is the server's answer to the request, in the state that
-- it left. Any other response, and any failure of the call, says nothing of the server.
pub record IsServed {R S W : Type 0} (serve : R → S → Response × S) (client : Client R W)
    (store_of : W → S) : Type 0 where
  pub answers :
      (r : R) (w w' : W) (a : Response)
      → client r w ≡ (ok a, w')
      → is_genuine a.status_code ≡ true
      → serve r (store_of w) ≡ (a, store_of w')

module _ {R S W : Type 0} (serve : R → S → Response × S) (client : Client R W) (store_of : W → S)
    (t : Texts) (served : IsServed serve client store_of) where
  -- A request that returned was carried out.
  pub carried_out :
      (r : R) (w w' : W) (u : Unit {0})
      → (request client t r >> pure tt) w ≡ (ok u, w')
      → (a : Response) × (serve r (store_of w) ≡ (a, store_of w')) × (leb 400 a.status_code ≡ false)
  carried_out r w w' u h = elim (Result-cases (request client t r w).0) [
    | inl (j, fine) ↦
        let k : ◌≡◌ {A = Result Failure (Unit {0}) × W} (ok tt, (request client t r w).1)
            (ok u, w') =
          rw fine at h in
        let (a, came, low, _) = request_met client t r w w' j cc in
        (a, served.answers r w w' a came (below_400 a.status_code low), low)
    | inr (e, bad) ↦
        let k : ◌≡◌ {A = Result Failure (Unit {0}) × W} (err e, (request client t r w).1)
            (ok u, w') =
          rw bad at h in
        cc
  ]
