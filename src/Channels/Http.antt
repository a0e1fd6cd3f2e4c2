-- ===== src/Channels/Http.antt =====
-- What the two adapters share: `_send`, `_raise_for_status` and `_request` of
-- services/core/app/adapters/mock_marketplace/adapter.py, which mock_bazar/adapter.py repeats. The
-- client (httpx) is a parameter: a function from a request to a response, on the world `W`.
pub mod Classes
pub mod Served
use Prim.Native.String.{◌++◌ as str_append}
use posnet_adapter.Prelude.{
  ℕ, suc, zero, String, Bool, true, false, ◌||◌, Option, none, some, leb, ◌==◌, if◌then◌else◌,
  str_eq, ◌≡◌, refl, arith, ◌↔◌, ◌≤◌, ◌<◌, ltb, ◌&&◌, not,
}
use posnet_adapter.Prelude.Exec.{Result, ok, err, Exec, lift, ◌>>=◌, ◌>>◌}
use posnet_adapter.Adapter.Errors.{
  ErrorKind, retryable, rate_limit, auth, permanent, AdapterError, Failure, adapter_error,
  other_exception, is_retryable, is_final,
}
use posnet_adapter.Channels.Json.{Json, Texts, or_error}

-- `httpx.Response`; `body` is `none` where `response.json()` raises.
pub record Response : Type 0 where
  pub status_code : ℕ
  pub retry_after : Option String
  pub text : String
  pub body : Option Json

pub data NetworkError : Type 0 where
  timeout transport : String → NetworkError

abbrev pub Client : Type 0 → Type 0 → Type 0
Client R W = R → Exec NetworkError W Response

-- `text[:200]`.
abbrev pub clip : ℕ → String → String
clip zero s = ""
clip (suc n) String.[] = ""
clip (suc n) (String.◌∷◌ c s) = String.◌∷◌ c (clip n s)

abbrev pub plain : ErrorKind → String → Failure
plain kind message =
    adapter_error (record { kind = kind; message = message; retry_after_seconds = none })

abbrev pub sent : Result NetworkError Response → Result Failure Response
sent (ok a) = ok a
sent (err (timeout e)) = err (plain retryable (str_append "timeout: " e))
sent (err (transport e)) = err (plain retryable (str_append "transport: " e))

abbrev pub limit_error : Option ℕ → AdapterError
limit_error seconds = record {
  kind = rate_limit;
  message = "channel rate limited";
  retry_after_seconds = seconds;
}

abbrev pub rate_limited : Option ℕ → Failure
rate_limited seconds = adapter_error (limit_error seconds)

-- `float(retry_after)`, a `ValueError` where the header is no number, such as a date.
abbrev pub or_value_error : Option ℕ → Failure
or_value_error none = other_exception
or_value_error (some seconds) = rate_limited (some seconds)

abbrev pub too_many : Texts → Option String → Failure
too_many t none = rate_limited none
too_many t (some s) = if str_eq s "" then rate_limited none else or_value_error (t.parse_seconds s)

abbrev pub channel_error : Texts → Response → String
channel_error t a =
    str_append (str_append (str_append "channel " (t.show_number a.status_code)) ": ")
      (clip 200 a.text)

-- `_raise_for_status`.
unfoldable pub raise_for_status : Texts → Response → Result Failure (Unit {0})
raise_for_status t a =
    if leb 500 a.status_code
    then err (plain retryable (channel_error t a))
    else if a.status_code == 429
    then err (too_many t a.retry_after)
    else if a.status_code == 401 || a.status_code == 403
    then err (plain auth (str_append "channel rejected credentials: " (clip 200 a.text)))
    else if leb 400 a.status_code
    then err (plain permanent (channel_error t a))
    else ok tt

module _ {R W : Type 0} (client : Client R W) where
  -- `_send`.
  abbrev pub send_request : R → Exec Failure W Response
  send_request r w = let (a, w') = client r w in (sent a, w')

  -- `_request`.
  unfoldable pub request : Texts → R → Exec Failure W Json
  request t r = do a ← send_request r; lift (raise_for_status t a); lift (or_error a.body)
