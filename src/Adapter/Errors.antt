-- ===== src/Adapter/Errors.antt =====
-- libs/adapter/errors.py: the error hierarchy as one data type, and what a guarded call may raise.
use posnet_adapter.Prelude.{ℕ, String, Bool, true, false, Option}

-- The class of an `AdapterError`; `base` is one that is no subclass.
pub data ErrorKind : Type 0 where
  base retryable rate_limit auth permanent : ErrorKind

pub record AdapterError : Type 0 where
  pub kind : ErrorKind
  pub message : String
  pub retry_after_seconds : Option ℕ

-- `isinstance(exc, AdapterRetryableError)`: a rate limit error is retryable.
abbrev pub is_retryable : ErrorKind → Bool
is_retryable retryable = true
is_retryable rate_limit = true
is_retryable _ = false

-- `isinstance(exc, (AdapterAuthError, AdapterPermanentError))`.
abbrev pub is_final : ErrorKind → Bool
is_final auth = true
is_final permanent = true
is_final _ = false

-- What a call through the guard may raise: an adapter's error, the breaker's, the limiter's, or
-- any other exception of the call.
pub data Failure : Type 0 where
  adapter_error : AdapterError → Failure
  breaker_open rate_timeout other_exception : Failure

abbrev pub is_excluded : Failure → Bool
is_excluded (adapter_error e) = is_final e.kind
is_excluded _ = false
