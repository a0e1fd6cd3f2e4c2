-- ===== src/Adapter.antt =====
-- libs/adapter: the errors that an adapter raises, the circuit breaker, the token bucket, the
-- registry and the webhook signature check.
pub mod Errors
pub mod Breaker
pub mod Bucket
pub mod Signature
