-- ===== src/Adapter/Bucket.antt =====
-- libs/adapter/rate_limit.py. The source counts tokens and seconds in floats; here time is a
-- number of clock ticks and the tokens are counted in parts, `scale` of them to one token, so
-- that a refill of `rate` parts a tick is exact. A caller's wait is the list of the clock readings
-- that its loop makes before `asyncio.timeout` cancels it, the wait for the lock included: the
-- loop goes on from one reading to the next by `asyncio.sleep`, for a time that is a float in the
-- source and of which nothing is said here.
pub mod Rate
use Prim.Native.Nat.{min}
use posnet_adapter.Prelude.{
  ℕ, ◌+◌, ◌-◌, ◌*◌, ◌/◌, Bool, true, false, ◌||◌, Option, none, some, List, [], ◌∷◌, leb, ◌==◌,
  if◌then◌else◌,
}

pub record TokenBucket : Type 0 where
  pub capacity : ℕ
  pub scale : ℕ
  pub rate : ℕ
  pub tokens : ℕ
  pub last_refill : ℕ

-- `__init__`, at a clock reading; `none` is the `ValueError`.
unfoldable pub new_bucket : ℕ → ℕ → ℕ → ℕ → Option TokenBucket
new_bucket scale rate capacity now =
    if rate == 0 || capacity == 0
    then none
    else some (record {
      capacity = capacity;
      scale = scale;
      rate = rate;
      tokens = capacity * scale;
      last_refill = now;
    })

unfoldable pub refill : ℕ → TokenBucket → TokenBucket
refill now b = if leb now b.last_refill then b else record b {
  tokens = min (b.capacity * b.scale) (b.tokens + (now - b.last_refill) * b.rate);
  last_refill = now;
}

-- `acquire`: whether it took a token (`false` is the `RateLimitTimeoutError`), and the bucket.
unfoldable pub acquire : List ℕ → TokenBucket → Bool × TokenBucket
unfolding refill
acquire [] b = (false, b)
acquire (now ∷ readings) b =
    let b' = refill now b in
    let rest = acquire readings b' in
    if leb b'.scale b'.tokens then (true, record b' { tokens = b'.tokens - b'.scale }) else rest
