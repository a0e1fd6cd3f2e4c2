-- ===== src/Adapter/Bucket/Rate.antt =====
-- What the bucket promises: no more calls than the burst and the rate allow.
use posnet_adapter.Prelude.{
  ℕ, ◌+◌, ◌-◌, ◌*◌, ◌≤◌, ◌≡◌, ap, Bool, true, false, some, List, [], ◌∷◌, arith,
}
use posnet_adapter.Adapter.Bucket.{TokenBucket, new_bucket, refill, acquire}

abbrev pub full : TokenBucket → ℕ
full b = b.capacity * b.scale

elapsed_mul : (m n r : ℕ) → m ≤ n → (n - m) * r + m * r ≡ n * r
elapsed_mul m n r h = let e : n ≡ n - m + m = omega arith in omega (arith, ap (λ (k : ℕ). k * r) e)

-- What a change of a bucket from `b` to `b'` that took `taken` tokens may be: the configuration is
-- kept, the clock does not go back, the burst is not passed, and the parts taken and left are at
-- most those there were and those that the elapsed ticks bring.
pub record Spends (taken : ℕ) (b b' : TokenBucket) : Type 0 where
  pub capacity : b'.capacity ≡ b.capacity
  pub scale : b'.scale ≡ b.scale
  pub rate : b'.rate ≡ b.rate
  pub clock : b.last_refill ≤ b'.last_refill
  pub burst : b.tokens ≤ full b → b'.tokens ≤ full b'
  pub spent :
      taken * b.scale + b'.tokens + b.last_refill * b.rate ≤ b.tokens + b'.last_refill * b.rate

refill-Spends : (now : ℕ) (b : TokenBucket) → Spends 0 b (refill now b)
unfolding refill
refill-Spends now b = ground (arith, elapsed_mul b.last_refill now b.rate)

abbrev pub one : Bool → ℕ
one true = 1
one false = 0

acquire-Spends :
    (readings : List ℕ) (b : TokenBucket)
    → Spends (one (acquire readings b).0) b (acquire readings b).1
unfolding acquire
acquire-Spends [] b = ground arith
acquire-Spends (now ∷ readings) b =
    ground (arith, refill-Spends now b, acquire-Spends readings (refill now b))

-- Callers one after another, as the lock lets them in, each with its clock readings: how many got
-- a token, and the bucket.
abbrev pub acquire_all : List (List ℕ) → TokenBucket → ℕ × TokenBucket
acquire_all [] b = (0, b)
acquire_all (readings ∷ callers) b =
    let (granted, b') = acquire readings b in
    let (n, b2) = acquire_all callers b' in (one granted + n, b2)

Spends-trans : (m n : ℕ) (x y z : TokenBucket) → Spends m x y → Spends n y z → Spends (m + n) x z
Spends-trans m n x y z h k = ground (arith, h, k)

acquire_all-Spends :
    (callers : List (List ℕ)) (b : TokenBucket)
    → Spends (acquire_all callers b).0 b (acquire_all callers b).1
acquire_all-Spends [] b = ground arith
acquire_all-Spends (readings ∷ callers) b =
    Spends-trans _ _ b (acquire readings b).1 _ (acquire-Spends readings b)
      (acquire_all-Spends callers (acquire readings b).1)

new_bucket_fields :
    (scale rate capacity start : ℕ) (b : TokenBucket)
    → new_bucket scale rate capacity start ≡ some b
    → (b.capacity ≡ capacity)
      × (b.scale ≡ scale)
      × (b.rate ≡ rate)
      × (b.tokens ≡ capacity * scale)
      × (b.last_refill ≡ start)
unfolding new_bucket
new_bucket_fields scale rate capacity start b h = ground arith

-- From a new bucket on, whatever the callers and their clock readings, the tokens granted are at
-- most the burst and what the elapsed ticks bring, and the bucket never holds more than the burst.
pub acquire_all_rate :
    (scale rate capacity start : ℕ) (b : TokenBucket) (callers : List (List ℕ))
    → new_bucket scale rate capacity start ≡ some b
    → let (granted, b') = acquire_all callers b in
      (granted * scale ≤ capacity * scale + (b'.last_refill - start) * rate)
      × (b'.tokens ≤ capacity * scale)
acquire_all_rate scale rate capacity start b callers h =
    let final = (acquire_all callers b).1 in
    ground (
      arith,
      new_bucket_fields scale rate capacity start b h,
      acquire_all-Spends callers b,
      elapsed_mul start final.last_refill rate,
    )
