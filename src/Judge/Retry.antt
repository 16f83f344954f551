-- ===== src/Judge/Retry.antt =====
-- `RetryDelay` of internal/judge/engine.go, in nanoseconds.
use online_coding_judge.Prelude.{
  ℕ, zero, suc, ◌-◌, ◌*◌, ◌^◌, ◌≤◌, ◌<◌, ◌≡◌, refl, ap, min, pos, below, above, false, ltb,
  if◌then◌else◌, arith,
}
use online_coding_judge.Database.Attempts.{five_minutes}

abbrev pub second : ℕ
second = 1000000000

unfoldable pub retry_delay : ℕ → ℕ
retry_delay attempt =
    let attempt' : ℕ = if ltb attempt 1 then 1 else attempt in second * 2 ^ min (attempt' - 1) 6

powers : (k : ℕ) → k ≤ 6 → (1 ≤ 2 ^ k) × (2 ^ k ≤ 64)
powers zero h = omega arith
powers (suc zero) h = omega arith
powers (suc (suc zero)) h = omega arith
powers (suc (suc (suc zero))) h = omega arith
powers (suc (suc (suc (suc zero)))) h = omega arith
powers (suc (suc (suc (suc (suc zero))))) h = omega arith
powers (suc (suc (suc (suc (suc (suc zero)))))) h = omega arith
powers (suc (suc (suc (suc (suc (suc (suc k))))))) h = absurd (omega arith)

doubles :
    (attempt : ℕ) → 1 ≤ attempt → attempt < 7 → retry_delay (suc attempt) ≡ 2 * retry_delay attempt
unfolding retry_delay
doubles zero one small = absurd (omega arith)
doubles (suc zero) one small = refl
doubles (suc (suc zero)) one small = refl
doubles (suc (suc (suc zero))) one small = refl
doubles (suc (suc (suc (suc zero)))) one small = refl
doubles (suc (suc (suc (suc (suc zero))))) one small = refl
doubles (suc (suc (suc (suc (suc (suc zero)))))) one small = refl
doubles (suc (suc (suc (suc (suc (suc (suc k))))))) one small = absurd (omega arith)

stays : (attempt : ℕ) → 7 ≤ attempt → retry_delay attempt ≡ 64 * second
unfolding retry_delay
stays attempt large =
    let capped : min ((if ltb attempt 1 then 1 else attempt) - 1) 6 ≡ 6 = ground arith in
    ap (λ k. second * 2 ^ k) capped

-- The delay lies between one second and 64 seconds, so that the limits of `Store.Retry` never
-- refuse it; it doubles with each attempt from the first to the seventh, and stays from there on.
pub retry_delay_bounds :
    (attempt : ℕ)
    → (second ≤ retry_delay attempt)
      × (retry_delay attempt ≤ 64 * second)
      × (below (pos (retry_delay attempt)) 0 ≡ false)
      × (above (pos (retry_delay attempt)) five_minutes ≡ false)
      × (1 ≤ attempt → attempt < 7 → retry_delay (suc attempt) ≡ 2 * retry_delay attempt)
      × (7 ≤ attempt → retry_delay attempt ≡ 64 * second)
unfolding retry_delay
retry_delay_bounds attempt =
    let k : ℕ = min ((if ltb attempt 1 then 1 else attempt) - 1) 6 in
    let (low, high) = powers k (omega arith) in
    (omega arith, omega arith, ground arith, ground arith, doubles attempt, stays attempt)
