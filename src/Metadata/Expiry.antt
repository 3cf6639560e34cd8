-- ===== src/Metadata/Expiry.antt =====
-- How the expiry functions fit together.
use zkstellar.Prelude.{ℕ, ◌+◌, ◌-◌, ◌*◌, ◌/◌, ◌≤◌, ◌<◌, ◌≡◌, refl, false, ◌==◌, arith, min}
use zkstellar.Text.{pos}
use zkstellar.Types.{ok}
use zkstellar.Js.{int}
use zkstellar.Proof.{max_u32}
use zkstellar.Metadata.{recommend_expiry_ledger}
use native.Mathlib.Nat.{div-add-mod, mod-lt}

ceil_bounds :
    (ttl close : ℕ)
    → 0 < close
    → (ttl ≤ (ttl + (close - 1)) / close * close)
      × ((ttl + (close - 1)) / close * close < ttl + close)
ceil_bounds ttl close h = (
  omega (arith, div-add-mod (ttl + (close - 1)) close, mod-lt (ttl + (close - 1)) h),
  omega (arith, div-add-mod (ttl + (close - 1)) close),
)

-- For a positive lifetime and close time, recommendExpiryLedger returns a u32 ledger that is not before
-- the current one, if that is a u32, and below the greatest u32 the lifetime is rounded up to whole
-- ledgers: it fits, and one ledger less would not do.
pub recommend_expiry_ledger_bounds :
    (current ttl close : ℕ)
    → 0 < ttl
    → 0 < close
    → current ≤ max_u32
    → (needed : ℕ) × (r : ℕ) × (recommend_expiry_ledger (int (pos current)) ttl close ≡ ok r)
      × (r ≡ min (current + needed) max_u32)
      × (current ≤ r)
      × (ttl ≤ needed * close)
      × (needed * close < ttl + close)
unfolding recommend_expiry_ledger
recommend_expiry_ledger_bounds current ttl close t c bound =
    let (low, high) = ceil_bounds ttl close c in
    let positive : (ttl == 0) ≡ false = ground arith in
    let divisor : (close == 0) ≡ false = ground arith in
    (
      (ttl + (close - 1)) / close,
      min (current + (ttl + (close - 1)) / close) max_u32,
      rw (positive, divisor),
      refl,
      omega arith,
      low,
      high,
    )
