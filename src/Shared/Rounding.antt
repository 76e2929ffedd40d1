-- ===== src/Shared/Rounding.antt =====
-- `int(amount * (1 + margin) + 0.999999)`, for a natural number and a margin in hundredths: the least
-- number that covers the amount with its margin.
use Prim.Native.Nat.{ℕ, ◌+◌, ◌*◌, ◌/◌, ◌≤◌}
use native.Mathlib.Omega.{arith}

unfoldable pub with_margin : (amount margin : ℕ) → ℕ
with_margin amount margin = (amount * (100 + margin) * 10000 + 999999) / 1000000

pub with_margin-covers :
    (amount margin : ℕ)
    → (amount * (100 + margin) ≤ 100 * with_margin amount margin)
      × (100 * with_margin amount margin ≤ amount * (100 + margin) + 99)
unfolding with_margin
with_margin-covers amount margin = let x = amount * (100 + margin) in (omega arith, omega arith)

-- `int(amount * fraction)`, with the fraction in hundredths.
unfoldable pub share_of : (amount hundredths : ℕ) → ℕ
share_of amount hundredths = amount * hundredths / 100

pub share_of-bounds :
    (amount hundredths : ℕ)
    → (100 * share_of amount hundredths ≤ amount * hundredths)
      × (amount * hundredths ≤ 100 * share_of amount hundredths + 99)
unfolding share_of
share_of-bounds amount hundredths = let x = amount * hundredths in (omega arith, omega arith)
