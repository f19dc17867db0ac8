-- ===== src/Base/Bits/Masks.antt =====
-- Masks of low bits, and complements.
use Prim.Native.Nat.{ℕ, zero, suc, ◌-◌, ◌/◌, ◌^◌, ◌<◌}
use mathlib.Core.Path.{◌≡◌, ap, ◌∙◌}
use native.Mathlib.Omega.{arith}
use stkoe_data.Base.Arith.{two-pow_pos, two-pow-suc}
use stkoe_data.Base.Bits.Digits.{bit, bit_of_lt}
use stkoe_data.Base.Tests.{ltb, if◌then◌else◌}

-- `(1 << h) - 1`
pub bit_low_mask : (h i : ℕ) → bit i (2 ^ h - 1) ≡ (if ltb i h then 1 else 0)
unfolding bit
bit_low_mask zero i = bit_of_lt 0 i 0 (omega arith) (omega arith) ∙ (ground arith)
bit_low_mask (suc h) zero = ground (arith, two-pow-suc h, two-pow_pos h)
bit_low_mask (suc h) (suc i) =
    ap (bit i)
      (let e : (2 ^ suc h - 1) / 2 ≡ 2 ^ h - 1 = omega (arith, two-pow-suc h, two-pow_pos h) in e)
    ∙ bit_low_mask h i
    ∙ (ground arith)

-- The complement of `a` among `k` bits.
pub bit_complement :
    (k i a : ℕ) → a < 2 ^ k → bit i (2 ^ k - 1 - a) ≡ (if ltb i k then 1 - bit i a else 0)
unfolding bit
bit_complement zero i a h = bit_of_lt 0 i (1 - 1 - a) (omega arith) (omega arith) ∙ (ground arith)
bit_complement (suc k) zero a h = ground (arith, two-pow-suc k, two-pow_pos k)
bit_complement (suc k) (suc i) a h =
    ap (bit i) (
      let e : (2 ^ suc k - 1 - a) / 2 ≡ 2 ^ k - 1 - a / 2 =
        omega (arith, two-pow-suc k, two-pow_pos k) in
      e)
    ∙ bit_complement k i (a / 2) (omega (arith, two-pow-suc k))
    ∙ (ground arith)
