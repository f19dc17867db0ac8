-- ===== src/Base/Bits/Shifts.antt =====
-- The digits of shifted and truncated numbers.
use Prim.Native.Nat.{ℕ, zero, suc, ◌+◌, ◌-◌, ◌*◌, ◌/◌, ◌%◌, ◌^◌, ◌<◌}
use mathlib.Core.Path.{◌≡◌, ap, ◌∙◌}
use native.Mathlib.Omega.{arith}
use native.Mathlib.Nat.{div-one, mod-lt}
use stkoe_data.Base.Arith.{two-pow_pos, div-two-pow-suc, mod-two-pow-suc, mul-two-pow-suc}
use stkoe_data.Base.Bits.Digits.{bit, bit_of_lt}
use stkoe_data.Base.Tests.{ltb, if◌then◌else◌, Bool-cases}
use mathlib.Core.Logic.{inl, inr}

-- `a >> k`
pub bit-div : (k i a : ℕ) → bit i (a / 2 ^ k) ≡ bit (k + i) a
unfolding bit
bit-div zero i a = ap (bit i) (div-one a) ∙ ap (λ t. bit t a) (let e : i ≡ 0 + i = omega arith in e)
bit-div (suc k) i a =
    ap (bit i) (div-two-pow-suc a k)
    ∙ bit-div k i (a / 2)
    ∙ ap (λ t. bit t a) (let e : suc (k + i) ≡ suc k + i = omega arith in e)

bit-mul_low : (k i a : ℕ) → i < k → bit i (a * 2 ^ k) ≡ 0
unfolding bit
bit-mul_low zero i a h = absurd (omega arith)
bit-mul_low (suc k) zero a h = omega (arith, mul-two-pow-suc a k)
bit-mul_low (suc k) (suc i) a h =
    ap (bit i) (let e : a * 2 ^ suc k / 2 ≡ a * 2 ^ k = omega (arith, mul-two-pow-suc a k) in e)
    ∙ bit-mul_low k i a (omega arith)

bit-mul_high : (k i a : ℕ) → bit (k + i) (a * 2 ^ k) ≡ bit i a
unfolding bit
bit-mul_high zero i a =
    ap (λ t. bit t (a * 1)) (let e : 0 + i ≡ i = omega arith in e)
    ∙ ap (bit i) (let e : a * 1 ≡ a = omega arith in e)
bit-mul_high (suc k) i a =
    ap (λ t. bit t (a * 2 ^ suc k)) (let e : suc k + i ≡ suc (k + i) = omega arith in e)
    ∙ ap (bit (k + i))
        (let e : a * 2 ^ suc k / 2 ≡ a * 2 ^ k = omega (arith, mul-two-pow-suc a k) in e)
    ∙ bit-mul_high k i a

-- `a << k`
pub bit-mul : (k i a : ℕ) → bit i (a * 2 ^ k) ≡ (if ltb i k then 0 else bit (i - k) a)
bit-mul k i a = elim (Bool-cases (ltb i k)) [
  | inl q ↦ rw q (bit-mul_low k i a (ground arith))
  | inr q ↦ rw q (
      ap (λ t. bit t (a * 2 ^ k)) (let e : i ≡ k + (i - k) = ground arith in e)
      ∙ bit-mul_high k (i - k) a)
]

bit-mod_low : (k i a : ℕ) → i < k → bit i (a % 2 ^ k) ≡ bit i a
unfolding bit
bit-mod_low zero i a h = absurd (omega arith)
bit-mod_low (suc k) zero a h = omega (arith, mod-two-pow-suc a k)
bit-mod_low (suc k) (suc i) a h =
    ap (bit i) (let e : a % 2 ^ suc k / 2 ≡ a / 2 % 2 ^ k = omega (arith, mod-two-pow-suc a k) in e)
    ∙ bit-mod_low k i (a / 2) (omega arith)

-- `a % 2 ^ k`, as a truncation to `k` bits.
pub bit-mod : (k i a : ℕ) → bit i (a % 2 ^ k) ≡ (if ltb i k then bit i a else 0)
bit-mod k i a = elim (Bool-cases (ltb i k)) [
  | inl q ↦ rw q (bit-mod_low k i a (ground arith))
  | inr q ↦ rw q (bit_of_lt k i (a % 2 ^ k) (mod-lt a (two-pow_pos k)) (ground arith))
]
