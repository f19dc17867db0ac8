-- ===== src/Base/Bits/Digits.antt =====
-- `bit i a` is digit `i` of `a`. The bitwise operations act digit by digit.
use Prim.Native.Nat.{ℕ, zero, suc, ◌+◌, ◌-◌, ◌*◌, ◌/◌, ◌%◌, ◌^◌, ◌≤◌, ◌<◌, min, max}
use Prim.Native.Nat.{bit_and, bit_or, bit_xor, digits, bitwise, differ}
use Prim.Native.Nat.{bit_and-bitwise, bit_or-bitwise, bit_xor-bitwise}
use mathlib.Core.Path.{◌≡◌, refl, sym, ap, ◌∙◌}
use native.Mathlib.Omega.{arith}
use stkoe_data.Base.Arith.{two-pow-suc, two-pow_pos, mod-two-pow-suc}
use native.Mathlib.Nat.{pow-suc, one-le-pow}

-- An operation that is `bitwise`, one digit at a time. `empty` is what it does with a second
-- operand once the first has run out, `digit` what it does with two digits.
module _ (op : ℕ → ℕ → ℕ) (empty : ℕ → ℕ) (digit : ℕ → ℕ → ℕ)
    (means : (x y : ℕ) → op x y ≡ bitwise empty digit x y)
    (ends : (y : ℕ) → empty y ≡ empty (y / 2) * 2 + digit 0 (y % 2)) where
  spare :
      (fuel x y : ℕ) → x ≤ fuel → digits empty digit (suc fuel) x y ≡ digits empty digit fuel x y
  spare zero zero y h = refl
  spare (suc fuel) zero y h = refl
  spare zero (suc x) y h = absurd (omega arith)
  spare (suc fuel) (suc x) y h =
      ap (λ (t : ℕ). t * 2 + digit (suc x % 2) (y % 2))
        (spare fuel (suc x / 2) (y / 2) (omega arith))

  enough : (extra x y : ℕ) → digits empty digit (extra + x) x y ≡ bitwise empty digit x y
  enough zero x y = ap (λ n. digits empty digit n x y) (let e : 0 + x ≡ x = omega arith in e)
  enough (suc extra) x y =
      ap (λ n. digits empty digit n x y)
        (let e : suc extra + x ≡ suc (extra + x) = omega arith in e)
      ∙ (spare (extra + x) x y (omega arith) ∙ enough extra x y)

  split_digit : (x y : ℕ) → op x y ≡ op (x / 2) (y / 2) * 2 + digit (x % 2) (y % 2)
  split_digit zero y = rw (means zero y, means (0 / 2) (y / 2)) (ends y)
  split_digit (suc x) y =
      let rest : digits empty digit x (suc x / 2) (y / 2) ≡ op (suc x / 2) (y / 2) =
        ap (λ n. digits empty digit n (suc x / 2) (y / 2))
          (let e : x ≡ (x - suc x / 2) + suc x / 2 = omega arith in e)
        ∙ (enough (x - suc x / 2) (suc x / 2) (y / 2) ∙ sym (means (suc x / 2) (y / 2))) in
      means (suc x) y ∙ ap (λ (t : ℕ). t * 2 + digit (suc x % 2) (y % 2)) rest

pub bit_and_step : (a b : ℕ) → bit_and a b ≡ bit_and (a / 2) (b / 2) * 2 + min (a % 2) (b % 2)
bit_and_step = split_digit bit_and (λ y. 0) min bit_and-bitwise (λ y. omega arith)

pub bit_xor_step : (a b : ℕ) → bit_xor a b ≡ bit_xor (a / 2) (b / 2) * 2 + differ (a % 2) (b % 2)
bit_xor_step = split_digit bit_xor (λ y. y) differ bit_xor-bitwise (λ y. ground arith)

pub bit_or_step : (a b : ℕ) → bit_or a b ≡ bit_or (a / 2) (b / 2) * 2 + max (a % 2) (b % 2)
bit_or_step = split_digit bit_or (λ y. y) max bit_or-bitwise (λ y. omega arith)

differ-zero : (x : ℕ) → differ x 0 ≡ x
differ-zero zero = refl
differ-zero (suc x) = refl

differ-one : (x : ℕ) → x ≤ 1 → differ x 1 ≡ 1 - x
differ-one zero h = refl
differ-one (suc zero) h = refl
differ-one (suc (suc x)) h = absurd (omega arith)

pub bit_xor-zero : (k a : ℕ) → a < 2 ^ k → bit_xor a 0 ≡ a
bit_xor-zero zero a h = let p : a ≡ 0 = omega arith in rw (p, bit_xor-bitwise 0 0) refl
bit_xor-zero (suc k) a h = omega (
  arith,
  bit_xor_step a 0,
  differ-zero (a % 2),
  bit_xor-zero k (a / 2) (omega (arith, pow-suc 2 k)),
)

pub bit_or-zero : (k a : ℕ) → a < 2 ^ k → bit_or a 0 ≡ a
bit_or-zero zero a h = let p : a ≡ 0 = omega arith in rw (p, bit_or-bitwise 0 0) refl
bit_or-zero (suc k) a h =
    omega (arith, bit_or_step a 0, bit_or-zero k (a / 2) (omega (arith, pow-suc 2 k)))

-- `^` with `k` ones is the complement.
pub bit_xor_ones : (k a : ℕ) → a < 2 ^ k → bit_xor a (2 ^ k - 1) ≡ 2 ^ k - 1 - a
bit_xor_ones zero a h = let p : a ≡ 0 = omega arith in rw (p, bit_xor-bitwise 0 0) refl
bit_xor_ones (suc k) a h =
    let half : (2 ^ suc k - 1) / 2 ≡ 2 ^ k - 1 =
      omega (arith, pow-suc 2 k, one-le-pow k 2 (omega arith)) in
    let low : (2 ^ suc k - 1) % 2 ≡ 1 = omega (arith, pow-suc 2 k, one-le-pow k 2 (omega arith)) in
    omega (
      arith,
      bit_xor_step a (2 ^ suc k - 1),
      ap (bit_xor (a / 2)) half,
      ap (differ (a % 2)) low,
      differ-one (a % 2) (omega arith),
      pow-suc 2 k,
      one-le-pow k 2 (omega arith),
      bit_xor_ones k (a / 2) (omega (arith, pow-suc 2 k)),
    )

unfoldable pub bit : ℕ → ℕ → ℕ
bit zero a = a % 2
bit (suc i) a = bit i (a / 2)

pub bit-le : (i a : ℕ) → bit i a ≤ 1
unfolding bit
bit-le zero a = omega arith
bit-le (suc i) a = bit-le i (a / 2)

pub bit-bit_or : (i a b : ℕ) → bit i (bit_or a b) ≡ max (bit i a) (bit i b)
unfolding bit
bit-bit_or zero a b = omega (arith, bit_or_step a b)
bit-bit_or (suc i) a b =
    ap (bit i)
      (let e : bit_or a b / 2 ≡ bit_or (a / 2) (b / 2) = omega (arith, bit_or_step a b) in e)
    ∙ bit-bit_or i (a / 2) (b / 2)

pub bit-bit_and : (i a b : ℕ) → bit i (bit_and a b) ≡ min (bit i a) (bit i b)
unfolding bit
bit-bit_and zero a b = omega (arith, bit_and_step a b)
bit-bit_and (suc i) a b =
    ap (bit i)
      (let e : bit_and a b / 2 ≡ bit_and (a / 2) (b / 2) = omega (arith, bit_and_step a b) in e)
    ∙ bit-bit_and i (a / 2) (b / 2)

-- A number below `2 ^ k` has no digit from `k` on, and is known by its `k` digits.
pub bit_of_lt : (k i a : ℕ) → a < 2 ^ k → k ≤ i → bit i a ≡ 0
unfolding bit
bit_of_lt zero zero a h g = omega arith
bit_of_lt (suc k) zero a h g = absurd (omega arith)
bit_of_lt zero (suc i) a h g = bit_of_lt zero i (a / 2) (omega arith) (omega arith)
bit_of_lt (suc k) (suc i) a h g = bit_of_lt k i (a / 2) (omega (arith, pow-suc 2 k)) (omega arith)

pub bit_ext : (k a b : ℕ) → a < 2 ^ k → b < 2 ^ k → ((i : ℕ) → i < k → bit i a ≡ bit i b) → a ≡ b
unfolding bit
bit_ext zero a b ha hb h = omega arith
bit_ext (suc k) a b ha hb h = omega (
  arith,
  h 0 (omega arith),
  bit_ext k (a / 2) (b / 2) (omega (arith, pow-suc 2 k)) (omega (arith, pow-suc 2 k))
      (λ i p. h (suc i) (omega arith)),
)

pub bit_or-lt : (k a b : ℕ) → a < 2 ^ k → b < 2 ^ k → bit_or a b < 2 ^ k
bit_or-lt zero a b ha hb =
    let p : a ≡ 0 = omega arith in let q : b ≡ 0 = omega arith in rw (p, q) (omega arith)
bit_or-lt (suc k) a b ha hb = omega (
  arith,
  pow-suc 2 k,
  bit_or_step a b,
  bit_or-lt k (a / 2) (b / 2) (omega (arith, pow-suc 2 k)) (omega (arith, pow-suc 2 k)),
)

pub bit_and-le : (k a b : ℕ) → a < 2 ^ k → bit_and a b ≤ a
bit_and-le zero a b ha = let p : a ≡ 0 = omega arith in rw (p, bit_and-bitwise 0 b) (omega arith)
bit_and-le (suc k) a b ha =
    omega (arith, bit_and_step a b, bit_and-le k (a / 2) (b / 2) (omega (arith, pow-suc 2 k)))

bit_and-zero_below : (k a : ℕ) → a < 2 ^ k → bit_and a 0 ≡ 0
bit_and-zero_below zero a h = let none : a ≡ 0 = omega arith in rw none (bit_and-bitwise 0 0)
bit_and-zero_below (suc k) a h = omega (
  arith,
  two-pow-suc k,
  bit_and-zero_below k (a / 2) (omega (arith, two-pow-suc k)),
  bit_and_step a 0,
)

below_two-pow : (a : ℕ) → a < 2 ^ a
below_two-pow zero = omega arith
below_two-pow (suc a) = omega (arith, two-pow-suc a, below_two-pow a)

-- A mask of `k` low ones is the remainder by `2 ^ k`.
pub bit_and_mask : (k a : ℕ) → bit_and a (2 ^ k - 1) ≡ a % 2 ^ k
bit_and_mask zero a = bit_and-zero_below a a (below_two-pow a) ∙ (omega arith)
bit_and_mask (suc k) a =
    let half : (2 ^ suc k - 1) / 2 ≡ 2 ^ k - 1 = omega (arith, two-pow-suc k, two-pow_pos k) in
    omega (
      arith,
      bit_and_step a (2 ^ suc k - 1),
      ap (bit_and (a / 2)) half,
      bit_and_mask k (a / 2),
      mod-two-pow-suc a k,
      two-pow-suc k,
      two-pow_pos k,
    )
