-- ===== src/Base/Sums.antt =====
-- Sums over consecutive numbers.
use Prim.Native.Nat.{ℕ, zero, suc, ◌+◌, ◌≤◌, ◌<◌}
use mathlib.Core.Path.{◌≡◌, refl, ap, ap₂, ◌∙◌}
use native.Mathlib.Omega.{arith}

-- `f off + f (off + 1) + ...`, `n` terms.
unfoldable pub sum : (ℕ → ℕ) → ℕ → ℕ → ℕ
sum f off zero = 0
sum f off (suc n) = f off + sum f (off + 1) n

pub sum-split : (f : ℕ → ℕ) (off m n : ℕ) → sum f off (m + n) ≡ sum f off m + sum f (off + m) n
unfolding sum
sum-split f off zero n =
    ap₂ (λ (o : ℕ) (k : ℕ). sum f o k) (let e : off ≡ off + 0 = omega arith in e)
      (let e : 0 + n ≡ n = omega arith in e)
    ∙ zero_left (sum f (off + 0) n)
  where
    zero_left : (k : ℕ) → k ≡ 0 + k
    zero_left k = omega arith
sum-split f off (suc m) n = omega (
  arith,
  ap (sum f off) (let e : suc m + n ≡ suc (m + n) = omega arith in e),
  sum-split f (off + 1) m n,
  ap (λ (o : ℕ). sum f o n) (let q : off + 1 + m ≡ off + suc m = omega arith in q),
)

pub sum_ext :
    (f g : ℕ → ℕ) (a b n : ℕ) → ((k : ℕ) → k < n → f (a + k) ≡ g (b + k)) → sum f a n ≡ sum g b n
unfolding sum
sum_ext f g a b zero h = refl
sum_ext f g a b (suc n) h =
    ap₂ (λ (x : ℕ) (y : ℕ). x + y)
      (ap f (let e : a ≡ a + 0 = omega arith in e)
        ∙ h 0 (omega arith)
        ∙ ap g (let e : b + 0 ≡ b = omega arith in e))
      (sum_ext f g (a + 1) (b + 1) n (λ k p.
        ap f (let e : a + 1 + k ≡ a + suc k = omega arith in e)
        ∙ h (suc k) (omega arith)
        ∙ ap g (let e : b + suc k ≡ b + 1 + k = omega arith in e)))

pub sum_zero : (f : ℕ → ℕ) (a n : ℕ) → ((k : ℕ) → k < n → f (a + k) ≡ 0) → sum f a n ≡ 0
unfolding sum
sum_zero f a zero h = refl
sum_zero f a (suc n) h = omega (
  arith,
  ap f (let e : a ≡ a + 0 = omega arith in e),
  h 0 (omega arith),
  sum_zero f (a + 1) n
      (λ k p. ap f (let e : a + 1 + k ≡ a + suc k = omega arith in e) ∙ h (suc k) (omega arith)),
)

-- A sum of terms that are at most one.
pub sum-le : (f : ℕ → ℕ) (a n : ℕ) → ((k : ℕ) → f k ≤ 1) → sum f a n ≤ n
unfolding sum
sum-le f a zero h = omega arith
sum-le f a (suc n) h = omega (arith, h a, sum-le f (a + 1) n h)
