-- ===== src/Base/Bits/Buffer.antt =====
-- Bit `n` of a byte buffer, least significant first.
use Prim.Native.Nat.{ℕ, zero, suc, ◌+◌, ◌/◌, ◌%◌, ◌<◌}
use mathlib.Core.Path.{◌≡◌, refl, ap, ◌∙◌}
use mathlib.Core.Logic.{inl, inr}
use mathlib.Core.List.{List, [], ◌∷◌}
use native.Mathlib.Omega.{arith}
use stkoe_data.Base.Lists.{length, get_or, set}
use stkoe_data.Base.Tests.{◌==◌, if◌then◌else◌, Bool-cases}
use stkoe_data.Base.Bits.Digits.{bit}

unfoldable pub bit_at : List ℕ → ℕ → ℕ
bit_at buf n = bit (n % 8) (get_or buf (n / 8) 0)

pub get_or-set {ℓ} :
    {A : Type ℓ} (xs : List A) (i j : ℕ) (v d : A)
    → i < length xs
    → get_or (set xs i v) j d ≡ (if j == i then v else get_or xs j d)
get_or-set [] i j v d h = absurd (omega arith)
get_or-set (x ∷ xs) zero zero v d h = refl
get_or-set (x ∷ xs) zero (suc j) v d h = ground arith
get_or-set (x ∷ xs) (suc i) zero v d h = ground arith
get_or-set (x ∷ xs) (suc i) (suc j) v d h = get_or-set xs i j v d (omega arith) ∙ ground arith

-- A write of byte `i` changes the bits of that byte.
pub bit_at-set :
    (buf : List ℕ) (i b n : ℕ)
    → i < length buf
    → bit_at (set buf i b) n ≡ (if n / 8 == i then bit (n % 8) b else bit_at buf n)
unfolding bit_at
bit_at-set buf i b n h = elim (Bool-cases (n / 8 == i)) [
  | inl q ↦ rw q (ap (bit (n % 8)) (get_or-set buf i (n / 8) b 0 h ∙ rw q))
  | inr q ↦ rw q (ap (bit (n % 8)) (get_or-set buf i (n / 8) b 0 h ∙ rw q))
]

pub bit_at-cons : (b : ℕ) (buf : List ℕ) (n : ℕ) → bit_at (b ∷ buf) (8 + n) ≡ bit_at buf n
unfolding bit_at
bit_at-cons b buf n =
    ap (λ t. bit t (get_or (b ∷ buf) ((8 + n) / 8) 0))
      (let e : (8 + n) % 8 ≡ n % 8 = omega arith in e)
    ∙ ap (λ t. bit (n % 8) (get_or (b ∷ buf) t 0))
        (let e : (8 + n) / 8 ≡ suc (n / 8) = omega arith in e)
