-- ===== src/Base/Arith.antt =====
-- Laws of division and powers that the library does not have.
use Prim.Native.Nat.{ℕ, suc, ◌+◌, ◌*◌, ◌/◌, ◌%◌, ◌^◌, ◌<◌}
use mathlib.Core.Path.{◌≡◌, sym, ap, ◌∙◌}
use native.Mathlib.Omega.{arith}
use native.Mathlib.Nat.{
  pow-suc, one-le-pow, mod-lt, mod-eq_of_lt, div-add-mod, add-mul-mod_self_left,
}
use native.Mathlib.Nat.{div-div-eq-div-mul}

pub mod_unique : (v m q r : ℕ) → v ≡ r + m * q → r < m → v % m ≡ r
mod_unique v m q r e h = ap (λ t. t % m) e ∙ add-mul-mod_self_left r m q ∙ mod-eq_of_lt h

pub mod-mul : (v b m : ℕ) → 0 < b → 0 < m → v % (b * m) ≡ v % b + b * (v / b % m)
mod-mul v b m hb hm =
    mod_unique v (b * m) (v / b / m) (v % b + b * (v / b % m))
      (omega (arith, div-add-mod v b, ap (λ (t : ℕ). b * t) (div-add-mod (v / b) m)))
      (grind (arith, mod-lt v {m = b} hb, mod-lt (v / b) {m = m} hm))

pub two-pow-suc : (k : ℕ) → 2 ^ suc k ≡ 2 * 2 ^ k
two-pow-suc k = omega (arith, pow-suc 2 k)

pub two-pow_pos : (k : ℕ) → 0 < 2 ^ k
two-pow_pos k = one-le-pow k 2 (omega arith)

pub div-two-pow-suc : (a k : ℕ) → a / 2 ^ suc k ≡ a / 2 / 2 ^ k
div-two-pow-suc a k = ap (λ t. a / t) (two-pow-suc k) ∙ sym (div-div-eq-div-mul a 2 (2 ^ k))

pub mod-two-pow-suc : (a k : ℕ) → a % 2 ^ suc k ≡ a % 2 + 2 * (a / 2 % 2 ^ k)
mod-two-pow-suc a k =
    ap (λ (t : ℕ). a % t) (two-pow-suc k) ∙ mod-mul a 2 (2 ^ k) (omega arith) (two-pow_pos k)

pub mul-two-pow-suc : (a k : ℕ) → a * 2 ^ suc k ≡ 2 * (a * 2 ^ k)
mul-two-pow-suc a k = omega (arith, ap (λ (t : ℕ). a * t) (two-pow-suc k))

pub mul-mod_zero : (n s : ℕ) → 0 < s → n * s % s ≡ 0
mul-mod_zero n s h = mod_unique (n * s) s n 0 (omega arith) h
