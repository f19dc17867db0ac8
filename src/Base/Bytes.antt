-- ===== src/Base/Bytes.antt =====
-- Little-endian numbers over byte lists: `to_le_bytes`, `from_le_bytes`.
use Prim.Native.Nat.{ℕ, zero, suc, ◌+◌, ◌*◌, ◌/◌, ◌%◌, ◌^◌, ◌≤◌, ◌<◌}
use mathlib.Core.Path.{◌≡◌, refl, sym, ap, ap₂, ◌∙◌}
use mathlib.Core.List.{List, [], ◌∷◌, ◌++◌}
use native.Mathlib.Omega.{arith}
use native.Mathlib.Nat.{pow-suc, one-le-pow}
use stkoe_data.Base.Arith.{mod-mul}
use stkoe_data.Base.Lists.{replicate, length, take, drop, All}

abbrev pub IsByte : ℕ → Type 0
IsByte b = b < 256

abbrev pub IsBytes : List ℕ → Type 0
IsBytes = All IsByte

-- The `k` low bytes of `v`, lowest first.
unfoldable pub le_bytes : ℕ → ℕ → List ℕ
le_bytes zero v = []
le_bytes (suc k) v = (v % 256) ∷ le_bytes k (v / 256)

unfoldable pub from_le : List ℕ → ℕ
from_le [] = 0
from_le (b ∷ bs) = b + 256 * from_le bs

-- `x.to_le_bytes()[..s]` of a `u64`.
abbrev pub low_bytes : ℕ → ℕ → List ℕ
low_bytes s w = take s (le_bytes 8 w)

pub length-le_bytes : (k v : ℕ) → length (le_bytes k v) ≡ k
unfolding le_bytes
length-le_bytes zero v = refl
length-le_bytes (suc k) v = ap suc (length-le_bytes k (v / 256))

pub le_bytes-IsBytes : (k v : ℕ) → IsBytes (le_bytes k v)
unfolding le_bytes
le_bytes-IsBytes zero v = tt
le_bytes-IsBytes (suc k) v = (omega arith, le_bytes-IsBytes k (v / 256))

pub from_le-le_bytes_of_lt : (k v : ℕ) → v < 256 ^ k → from_le (le_bytes k v) ≡ v
unfolding le_bytes from_le
from_le-le_bytes_of_lt zero v h = omega arith
from_le-le_bytes_of_lt (suc k) v h =
    omega (arith, pow-suc 256 k, from_le-le_bytes_of_lt k (v / 256) (omega (arith, pow-suc 256 k)))

pub le_bytes-from_le : (bs : List ℕ) → IsBytes bs → le_bytes (length bs) (from_le bs) ≡ bs
unfolding le_bytes from_le
le_bytes-from_le [] h = refl
le_bytes-from_le (b ∷ bs) (hb, h) =
    ap₂ ◌∷◌ (omega arith) (ap (le_bytes (length bs)) (omega arith) ∙ le_bytes-from_le bs h)

pub from_le-lt : (bs : List ℕ) → IsBytes bs → from_le bs < 256 ^ length bs
unfolding from_le
from_le-lt [] h = omega arith
from_le-lt (b ∷ bs) (hb, h) = omega (arith, pow-suc 256 (length bs), from_le-lt bs h)

pub take-le_bytes : (s k v : ℕ) → s ≤ k → take s (le_bytes k v) ≡ le_bytes s v
unfolding le_bytes
take-le_bytes zero k v h = refl
take-le_bytes (suc s) zero v h = absurd (omega arith)
take-le_bytes (suc s) (suc k) v h =
    ap (λ t. (v % 256) ∷ t) (take-le_bytes s k (v / 256) (omega arith))

pub length-low_bytes : (s w : ℕ) → s ≤ 8 → length (low_bytes s w) ≡ s
length-low_bytes s w h = rw (take-le_bytes s 8 w h) (length-le_bytes s w)

pub IsBytes-append : (xs ys : List ℕ) → IsBytes xs → IsBytes ys → IsBytes (xs ++ ys)
IsBytes-append [] ys h k = k
IsBytes-append (x ∷ xs) ys (hx, h) k = (hx, IsBytes-append xs ys h k)

pub take-IsBytes : (n : ℕ) (xs : List ℕ) → IsBytes xs → IsBytes (take n xs)
take-IsBytes zero xs h = tt
take-IsBytes (suc n) [] h = tt
take-IsBytes (suc n) (x ∷ xs) (hx, h) = (hx, take-IsBytes n xs h)

pub drop-IsBytes : (n : ℕ) (xs : List ℕ) → IsBytes xs → IsBytes (drop n xs)
drop-IsBytes zero xs h = h
drop-IsBytes (suc n) [] h = tt
drop-IsBytes (suc n) (x ∷ xs) (hx, h) = drop-IsBytes n xs h

-- The low `k` bytes depend only on the value modulo `256 ^ k`.
pub le_bytes-eq_of_lt :
    (k v w : ℕ) → le_bytes k v ≡ le_bytes k w → v < 256 ^ k → w < 256 ^ k → v ≡ w
le_bytes-eq_of_lt k v w e hv hw =
    sym (from_le-le_bytes_of_lt k v hv) ∙ ap from_le e ∙ from_le-le_bytes_of_lt k w hw

-- Only the low `k` bytes of the value are kept.
pub from_le-le_bytes : (k v : ℕ) → from_le (le_bytes k v) ≡ v % 256 ^ k
unfolding le_bytes from_le
from_le-le_bytes zero v = omega arith
from_le-le_bytes (suc k) v =
    (let e : v % 256 + 256 * from_le (le_bytes k (v / 256)) ≡ v % 256 + 256 * (v / 256 % 256 ^ k) =
        omega (arith, from_le-le_bytes k (v / 256)) in
      e)
    ∙ sym (mod-mul v 256 (256 ^ k) (omega arith) (one-le-pow k 256 (omega arith)))
    ∙ ap (λ (t : ℕ). v % t)
        (let e : 256 * 256 ^ k ≡ 256 ^ suc k = omega (arith, pow-suc 256 k) in e)

pub le_bytes-mod : (k v : ℕ) → le_bytes k (v % 256 ^ k) ≡ le_bytes k v
le_bytes-mod k v =
    ap (le_bytes k) (sym (from_le-le_bytes k v))
    ∙ ap (λ j. le_bytes j (from_le (le_bytes k v))) (sym (length-le_bytes k v))
    ∙ le_bytes-from_le (le_bytes k v) (le_bytes-IsBytes k v)

pub low_bytes_of_mod : (s v w : ℕ) → s ≤ 8 → v % 256 ^ s ≡ w → low_bytes s v ≡ le_bytes s w
low_bytes_of_mod s v w h e = take-le_bytes s 8 v h ∙ sym (le_bytes-mod s v) ∙ ap (le_bytes s) e

pub from_le-zeros : (xs : List ℕ) (k : ℕ) → from_le (xs ++ replicate k 0) ≡ from_le xs
unfolding from_le
from_le-zeros [] zero = refl
from_le-zeros [] (suc k) = omega (arith, from_le-zeros [] k)
from_le-zeros (x ∷ xs) k = omega (arith, from_le-zeros xs k)
