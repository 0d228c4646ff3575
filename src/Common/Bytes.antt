-- ===== src/Common/Bytes.antt =====
-- Byte strings as lists of numbers: equality, lexicographic order (`strcmp` on texts with no zero
-- byte) and little-endian numbers.
use Prim.Native.Nat.{ℕ, zero, suc, ◌+◌, ◌*◌, ◌/◌, ◌%◌, ◌^◌, ◌<◌}
use mathlib.Core.Path.{◌≡◌, refl, ap}
use mathlib.Core.Logic.{◌↔◌}
use mathlib.Core.Bool.{Bool, true, false, ◌&&◌}
use mathlib.Core.List.{List, [], ◌∷◌}
use native.Mathlib.Omega.{arith}
use native.Mathlib.Nat.{pow-suc}
use namespace_indexer.Common.Tests.{◌==◌, ltb, if◌then◌else◌}
use namespace_indexer.Common.Lists.{length, All}

unfoldable pub bytes_eq : List ℕ → List ℕ → Bool
bytes_eq [] [] = true
bytes_eq (x ∷ xs) (y ∷ ys) = (x == y) && bytes_eq xs ys
bytes_eq _ _ = false

pub bytes_eq_refl : (xs : List ℕ) → bytes_eq xs xs ≡ true
unfolding bytes_eq
bytes_eq_refl [] = refl
bytes_eq_refl (x ∷ xs) = ground (arith, bytes_eq_refl xs)

bytes_eq_sound : (xs ys : List ℕ) → bytes_eq xs ys ≡ true → xs ≡ ys
unfolding bytes_eq
bytes_eq_sound [] [] h = refl
bytes_eq_sound [] (y ∷ ys) h = ground arith
bytes_eq_sound (x ∷ xs) [] h = ground arith
bytes_eq_sound (x ∷ xs) (y ∷ ys) h = ground (arith, bytes_eq_sound xs ys)

pub bytes_eq_iff : (xs ys : List ℕ) → (bytes_eq xs ys ≡ true) ↔ (xs ≡ ys)
bytes_eq_iff xs ys = (bytes_eq_sound xs ys, λ e. rw e (bytes_eq_refl ys))

-- Is `xs` before `ys` in lexicographic order?
unfoldable pub bytes_lt : List ℕ → List ℕ → Bool
bytes_lt [] [] = false
bytes_lt [] (y ∷ ys) = true
bytes_lt (x ∷ xs) [] = false
bytes_lt (x ∷ xs) (y ∷ ys) =
    let rest = bytes_lt xs ys in if ltb x y then true else if x == y then rest else false

-- The number that little-endian bytes stand for, and the `n` low bytes of a number.
unfoldable pub le_read : List ℕ → ℕ
le_read [] = 0
le_read (b ∷ bs) = b + 256 * le_read bs

unfoldable pub le_write : ℕ → ℕ → List ℕ
le_write zero v = []
le_write (suc n) v = (v % 256) ∷ le_write n (v / 256)

pub length-le_write : (n v : ℕ) → length (le_write n v) ≡ n
unfolding le_write
length-le_write zero v = refl
length-le_write (suc n) v = ap suc (length-le_write n (v / 256))

pub le_read-le_write : (n v : ℕ) → v < 256 ^ n → le_read (le_write n v) ≡ v
unfolding le_write le_read
le_read-le_write zero v h = omega arith
le_read-le_write (suc n) v h =
    let p = pow-suc 256 n in omega (arith, le_read-le_write n (v / 256) (omega (arith, p)))

-- The bytes of a number that bytes were read as.
pub le_write-le_read :
    (xs : List ℕ) → All (λ x. x < 256) xs → le_write (length xs) (le_read xs) ≡ xs
unfolding le_write le_read
le_write-le_read [] a = refl
le_write-le_read (x ∷ xs) a =
    let low : (x + 256 * le_read xs) % 256 ≡ x = omega (arith, a.0) in
    let high : (x + 256 * le_read xs) / 256 ≡ le_read xs = omega (arith, a.0) in
    rw (low, high) (ap (◌∷◌ x) (le_write-le_read xs a.1))
