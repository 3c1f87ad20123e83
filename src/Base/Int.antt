-- ===== src/Base/Int.antt =====
-- `int` values as integers, and text as a list of bytes, with their Boolean tests.
use Prim.Native.Nat.{ℕ}
use mathlib.Core.Path.{◌≡◌}
use mathlib.Core.Logic.{◌↔◌}
use mathlib.Core.Bool.{Bool, true, false, ◌&&◌}
use mathlib.Core.List.{List, [], ◌∷◌}
use native.Mathlib.Omega.{arith}
use linux_network_lab.Base.Tests.{◌==◌, ==_iff, ltb}

-- `negsuc n` is -(n + 1).
pub data ℤ : Type 0 where
  pos : ℕ → ℤ
  negsuc : ℕ → ℤ

abbrev pub minus_one : ℤ
minus_one = negsuc 0

infix 50 ◌==ℤ◌ ◌==s◌
abbrev pub ◌==ℤ◌ : ℤ → ℤ → Bool
pos m ==ℤ pos n = m == n
pos m ==ℤ negsuc n = false
negsuc m ==ℤ pos n = false
negsuc m ==ℤ negsuc n = m == n

-- `a < b`
abbrev pub ltℤ : ℤ → ℤ → Bool
ltℤ (pos m) (pos n) = ltb m n
ltℤ (pos m) (negsuc n) = false
ltℤ (negsuc m) (pos n) = true
ltℤ (negsuc m) (negsuc n) = ltb n m

pub ==ℤ_iff : (a b : ℤ) → ((a ==ℤ b) ≡ true) ↔ (a ≡ b)
==ℤ_iff (pos m) (pos n) = ground (arith, ==_iff m n)
==ℤ_iff (pos m) (negsuc n) = ground arith
==ℤ_iff (negsuc m) (pos n) = ground arith
==ℤ_iff (negsuc m) (negsuc n) = ground (arith, ==_iff m n)

-- `strcmp(xs, ys) == 0`
unfoldable pub ◌==s◌ : List ℕ → List ℕ → Bool
[] ==s [] = true
[] ==s (y ∷ ys) = false
(x ∷ xs) ==s [] = false
(x ∷ xs) ==s (y ∷ ys) = x == y && xs ==s ys

pub ==s_iff : (xs ys : List ℕ) → ((xs ==s ys) ≡ true) ↔ (xs ≡ ys)
unfolding ◌==s◌
==s_iff [] [] = ground arith
==s_iff [] (y ∷ ys) = ground arith
==s_iff (x ∷ xs) [] = ground arith
==s_iff (x ∷ xs) (y ∷ ys) = ground (arith, ==_iff x y, ==s_iff xs ys)
