-- ===== src/Base/Decimal/Shape.antt =====
-- The bytes and the length of a printed number.
use Prim.Native.Nat.{ℕ, zero, suc, ◌+◌, ◌*◌, ◌/◌, ◌%◌, ◌≤◌, ◌<◌}
use mathlib.Core.Path.{◌≡◌}
use mathlib.Core.Logic.{◌≢◌, inl, inr}
use mathlib.Core.Bool.{true, false}
use mathlib.Core.List.{[], ◌∷◌}
use native.Mathlib.Omega.{arith}
use linux_network_lab.Base.Lists.{length, length-append, Lacks, Lacks-append}
use linux_network_lab.Base.Tests.{ltb, Bool-cases}
use linux_network_lab.Base.Int.{ℤ, pos, negsuc}
use linux_network_lab.Base.Decimal.{is_digit, digits, print_int, FitsInt, FitsLong}

digits-Lacks : (c fuel n : ℕ) → is_digit c ≡ false → Lacks c (digits fuel n)
unfolding digits
digits-Lacks c zero n h = tt
digits-Lacks c (suc fuel) n h = elim (Bool-cases (ltb n 10)) [
  | inl low ↦ rw (low, digits) (λ e. ground arith, tt)
  | inr high ↦
      rw (high, digits)
        (Lacks-append c (digits fuel (n / 10)) ((48 + n % 10) ∷ []) (digits-Lacks c fuel (n / 10) h)
          (λ e. ground arith, tt))
]

-- A printed number has no byte but digits and a minus.
pub print_int-Lacks : (c : ℕ) (z : ℤ) → is_digit c ≡ false → c ≢ 45 → Lacks c (print_int z)
unfolding print_int
print_int-Lacks c (pos n) h m = digits-Lacks c (suc n) n h
print_int-Lacks c (negsuc n) h m =
    (λ e. m (omega (arith, e)), digits-Lacks c (suc (suc n)) (suc n) h)

pow10 : ℕ → ℕ
pow10 zero = 1
pow10 (suc k) = 10 * pow10 k

length-digits : (k fuel n : ℕ) → n < 10 * pow10 k → length (digits fuel n) ≤ suc k
unfolding digits pow10
length-digits k zero n h = omega arith
length-digits zero (suc fuel) n h =
    let low : ltb n 10 ≡ true = ground arith in rw (low, digits) (omega arith)
length-digits (suc k) (suc fuel) n h = elim (Bool-cases (ltb n 10)) [
  | inl low ↦ rw (low, digits) (omega arith)
  | inr high ↦
      rw (high, digits)
        (omega (
          arith,
          length-append (digits fuel (n / 10)) ((48 + n % 10) ∷ []),
          length-digits k fuel (n / 10) (omega arith),
        ))
]

pub length-print_int : (z : ℤ) → FitsInt z → length (print_int z) ≤ 11
unfolding print_int pow10
length-print_int (pos n) h = omega (arith, length-digits 9 (suc n) n (omega (arith, h)))
length-print_int (negsuc n) h =
    omega (arith, length-digits 9 (suc (suc n)) (suc n) (omega (arith, h)))

pub length-print_long : (z : ℤ) → FitsLong z → length (print_int z) ≤ 20
unfolding print_int pow10
length-print_long (pos n) h = omega (arith, length-digits 18 (suc n) n (omega (arith, h)))
length-print_long (negsuc n) h =
    omega (arith, length-digits 18 (suc (suc n)) (suc n) (omega (arith, h)))
