-- ===== src/Base/Decimal.antt =====
-- `%d` and `%ld`, as `fprintf` writes and `sscanf` reads them.
pub mod Shape
use Prim.Native.Nat.{ℕ, zero, suc, ◌+◌, ◌-◌, ◌*◌, ◌/◌, ◌%◌, ◌^◌, ◌≤◌, ◌<◌, min}
use mathlib.Core.Path.{◌≡◌, refl, sym, ap, ◌∙◌}
use mathlib.Core.Logic.{inl, inr}
use mathlib.Core.Bool.{Bool, true, false, ◌&&◌, ◌||◌, false≢true}
use mathlib.Core.List.{List, [], ◌∷◌, ◌++◌, append_assoc}
use mathlib.Core.Option
use mathlib.Core.Option.{Option, none, some}
use native.Mathlib.Omega.{arith}
use linux_network_lab.Base.Tests.{ltb, leb, ◌==◌, if◌then◌else◌, Bool-cases}
use linux_network_lab.Base.Int.{ℤ, pos, negsuc}

abbrev pub is_digit : ℕ → Bool
is_digit c = leb 48 c && leb c 57

-- `isspace`
abbrev pub is_space : ℕ → Bool
is_space c = c == 32 || (leb 9 c && leb c 13)

-- The digits of a number, with enough fuel if the number is below it.
pub digits : ℕ → ℕ → List ℕ
digits zero n = []
digits (suc fuel) n = elim (ltb n 10) [
  | true ↦ (48 + n) ∷ []
  | false ↦ digits fuel (n / 10) ++ (48 + n % 10) ∷ []
]

abbrev pub print_nat : ℕ → List ℕ
print_nat n = digits (suc n) n

unfoldable pub print_int : ℤ → List ℕ
unfolding digits
print_int (pos n) = print_nat n
print_int (negsuc n) = 45 ∷ print_nat (suc n)

-- The digits at the front, as a number after the digits so far, and what follows them.
pub scan_digits : ℕ → List ℕ → ℕ × List ℕ
scan_digits acc [] = (acc, [])
scan_digits acc (c ∷ cs) =
    let more = scan_digits (acc * 10 + (c - 48)) cs in if is_digit c then more else (acc, c ∷ cs)

abbrev pub starts_digit : List ℕ → Bool
starts_digit [] = false
starts_digit (c ∷ cs) = is_digit c

pub skip_spaces : List ℕ → List ℕ
skip_spaces [] = []
skip_spaces (c ∷ cs) = let more = skip_spaces cs in if is_space c then more else c ∷ cs

abbrev pub negated : ℕ → ℤ
negated zero = pos 0
negated (suc n) = negsuc n

-- A number with its sign, and what follows it; `none` where there is no digit.
pub scan_number : List ℕ → Option (ℤ × List ℕ)
scan_number [] = none
scan_number (c ∷ cs) =
    if c == 45
    then (if starts_digit cs
        then some (negated (scan_digits 0 cs).0, (scan_digits 0 cs).1)
        else none)
    else if c == 43
    then (if starts_digit cs then some (pos (scan_digits 0 cs).0, (scan_digits 0 cs).1) else none)
    else if is_digit c
    then some (pos (scan_digits 0 (c ∷ cs)).0, (scan_digits 0 (c ∷ cs)).1)
    else none

-- A `long` holds what fits it, and else the nearest that fits.
abbrev pub to_long : ℤ → ℤ
to_long (pos n) = pos (min n (2 ^ 63 - 1))
to_long (negsuc n) = negsuc (min n (2 ^ 63 - 1))

-- The low 32 bits of a `long`, as an `int`.
abbrev pub signed_32 : ℕ → ℤ
signed_32 w = if ltb w (2 ^ 31) then pos w else negsuc (2 ^ 32 - 1 - w)

abbrev pub long_to_int : ℤ → ℤ
long_to_int (pos n) = signed_32 (n % 2 ^ 32)
long_to_int (negsuc n) = signed_32 (2 ^ 32 - 1 - n % 2 ^ 32)

-- `%ld` and `%d`. A number that does not fit is read as glibc does.
unfoldable pub scan_long : List ℕ → Option (ℤ × List ℕ)
unfolding scan_number scan_digits skip_spaces
scan_long cs = Option.map (λ p. (to_long p.0, p.1)) (scan_number (skip_spaces cs))

unfoldable pub scan_int : List ℕ → Option (ℤ × List ℕ)
unfolding scan_long
scan_int cs = Option.map (λ p. (long_to_int p.0, p.1)) (scan_long cs)

-- The numbers that an `int` and a `long` hold.
abbrev pub FitsInt : ℤ → Type 0
FitsInt (pos n) = n < 2 ^ 31
FitsInt (negsuc n) = n < 2 ^ 31

abbrev pub FitsLong : ℤ → Type 0
FitsLong (pos n) = n < 2 ^ 63
FitsLong (negsuc n) = n < 2 ^ 63

int_fits : (z : ℤ) → FitsInt z → long_to_int (to_long z) ≡ z
int_fits (pos n) h = ground arith
int_fits (negsuc n) h = ground arith

long_fits : (z : ℤ) → FitsLong z → to_long z ≡ z
long_fits (pos n) h = ground arith
long_fits (negsuc n) h = ground arith

digits_start : (fuel n : ℕ) (rest : List ℕ) → n < fuel → starts_digit (digits fuel n ++ rest) ≡ true
unfolding digits
digits_start zero n rest h = elim h [ ]
digits_start (suc fuel) n rest h = elim (Bool-cases (ltb n 10)) [
  | inl low ↦ rw (low, digits) (ground arith)
  | inr high ↦
      rw (high, digits, append_assoc (digits fuel (n / 10)) ((48 + n % 10) ∷ []) rest)
        (digits_start fuel (n / 10) ((48 + n % 10) ∷ rest) (ground arith))
]

scan_digit :
    (acc d : ℕ) (rest : List ℕ)
    → d < 10
    → scan_digits acc ((48 + d) ∷ rest) ≡ scan_digits (acc * 10 + d) rest
unfolding scan_digits
scan_digit acc d rest h =
    let digit : is_digit (48 + d) ≡ true = ground arith in
    let value : acc * 10 + (48 + d - 48) ≡ acc * 10 + d = omega arith in rw (digit, value) refl

scan_digits-digits :
    (fuel n : ℕ) (rest : List ℕ)
    → n < fuel
    → scan_digits 0 (digits fuel n ++ rest) ≡ scan_digits n rest
unfolding digits
scan_digits-digits zero n rest h = elim h [ ]
scan_digits-digits (suc fuel) n rest h = elim (Bool-cases (ltb n 10)) [
  | inl low ↦
      rw (low, digits)
        (scan_digit 0 n rest (ground arith) ∙ ap (λ k. scan_digits k rest) (omega arith))
  | inr high ↦
      rw (high, digits, append_assoc (digits fuel (n / 10)) ((48 + n % 10) ∷ []) rest)
        (scan_digits-digits fuel (n / 10) ((48 + n % 10) ∷ rest) (ground arith)
          ∙ scan_digit (n / 10) (n % 10) rest (omega arith)
          ∙ ap (λ k. scan_digits k rest) (omega arith))
]

-- Digits end where the next byte is none.
ends : (n : ℕ) (rest : List ℕ) → starts_digit rest ≡ false → scan_digits n rest ≡ (n, rest)
unfolding scan_digits
ends n [] h = refl
ends n (c ∷ cs) h = rw h refl

scan_digits-print_nat :
    (n : ℕ) (rest : List ℕ)
    → starts_digit rest ≡ false
    → scan_digits 0 (print_nat n ++ rest) ≡ (n, rest)
scan_digits-print_nat n rest h = scan_digits-digits (suc n) n rest (omega arith) ∙ ends n rest h

scan_number-digit :
    (cs : List ℕ)
    → starts_digit cs ≡ true
    → (skip_spaces cs ≡ cs)
      × (scan_number cs ≡ some (pos (scan_digits 0 cs).0, (scan_digits 0 cs).1))
unfolding scan_number skip_spaces
scan_number-digit [] h = absurd (false≢true h)
scan_number-digit (c ∷ cs) h =
    let no_space : is_space c ≡ false = ground arith in
    let no_minus : (c == 45) ≡ false = ground arith in
    let no_plus : (c == 43) ≡ false = ground arith in
    rw (no_space, no_minus, no_plus, h) (refl, refl)

pub scan_number-print_int :
    (z : ℤ) (rest : List ℕ)
    → starts_digit rest ≡ false
    → scan_number (skip_spaces (print_int z ++ rest)) ≡ some (z, rest)
unfolding print_int skip_spaces scan_number
scan_number-print_int (pos n) rest h =
    let cs = print_nat n ++ rest in
    let d = scan_number-digit cs (digits_start (suc n) n rest (omega arith)) in
    ap scan_number d.0 ∙ d.1 ∙ ap (λ p. some (pos p.0, p.1)) (scan_digits-print_nat n rest h)
scan_number-print_int (negsuc n) rest h =
    let cs = print_nat (suc n) ++ rest in
    rw (digits_start (suc (suc n)) (suc n) rest (omega arith), scan_digits-print_nat (suc n) rest h)
      refl

-- What is written with `%d` is read back with `%d`, from where it stands to the next byte.
pub scan_int-print_int :
    (z : ℤ) (rest : List ℕ)
    → FitsInt z
    → starts_digit rest ≡ false
    → scan_int (print_int z ++ rest) ≡ some (z, rest)
unfolding scan_int
scan_int-print_int z rest f h =
    ap
      (λ o.
        Option.map (λ (p : ℤ × List ℕ). (long_to_int p.0, p.1))
          (Option.map (λ (p : ℤ × List ℕ). (to_long p.0, p.1)) o))
      (scan_number-print_int z rest h)
    ∙ ap (λ x. some (x, rest)) (int_fits z f)

pub scan_long-print_int :
    (z : ℤ) (rest : List ℕ)
    → FitsLong z
    → starts_digit rest ≡ false
    → scan_long (print_int z ++ rest) ≡ some (z, rest)
unfolding scan_long
scan_long-print_int z rest f h =
    ap (Option.map (λ (p : ℤ × List ℕ). (to_long p.0, p.1))) (scan_number-print_int z rest h)
    ∙ ap (λ x. some (x, rest)) (long_fits z f)
