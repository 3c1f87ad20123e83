-- ===== src/Base/Lists.antt =====
-- C arrays as lists with native indices: reads, writes, and the part from an index on.
use Prim.Native.Nat.{ℕ, zero, suc, ◌+◌, ◌-◌, ◌≤◌, ◌<◌, min}
use mathlib.Core.Path.{◌≡◌, refl, ap}
use mathlib.Core.Logic.{◌≢◌}
use mathlib.Core.Bool.{Bool, true, false}
use mathlib.Core.List.{List, [], ◌∷◌, ◌++◌}
use mathlib.Core.Option.{Option, none, some}
use native.Mathlib.Omega.{arith}

module _ {ℓ} {A : Type ℓ} where
  abbrev pub length : List A → ℕ
  length [] = 0
  length (x ∷ xs) = suc (length xs)

  abbrev pub get_elem? : List A → ℕ → Option A
  get_elem? [] i = none
  get_elem? (x ∷ xs) zero = some x
  get_elem? (x ∷ xs) (suc i) = get_elem? xs i

  abbrev pub get_or : List A → ℕ → A → A
  get_or [] i d = d
  get_or (x ∷ xs) zero d = x
  get_or (x ∷ xs) (suc i) d = get_or xs i d

  -- A write out of bounds changes nothing.
  abbrev pub set : List A → ℕ → A → List A
  set [] i v = []
  set (x ∷ xs) zero v = v ∷ xs
  set (x ∷ xs) (suc i) v = x ∷ set xs i v

  abbrev pub take : ℕ → List A → List A
  take zero xs = []
  take (suc n) [] = []
  take (suc n) (x ∷ xs) = x ∷ take n xs

  abbrev pub drop : ℕ → List A → List A
  drop zero xs = xs
  drop (suc n) [] = []
  drop (suc n) (x ∷ xs) = drop n xs

  abbrev pub replicate : ℕ → A → List A
  replicate zero a = []
  replicate (suc n) a = a ∷ replicate n a

  -- `memcpy(xs, vs, length vs)`; what lies past the end of the array is not written.
  abbrev pub overwrite : List A → List A → List A
  overwrite [] vs = []
  overwrite (x ∷ xs) [] = x ∷ xs
  overwrite (x ∷ xs) (v ∷ vs) = v ∷ overwrite xs vs

  -- `memcpy(xs + i, vs, length vs)`
  abbrev pub write_at : List A → ℕ → List A → List A
  write_at xs zero vs = overwrite xs vs
  write_at [] (suc i) vs = []
  write_at (x ∷ xs) (suc i) vs = x ∷ write_at xs i vs

  -- the `n` elements from index `i` on
  abbrev pub slice : List A → ℕ → ℕ → List A
  slice xs i n = take n (drop i xs)

module _ {ℓ} {A : Type ℓ} where
  abbrev pub null : List A → Bool
  null [] = true
  null (x ∷ xs) = false

  pub not_null : (xs : List A) {n : ℕ} → length xs ≡ suc n → null xs ≡ false
  not_null [] h = absurd (omega arith)
  not_null (x ∷ xs) h = refl

module _ {ℓ} {A : Type ℓ} where
  pub length-append : (xs ys : List A) → length (xs ++ ys) ≡ length xs + length ys
  length-append [] ys = omega arith
  length-append (x ∷ xs) ys = omega (arith, length-append xs ys)

  pub length-set : (xs : List A) (i : ℕ) (v : A) → length (set xs i v) ≡ length xs
  length-set [] i v = refl
  length-set (x ∷ xs) zero v = refl
  length-set (x ∷ xs) (suc i) v = ap suc (length-set xs i v)

  pub get_elem?-set_self :
      (xs : List A) (i : ℕ) (v : A) → i < length xs → get_elem? (set xs i v) i ≡ some v
  get_elem?-set_self [] i v h = elim h [ ]
  get_elem?-set_self (x ∷ xs) zero v h = refl
  get_elem?-set_self (x ∷ xs) (suc i) v h = get_elem?-set_self xs i v (omega arith)

  pub get_elem?-set_ne :
      (xs : List A) {i j : ℕ} (v : A) → i ≢ j → get_elem? (set xs i v) j ≡ get_elem? xs j
  get_elem?-set_ne [] v h = refl
  get_elem?-set_ne (x ∷ xs) {i = zero} {j = zero} v h = absurd (h refl)
  get_elem?-set_ne (x ∷ xs) {i = zero} {j = suc j} v h = refl
  get_elem?-set_ne (x ∷ xs) {i = suc i} {j = zero} v h = refl
  get_elem?-set_ne (x ∷ xs) {i = suc i} {j = suc j} v h = get_elem?-set_ne xs v (λ e. h (ap suc e))

  pub get_or-set_self :
      (xs : List A) (i : ℕ) (v d : A) → i < length xs → get_or (set xs i v) i d ≡ v
  get_or-set_self [] i v d h = elim h [ ]
  get_or-set_self (x ∷ xs) zero v d h = refl
  get_or-set_self (x ∷ xs) (suc i) v d h = get_or-set_self xs i v d (omega arith)

  pub get_or-set_ne :
      (xs : List A) (i j : ℕ) (v d : A) → i ≢ j → get_or (set xs i v) j d ≡ get_or xs j d
  get_or-set_ne [] i j v d h = refl
  get_or-set_ne (x ∷ xs) zero zero v d h = absurd (h refl)
  get_or-set_ne (x ∷ xs) zero (suc j) v d h = refl
  get_or-set_ne (x ∷ xs) (suc i) zero v d h = refl
  get_or-set_ne (x ∷ xs) (suc i) (suc j) v d h = get_or-set_ne xs i j v d (λ e. h (ap suc e))

  pub get_elem?-append_old :
      (xs ys : List A) (k : ℕ) → k < length xs → get_elem? (xs ++ ys) k ≡ get_elem? xs k
  get_elem?-append_old [] ys k h = elim h [ ]
  get_elem?-append_old (x ∷ xs) ys zero h = refl
  get_elem?-append_old (x ∷ xs) ys (suc k) h = get_elem?-append_old xs ys k (omega arith)

  pub get_elem?-append_last :
      (xs : List A) (y : A) (k : ℕ) → k ≡ length xs → get_elem? (xs ++ y ∷ []) k ≡ some y
  get_elem?-append_last [] y zero h = refl
  get_elem?-append_last [] y (suc k) h = absurd (omega arith)
  get_elem?-append_last (x ∷ xs) y zero h = absurd (omega arith)
  get_elem?-append_last (x ∷ xs) y (suc k) h = get_elem?-append_last xs y k (omega arith)

  pub take-append-drop : (n : ℕ) (xs : List A) → take n xs ++ drop n xs ≡ xs
  take-append-drop zero xs = refl
  take-append-drop (suc n) [] = refl
  take-append-drop (suc n) (x ∷ xs) = rw (take-append-drop n xs)

  pub length-take : (n : ℕ) (xs : List A) → length (take n xs) ≡ min n (length xs)
  length-take zero xs = omega arith
  length-take (suc n) [] = omega arith
  length-take (suc n) (x ∷ xs) = omega (arith, length-take n xs)

  pub length-drop : (n : ℕ) (xs : List A) → length (drop n xs) ≡ length xs - n
  length-drop zero xs = omega arith
  length-drop (suc n) [] = omega arith
  length-drop (suc n) (x ∷ xs) = omega (arith, length-drop n xs)

  pub get_or-replicate : (n i : ℕ) (a d : A) → i < n → get_or (replicate n a) i d ≡ a
  get_or-replicate zero i a d h = elim h [ ]
  get_or-replicate (suc n) zero a d h = refl
  get_or-replicate (suc n) (suc i) a d h = get_or-replicate n i a d (omega arith)

  pub length-replicate : (n : ℕ) (a : A) → length (replicate n a) ≡ n
  length-replicate zero a = refl
  length-replicate (suc n) a = ap suc (length-replicate n a)

module _ {ℓ} {A : Type ℓ} where
  length-overwrite : (xs vs : List A) → length (overwrite xs vs) ≡ length xs
  length-overwrite [] vs = refl
  length-overwrite (x ∷ xs) [] = refl
  length-overwrite (x ∷ xs) (v ∷ vs) = ap suc (length-overwrite xs vs)

  pub length-write_at : (xs : List A) (i : ℕ) (vs : List A) → length (write_at xs i vs) ≡ length xs
  length-write_at xs zero vs = length-overwrite xs vs
  length-write_at [] (suc i) vs = refl
  length-write_at (x ∷ xs) (suc i) vs = ap suc (length-write_at xs i vs)

  take-overwrite :
      (xs vs : List A) (m : ℕ) → m ≡ length vs → m ≤ length xs → take m (overwrite xs vs) ≡ vs
  take-overwrite xs [] zero e h = refl
  take-overwrite xs [] (suc m) e h = absurd (omega arith)
  take-overwrite xs (v ∷ vs) zero e h = absurd (omega arith)
  take-overwrite [] (v ∷ vs) (suc m) e h = absurd (omega arith)
  take-overwrite (x ∷ xs) (v ∷ vs) (suc m) e h =
      ap (◌∷◌ v) (take-overwrite xs vs m (omega arith) (omega arith))

  -- Writing `vs` just past the first `k` elements extends them by `vs`.
  take-write_at :
      (xs : List A) (k m : ℕ) (vs : List A)
      → m ≡ k + length vs
      → m ≤ length xs
      → take m (write_at xs k vs) ≡ take k xs ++ vs
  take-write_at xs zero m vs e h = take-overwrite xs vs m (omega arith) h
  take-write_at [] (suc k) m vs e h = absurd (omega arith)
  take-write_at (x ∷ xs) (suc k) zero vs e h = absurd (omega arith)
  take-write_at (x ∷ xs) (suc k) (suc m) vs e h =
      ap (◌∷◌ x) (take-write_at xs k m vs (omega arith) (omega arith))

  -- The same of the elements from index `s` on.
  pub slice-write_at :
      (xs : List A) (s e k m : ℕ) (vs : List A)
      → e ≡ s + k
      → m ≡ k + length vs
      → s + m ≤ length xs
      → slice (write_at xs e vs) s m ≡ slice xs s k ++ vs
  slice-write_at xs zero e k m vs p q h =
      let p' : e ≡ k = omega arith in rw p' (take-write_at xs k m vs q (omega arith))
  slice-write_at xs (suc s) zero k m vs p q h = absurd (omega arith)
  slice-write_at [] (suc s) (suc e) zero m [] p q h = absurd (omega arith)
  slice-write_at [] (suc s) (suc e) k m vs p q h = absurd (omega arith)
  slice-write_at (x ∷ xs) (suc s) (suc e) k m vs p q h =
      slice-write_at xs s e k m vs (omega arith) q (omega arith)

  pub take-nil : (n : ℕ) → take {A = A} n [] ≡ []
  take-nil zero = refl
  take-nil (suc n) = refl

  pub drop-nil : (n : ℕ) → drop {A = A} n [] ≡ []
  drop-nil zero = refl
  drop-nil (suc n) = refl

  -- Skipping the first `n` of a slice moves its start.
  pub slice-skip :
      (xs : List A) (s k n t m : ℕ) → t ≡ s + n → k ≡ n + m → slice xs t m ≡ drop n (slice xs s k)
  slice-skip xs (suc s) k n zero m p q = absurd (omega arith)
  slice-skip [] (suc s) k n (suc t) m p q = rw (take-nil m, take-nil k, drop-nil n)
  slice-skip (x ∷ xs) (suc s) k n (suc t) m p q = slice-skip xs s k n t m (omega arith) q
  slice-skip xs zero k zero t m p q =
      let p' : t ≡ 0 = omega arith in let q' : k ≡ m = omega arith in rw (p', q')
  slice-skip xs zero zero (suc n) t m p q = absurd (omega arith)
  slice-skip xs zero (suc k) (suc n) zero m p q = absurd (omega arith)
  slice-skip [] zero (suc k) (suc n) (suc t) zero p q = refl
  slice-skip [] zero (suc k) (suc n) (suc t) (suc m) p q = refl
  slice-skip (x ∷ xs) zero (suc k) (suc n) (suc t) m p q =
      slice-skip xs zero k n t m (omega arith) (omega arith)

  pub length-slice : (xs : List A) (i n : ℕ) → i + n ≤ length xs → length (slice xs i n) ≡ n
  length-slice xs i n h = omega (arith, length-take n (drop i xs), length-drop i xs)

-- No byte of the text is `c`.
abbrev pub Lacks : ℕ → List ℕ → Type 0
Lacks c [] = Unit
Lacks c (x ∷ xs) = (x ≢ c) × Lacks c xs

pub Lacks-append : (c : ℕ) (xs ys : List ℕ) → Lacks c xs → Lacks c ys → Lacks c (xs ++ ys)
Lacks-append c [] ys h k = k
Lacks-append c (x ∷ xs) ys (n, h) k = (n, Lacks-append c xs ys h k)

abbrev pub All {ℓ} : {A : Type ℓ} → (A → Type 0) → List A → Type 0
All P [] = Unit
All P (x ∷ xs) = P x × All P xs
