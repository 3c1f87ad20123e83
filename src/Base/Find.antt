-- ===== src/Base/Find.antt =====
-- The loops that look for the first element that passes a test and give its index, -1 as `none`.
use mathlib.Core.Option
use linux_network_lab.Base.Lists.{length, get_or}
use linux_network_lab.Base.Tests.{if◌then◌else◌, Bool-cases, Option-cases}
use Prim.Native.Nat.{ℕ, zero, suc, ◌<◌}
use mathlib.Core.Path.{◌≡◌, sym, ap, subst}
use mathlib.Core.Logic.{inl, inr}
use mathlib.Core.Bool.{Bool, true, false}
use mathlib.Core.List.{List, [], ◌∷◌}
use mathlib.Core.Option.{Option, none, some, none-ne-some}
use native.Mathlib.Omega.{arith}

module _ {A : Type 0} where
  unfoldable pub find_index : (A → Bool) → List A → Option ℕ
  find_index p [] = none
  find_index p (x ∷ xs) =
      let rest = Option.map suc (find_index p xs) in if p x then some 0 else rest

  pub record Hit (p : A → Bool) (xs : List A) (d : A) (k : ℕ) : Type 0 where
    pub within : k < length xs
    pub passes : p (get_or xs k d) ≡ true

pub some-inj {ℓ} : {A : Type ℓ} {a b : A} → some a ≡ some b → a ≡ b
some-inj {a} e = ap (λ o. elim o [ none ↦ a | some x ↦ x ]) e

module _ {A : Type 0} (p : A → Bool) where
  pub find_index-Hit : (xs : List A) (d : A) (k : ℕ) → find_index p xs ≡ some k → Hit p xs d k
  unfolding find_index
  find_index-Hit [] d k e = absurd (none-ne-some k e)
  find_index-Hit (x ∷ xs) d k e = elim (Bool-cases (p x)) [
    | inl hit ↦
        subst (λ n. Hit p (x ∷ xs) d n) (some-inj (rw hit at e))
          (record { within = omega arith; passes = hit })
    | inr miss ↦ elim (Option-cases (find_index p xs)) [
      | inl nowhere ↦ absurd (none-ne-some k (rw (miss, nowhere) at e))
      | inr (j, there) ↦
          let f = find_index-Hit xs d j there in
          subst (λ n. Hit p (x ∷ xs) d n) (some-inj (rw (miss, there) at e))
            (record { within = omega (arith, f.within); passes = f.passes })
    ]
  ]

  none_split :
      (x : A) (xs : List A)
      → find_index p (x ∷ xs) ≡ none
      → (p x ≡ false) × (find_index p xs ≡ none)
  unfolding find_index
  none_split x xs e = elim (Bool-cases (p x)) [
    | inl hit ↦ absurd (none-ne-some 0 (sym (rw hit at e)))
    | inr miss ↦ elim (Option-cases (find_index p xs)) [
      | inl nowhere ↦ (miss, nowhere)
      | inr (j, there) ↦ absurd (none-ne-some (suc j) (sym (rw (miss, there) at e)))
    ]
  ]

  pub find_index-none :
      (xs : List A) (d : A) (k : ℕ)
      → find_index p xs ≡ none
      → k < length xs
      → p (get_or xs k d) ≡ false
  find_index-none [] d k e l = elim l [ ]
  find_index-none (x ∷ xs) d zero e l = (none_split x xs e).0
  find_index-none (x ∷ xs) d (suc k) e l =
      find_index-none xs d k (none_split x xs e).1 (omega arith)
