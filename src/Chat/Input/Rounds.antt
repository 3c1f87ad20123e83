-- ===== src/Chat/Input/Rounds.antt =====
-- chat/server.c: the rounds of the loop that takes lines off the input buffer.
use mathlib.Core.Option.{none-ne-some}
use linux_network_lab.Base.{
  ℕ, zero, suc, ◌≤◌, ◌<◌, ◌≡◌, refl, sym, ap, subst, ◌∙◌, inl, inr, true, false, List, [], ◌∷◌,
  ◌++◌, none, some, arith, length, take, drop, length-drop, ◌==◌, Bool-cases, Option-cases,
}
use linux_network_lab.Chat.Input.{newline, memchr, Server, Conn, after_line, drain}

some-inj : {a b : ℕ} → some a ≡ some b → a ≡ b
some-inj {a} e = ap (λ o. elim o [ none ↦ a | some x ↦ x ]) e

-- A byte that is found stands within the bytes, and bytes behind them change nothing.
pub record Found (c : ℕ) (xs ys : List ℕ) (k : ℕ) : Type 0 where
  pub within : k < length xs
  pub still : memchr c (xs ++ ys) ≡ some k
  pub before : take k (xs ++ ys) ≡ take k xs
  pub behind : drop (suc k) (xs ++ ys) ≡ drop (suc k) xs ++ ys

pub memchr-Found : (c : ℕ) (xs ys : List ℕ) (k : ℕ) → memchr c xs ≡ some k → Found c xs ys k
unfolding memchr
memchr-Found c [] ys k e = absurd (none-ne-some k e)
memchr-Found c (x ∷ xs) ys k e = elim (Bool-cases (x == c)) [
  | inl hit ↦
      subst (λ n. Found c (x ∷ xs) ys n) (some-inj (rw hit at e))
        (record { within = omega arith; still = rw hit refl; before = refl; behind = refl })
  | inr miss ↦ elim (Option-cases (memchr c xs)) [
    | inl nowhere ↦ absurd (none-ne-some k (rw (miss, nowhere) at e))
    | inr (j, there) ↦
        let f = memchr-Found c xs ys j there in
        subst (λ n. Found c (x ∷ xs) ys n) (some-inj (rw (miss, there) at e))
          (record {
            within = omega (arith, f.within);
            still = rw (miss, f.still) refl;
            before = ap (◌∷◌ x) f.before;
            behind = f.behind;
          })
  ]
]

pub no_line_in_none : (xs : List ℕ) → length xs ≤ 0 → memchr newline xs ≡ none
unfolding memchr
no_line_in_none [] h = refl
no_line_in_none (x ∷ xs) h = absurd (omega (arith, h))

module _ {S : Type 0} (v : Server S) where
  pub length-after_line : (rest : List ℕ) (s : S) → length (after_line v rest s).input ≤ length rest
  unfolding after_line
  length-after_line rest s = elim (Bool-cases (v.is_active s)) [
    | inl on ↦ rw on (omega arith)
    | inr gone ↦ rw gone (omega arith)
  ]

  pub drain_gone : (n : ℕ) (c : Conn S) → v.is_active c.server ≡ false → drain v n c ≡ c
  unfolding drain
  drain_gone zero c e = refl
  drain_gone (suc n) c e = rw (e, drain) refl

  pub drain_no_line : (n : ℕ) (c : Conn S) → memchr newline c.input ≡ none → drain v n c ≡ c
  unfolding drain
  drain_no_line zero c e = refl
  drain_no_line (suc n) c e = elim (Bool-cases (v.is_active c.server)) [
    | inl on ↦ rw (on, e, drain) refl
    | inr gone ↦ rw (gone, drain) refl
  ]

  pub drain_goes_on :
      (n : ℕ) (c : Conn S) (k : ℕ)
      → v.is_active c.server ≡ true
      → memchr newline c.input ≡ some k
      → (v.process_line (take k c.input) c.server).0 ≡ true
      → drain v (suc n) c
        ≡ drain v n
            (after_line v (drop (suc k) c.input) (v.process_line (take k c.input) c.server).1)
  unfolding drain
  drain_goes_on n c k on e g = rw (on, e, g, drain) refl

  pub drain_stops :
      (n : ℕ) (c : Conn S) (k : ℕ)
      → v.is_active c.server ≡ true
      → memchr newline c.input ≡ some k
      → (v.process_line (take k c.input) c.server).0 ≡ false
      → drain v (suc n) c
        ≡ after_line v (drop (suc k) c.input) (v.process_line (take k c.input) c.server).1
  unfolding drain
  drain_stops n c k on e g = rw (on, e, g, drain) refl

  -- More rounds than bytes change nothing.
  pub drain_rounds :
      (n m : ℕ) (c : Conn S) → length c.input ≤ n → length c.input ≤ m → drain v n c ≡ drain v m c
  drain_rounds zero m c hn hm =
      let e = no_line_in_none c.input hn in drain_no_line 0 c e ∙ sym (drain_no_line m c e)
  drain_rounds (suc n) zero c hn hm =
      let e = no_line_in_none c.input hm in drain_no_line (suc n) c e ∙ sym (drain_no_line 0 c e)
  drain_rounds (suc n) (suc m) c hn hm = elim (Bool-cases (v.is_active c.server)) [
    | inr gone ↦ drain_gone (suc n) c gone ∙ sym (drain_gone (suc m) c gone)
    | inl on ↦ elim (Option-cases (memchr newline c.input)) [
      | inl nowhere ↦ drain_no_line (suc n) c nowhere ∙ sym (drain_no_line (suc m) c nowhere)
      | inr (k, there) ↦
          let rest = drop (suc k) c.input in
          let (goes_on, s) = v.process_line (take k c.input) c.server in
          let within = (memchr-Found newline c.input [] k there).within in
          let shorter = length-after_line rest s in
          elim (Bool-cases goes_on) [
            | inl g ↦
                drain_goes_on n c k on there g
                ∙ drain_rounds n m (after_line v rest s)
                    (omega (arith, shorter, within, hn, length-drop (suc k) c.input))
                    (omega (arith, shorter, within, hm, length-drop (suc k) c.input))
                ∙ sym (drain_goes_on m c k on there g)
            | inr g ↦ drain_stops n c k on there g ∙ sym (drain_stops m c k on there g)
          ]
    ]
  ]
