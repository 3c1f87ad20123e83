-- ===== src/Chat/Messages/Clean.antt =====
-- chat/server.c: what `sanitize_message` makes of a text.
use linux_network_lab.Base.{
  ℕ, zero, suc, ◌≤◌, ◌≢◌, sym, ◌||◌, inl, inr, List, [], ◌∷◌, arith, length, take, Lacks, ◌==◌,
  Bool-cases, if◌then◌else◌,
}
use linux_network_lab.Chat.Files.{line_feed, bar}
use linux_network_lab.Chat.Messages.{carriage_return, slash, sanitize_message}

-- A byte that a line of the files may hold.
replaced_ne : (c x : ℕ) → x ≢ c → c ≢ slash → (if x == bar then slash else x) ≢ c
replaced_ne c x n s = elim (Bool-cases (x == bar)) [
  | inl hit ↦ rw hit (λ e. s (sym e))
  | inr miss ↦ rw miss n
]

-- What the text lacks, it lacks also afterwards, a slash aside.
pub sanitize-Lacks :
    (c : ℕ) (text : List ℕ) → c ≢ slash → Lacks c text → Lacks c (sanitize_message text)
unfolding sanitize_message
sanitize-Lacks c [] s h = tt
sanitize-Lacks c (x ∷ text) s (n, h) = elim (Bool-cases (x == carriage_return || x == line_feed)) [
  | inl ends ↦ rw (ends, sanitize_message) tt
  | inr more ↦ rw (more, sanitize_message) (replaced_ne c x n s, sanitize-Lacks c text s h)
]

no_bar_left : (x : ℕ) → (if x == bar then slash else x) ≢ bar
no_bar_left x = elim (Bool-cases (x == bar)) [
  | inl hit ↦ rw hit (λ e. omega (arith, e))
  | inr miss ↦ rw miss (ground arith)
]

pub sanitize-Lacks-bar : (text : List ℕ) → Lacks bar (sanitize_message text)
unfolding sanitize_message
sanitize-Lacks-bar [] = tt
sanitize-Lacks-bar (x ∷ text) = elim (Bool-cases (x == carriage_return || x == line_feed)) [
  | inl ends ↦ rw (ends, sanitize_message) tt
  | inr more ↦ rw (more, sanitize_message) (no_bar_left x, sanitize-Lacks-bar text)
]

pub sanitize-Lacks-line_feed : (text : List ℕ) → Lacks line_feed (sanitize_message text)
unfolding sanitize_message
sanitize-Lacks-line_feed [] = tt
sanitize-Lacks-line_feed (x ∷ text) = elim (Bool-cases (x == carriage_return || x == line_feed)) [
  | inl ends ↦ rw (ends, sanitize_message) tt
  | inr more ↦
      let n : x ≢ line_feed = ground arith in
      rw (more, sanitize_message)
        (replaced_ne line_feed x n (λ e. omega (arith, e)), sanitize-Lacks-line_feed text)
]

pub length-sanitize : (text : List ℕ) → length (sanitize_message text) ≤ length text
unfolding sanitize_message
length-sanitize [] = omega arith
length-sanitize (x ∷ text) = elim (Bool-cases (x == carriage_return || x == line_feed)) [
  | inl ends ↦ rw (ends, sanitize_message) (omega arith)
  | inr more ↦ rw (more, sanitize_message) (omega (arith, length-sanitize text))
]

pub take-Lacks : (c n : ℕ) (text : List ℕ) → Lacks c text → Lacks c (take n text)
take-Lacks c zero text h = tt
take-Lacks c (suc n) [] h = tt
take-Lacks c (suc n) (x ∷ text) (k, h) = (k, take-Lacks c n text h)
