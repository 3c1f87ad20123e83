-- ===== src/Chat/Files/Lines.antt =====
-- chat/server.c: lines and fields that hold no delimiter are read back as they were written.
use linux_network_lab.Base.{
  inl, inr, Bool-cases, ℕ, zero, suc, ◌-◌, ◌≤◌, ◌<◌, ◌≡◌, ◌≢◌, refl, ap, ◌∙◌, false, ◌||◌, List, [],
  ◌∷◌, ◌++◌, append-nil, append_assoc, ==_iff, Lacks, some, arith, length, leb, ◌==◌,
}
use linux_network_lab.Chat.Files.{nul, line_feed, c_string, lines_from, scan_until, literal}

ne_test : (x c : ℕ) → x ≢ c → (x == c) ≡ false
ne_test x c n = ground arith

pub c_string-Lacks : (xs : List ℕ) → Lacks nul xs → c_string xs ≡ xs
unfolding c_string
c_string-Lacks [] h = refl
c_string-Lacks (x ∷ xs) (n, h) = rw (ne_test x nul n) (ap (◌∷◌ x) (c_string-Lacks xs h))

pub c_string_has_no_nul : (xs : List ℕ) → Lacks nul (c_string xs)
unfolding c_string
c_string_has_no_nul [] = tt
c_string_has_no_nul (x ∷ xs) = elim (Bool-cases (x == nul)) [
  | inl hit ↦ rw hit tt
  | inr miss ↦ rw miss (ground arith, c_string_has_no_nul xs)
]

pub lines_from-line :
    (size room : ℕ) (line body rest : List ℕ)
    → Lacks line_feed body
    → length body < room
    → lines_from size room line (body ++ line_feed ∷ rest)
      ≡ (line ++ body ++ line_feed ∷ []) ∷ lines_from size size [] rest
unfolding lines_from
lines_from-line size room line [] rest h l = rw (append-nil line) refl
lines_from-line size room line (x ∷ body) rest (n, h) l =
    let goes_on : (x == line_feed || leb room 1) ≡ false = ground (arith, ne_test x line_feed n) in
    rw (goes_on, lines_from)
      (lines_from-line size (room - 1) (line ++ x ∷ []) body rest h (omega arith)
        ∙ rw (append_assoc line (x ∷ []) body) refl)

pub scan_until-stop :
    (stop room : ℕ) (body rest : List ℕ)
    → Lacks stop body
    → length body ≤ room
    → scan_until stop room (body ++ stop ∷ rest) ≡ (body, stop ∷ rest)
unfolding scan_until
scan_until-stop stop zero [] rest h l = refl
scan_until-stop stop (suc room) [] rest h l = rw ((==_iff stop stop).1 refl) refl
scan_until-stop stop zero (x ∷ body) rest h l = elim l [ ]
scan_until-stop stop (suc room) (x ∷ body) rest (n, h) l =
    rw (ne_test x stop n)
      (ap (λ p. (x ∷ p.0, p.1)) (scan_until-stop stop room body rest h (omega arith)))

pub literal-same : (c : ℕ) (rest : List ℕ) → literal c (c ∷ rest) ≡ some rest
unfolding literal
literal-same c rest = ground arith
