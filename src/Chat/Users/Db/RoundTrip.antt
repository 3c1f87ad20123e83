-- ===== src/Chat/Users/Db/RoundTrip.antt =====
-- chat/server.c: what `save_users` writes is what `load_users` reads.
use linux_network_lab.Base.{
  ℕ, ◌+◌, ◌≤◌, ◌<◌, ◌≡◌, ◌≢◌, refl, sym, ap, ◌∙◌, false, List, [], ◌∷◌, ◌++◌, append-nil,
  append_assoc, some, arith, length, length-append, All, subst, Lacks, Lacks-append, map, lt→ltb, ℤ,
}
use linux_network_lab.Base.Decimal.{is_digit, print_int, FitsInt, scan_int-print_int}
use linux_network_lab.Base.Decimal.Shape.{print_int-Lacks, length-print_int}
use linux_network_lab.Chat.Files.{nul, line_feed, bar, c_string, read_lines, lines_from, non_empty}
use linux_network_lab.Chat.Files.Lines.{
  c_string-Lacks, lines_from-line, scan_until-stop, literal-same,
}
use linux_network_lab.Chat.Users.{max_users, User}
use linux_network_lab.Chat.Users.Db.{print_user, print_users, parse_user, parse_line, load_lines}

-- What fits a line of the file: ids and flags that an `int` holds, and a name of at most 31 bytes
-- with no delimiter.
pub record IsStorable (u : User) : Type 0 where
  pub id_fits : FitsInt u.id
  pub active_fits : FitsInt u.active
  pub admin_fits : FitsInt u.is_admin
  pub named : u.username ≢ []
  pub short : length u.username ≤ 31
  pub no_bar : Lacks bar u.username
  pub no_line_feed : Lacks line_feed u.username
  pub no_nul : Lacks nul u.username

non_empty-pair : (xs rest : List ℕ) → xs ≢ [] → non_empty (xs, rest) ≡ some (xs, rest)
unfolding non_empty
non_empty-pair [] rest n = absurd (n refl)
non_empty-pair (x ∷ xs) rest n = refl

parse_user-print_user : (u : User) → IsStorable u → parse_user (print_user u) ≡ some u
unfolding parse_user print_user
parse_user-print_user u s =
    let admin = print_int u.is_admin ++ line_feed ∷ [] in
    let active = print_int u.active ++ bar ∷ admin in
    let named = u.username ++ bar ∷ active in
    rw
      (
        scan_int-print_int u.id (bar ∷ named) s.id_fits refl,
        literal-same bar named,
        scan_until-stop bar 31 u.username active s.no_bar s.short,
        non_empty-pair u.username (bar ∷ active) s.named,
        literal-same bar active,
        scan_int-print_int u.active (bar ∷ admin) s.active_fits refl,
        literal-same bar admin,
        scan_int-print_int u.is_admin (line_feed ∷ []) s.admin_fits refl,
      )
      refl

parse_line-print_user : (u : User) → IsStorable u → parse_line (print_user u) ≡ some u
unfolding parse_line
parse_line-print_user u s = rw (parse_user-print_user u s, parse_line) refl

-- A line without its line feed.
body : User → List ℕ
body u =
    print_int u.id ++ bar ∷ (u.username ++ bar ∷ (print_int u.active ++ bar ∷ print_int u.is_admin))

print_user-body : (u : User) → print_user u ≡ body u ++ line_feed ∷ []
unfolding print_user body
print_user-body u =
    let admin = print_int u.is_admin in
    let active = print_int u.active ++ bar ∷ admin in
    rw
      (
        append_assoc (print_int u.id) (bar ∷ (u.username ++ bar ∷ active)) (line_feed ∷ []),
        append_assoc u.username (bar ∷ active) (line_feed ∷ []),
        append_assoc (print_int u.active) (bar ∷ admin) (line_feed ∷ []),
      )
      refl

body-Lacks :
    (c : ℕ) (u : User)
    → is_digit c ≡ false
    → c ≢ 45
    → c ≢ bar
    → Lacks c u.username
    → Lacks c (body u)
unfolding body
body-Lacks c u d m b h =
    let number = λ (z : ℤ). print_int-Lacks c z d m in
    let no_bar : bar ≢ c = λ e. b (sym e) in
    let active = print_int u.active ++ bar ∷ print_int u.is_admin in
    Lacks-append c (print_int u.id) (bar ∷ (u.username ++ bar ∷ active)) (number u.id) (
      no_bar,
      Lacks-append c u.username (bar ∷ active) h (
        no_bar,
        Lacks-append c (print_int u.active) (bar ∷ print_int u.is_admin) (number u.active)
            (no_bar, number u.is_admin),
      ),
    )

length-body : (u : User) → IsStorable u → length (body u) < 255
unfolding body
length-body u s =
    let active = print_int u.active ++ bar ∷ print_int u.is_admin in
    omega (
      arith,
      s.short,
      length-print_int u.id s.id_fits,
      length-print_int u.active s.active_fits,
      length-print_int u.is_admin s.admin_fits,
      length-append (print_int u.id) (bar ∷ (u.username ++ bar ∷ active)),
      length-append u.username (bar ∷ active),
      length-append (print_int u.active) (bar ∷ print_int u.is_admin),
    )

print_user-c_string : (u : User) → IsStorable u → c_string (print_user u) ≡ print_user u
print_user-c_string u s = c_string-Lacks (print_user u) (
    subst (λ l. Lacks nul l) (sym (print_user-body u))
      (Lacks-append nul (body u) (line_feed ∷ [])
        (body-Lacks nul u refl (λ e. omega (arith, e)) (λ e. omega (arith, e)) s.no_nul)
        (λ e. omega (arith, e), tt)))

lines_from-print_users :
    (users : List User)
    → All IsStorable users
    → lines_from 255 255 [] (print_users users) ≡ map print_user users
unfolding lines_from print_users
lines_from-print_users [] h = refl
lines_from-print_users (u ∷ users) (s, h) =
    let rest = print_users users in
    ap (λ l. lines_from 255 255 [] (l ++ rest)) (print_user-body u)
    ∙ ap (lines_from 255 255 []) (append_assoc (body u) (line_feed ∷ []) rest)
    ∙ lines_from-line 255 255 [] (body u) rest
        (body-Lacks line_feed u refl (λ e. omega (arith, e)) (λ e. omega (arith, e)) s.no_line_feed)
        (length-body u s)
    ∙ ap (λ l. l ∷ lines_from 255 255 [] rest) (sym (print_user-body u))
    ∙ ap (λ ls. print_user u ∷ ls) (lines_from-print_users users h)

pub read_lines-print_users :
    (users : List User)
    → All IsStorable users
    → read_lines 256 (print_users users) ≡ map print_user users
unfolding read_lines
read_lines-print_users users h =
    ap (map c_string) (lines_from-print_users users h) ∙ strings users h
  where
    strings :
        (us : List User) → All IsStorable us → map c_string (map print_user us) ≡ map print_user us
    strings [] k = refl
    strings (u ∷ us) (s, k) = rw (print_user-c_string u s) (ap (◌∷◌ (print_user u)) (strings us k))

pub load_lines-print_user :
    (table users : List User)
    → All IsStorable users
    → length table + length users ≤ max_users
    → load_lines table (map print_user users) ≡ table ++ users
unfolding load_lines
load_lines-print_user table [] h l = sym (append-nil table)
load_lines-print_user table (u ∷ users) (s, h) l =
    rw (lt→ltb (length table) max_users (omega arith), parse_line-print_user u s)
      (load_lines-print_user (table ++ u ∷ []) users h (omega (arith, length-append table (u ∷ [])))
        ∙ append_assoc table (u ∷ []) users)
