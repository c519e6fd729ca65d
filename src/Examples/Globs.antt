-- ===== src/Examples/Globs.antt =====
-- A regexp package that knows the expressions of globs.
use tsdns.Prelude.{
  ℕ, Bool, true, false, ◌≡◌, ◌≢◌, ◌↔◌, refl, ap, ◌∙◌, List, [], ◌∷◌, ◌++◌, append_assoc, Bytes,
  ◌==◌, ==_ne, if◌then◌else◌, Bool-cases, inl, inr, arith,
}
use tsdns.Text.Bytes.{codes, contains}
use tsdns.Core.Glob.{is_special, domain_to_regex}
use tsdns.Core.Glob.Pattern.{Piece, star, any, lit, pieces, piece_regex, pieces_regex}
use tsdns.Core.Glob.Matching.{matches_pieces}
use tsdns.Core.Glob.Meaning.{Matches, match_string-domain_to_regex}
use tsdns.Core.Regexp.{Regexp, ReadsGlobs}

-- The pieces of an expression behind its `^`.
read_pieces : Bytes → List Piece
read_pieces [] = []
read_pieces (c ∷ []) = []
read_pieces (c ∷ d ∷ s) =
    let two = read_pieces s in
    let one = read_pieces (d ∷ s) in
    if c == b'\\'
    then lit d ∷ two
    else if c == b'.'
    then (if d == b'*' then star ∷ two else any ∷ one)
    else lit c ∷ one

glob_match : Bytes → Bytes → Bool
glob_match [] host = false
glob_match (c ∷ s) host = matches_pieces (read_pieces s) host

glob_regexp : Regexp
glob_regexp = record { compiles = λ p. true; match_string = glob_match }

-- A text that does not start with `*` and is not empty.
abbrev IsNext : Bytes → Type 0
IsNext [] = ⊥
IsNext (c ∷ s) = c ≢ b'*'

plain : (c : ℕ) → is_special c ≡ false → (c ≢ b'\\') × (c ≢ b'.') × (c ≢ b'*')
unfolding is_special contains
plain c h = ground arith

special_dot : is_special b'.' ≡ true
unfolding is_special contains
special_dot = refl

pieces_regex-IsNext : (ps : List Piece) → IsNext (pieces_regex ps ++ b'$' ∷ [])
pieces_regex-IsNext [] = omega arith
pieces_regex-IsNext (star ∷ ps) = omega arith
pieces_regex-IsNext (any ∷ ps) = omega arith
pieces_regex-IsNext (lit c ∷ ps) = elim (Bool-cases (is_special c)) [
  | inl special ↦ rw special (omega arith)
  | inr other ↦ rw other (plain c other).2
]

read_piece :
    (p : Piece) (r : Bytes) → IsNext r → read_pieces (piece_regex p ++ r) ≡ p ∷ read_pieces r
unfolding read_pieces
read_piece p [] n = absurd n
read_piece star (c ∷ r) n = refl
read_piece any (c ∷ r) n = rw (==_ne c b'*' n)
read_piece (lit d) (c ∷ r) n = elim (Bool-cases (is_special d)) [
  | inl special ↦ rw special
  | inr other ↦
      let (no_backslash, no_dot, no_star) = plain d other in
      rw (other, ==_ne d b'\\' no_backslash, ==_ne d b'.' no_dot)
]

read_pieces-pieces_regex : (ps : List Piece) → read_pieces (pieces_regex ps ++ b'$' ∷ []) ≡ ps
unfolding read_pieces
read_pieces-pieces_regex [] = refl
read_pieces-pieces_regex (p ∷ ps) =
    ap read_pieces (append_assoc (piece_regex p) (pieces_regex ps) (b'$' ∷ []))
    ∙ read_piece p (pieces_regex ps ++ b'$' ∷ []) (pieces_regex-IsNext ps)
    ∙ ap (◌∷◌ p) (read_pieces-pieces_regex ps)

glob_regexp-ReadsGlobs : ReadsGlobs glob_regexp
unfolding glob_regexp glob_match
glob_regexp-ReadsGlobs ps host a h =
    (refl, ap (λ qs. matches_pieces qs host) (read_pieces-pieces_regex ps))

match_string-domain_to_regex_example :
    (glob_regexp.compiles (domain_to_regex (codes "a?*c")) ≡ true)
    × ((glob_regexp.match_string (domain_to_regex (codes "a?*c")) (codes "abxc") ≡ true)
        ↔ Matches (pieces (codes "a?*c")) (codes "abxc"))
match_string-domain_to_regex_example =
    match_string-domain_to_regex glob_regexp (codes "a?*c") (codes "abxc") glob_regexp-ReadsGlobs
      (omega arith, (tt, (tt, (omega arith, tt))))
      (omega arith, (omega arith, (omega arith, (omega arith, tt))))
