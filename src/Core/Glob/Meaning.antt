-- ===== src/Core/Glob/Meaning.antt =====
-- What the expression of a glob matches, for a regexp package that reads such expressions as
-- documented.
use tsdns.Prelude.{
  ℕ, Bool, true, not, ◌&&◌, ◌≡◌, ◌≢◌, ◌↔◌, refl, sym, ap, ◌∙◌, List, [], ◌∷◌, Bytes, ◌==◌, ==_iff,
  ==_ne, ==_refl, All, Bool-cases, inl, inr, arith,
}
use mathlib.Core.Path.{subst}
use tsdns.Core.Glob.{domain_to_regex}
use tsdns.Core.Glob.Pattern.{Piece, star, any, lit, pieces, domain_to_regex-pieces_regex}
use tsdns.Core.Glob.Matching.{some_rest, matches_pieces}
use tsdns.Core.Regexp.{Regexp, IsAsciiByte, IsAsciiPiece, ReadsGlobs}

-- A text is what a list of pieces stands for: a letter for itself, `?` for a character, and `*` for
-- any number of characters, of which none is a newline.
pub data Matches : List Piece → Bytes → Type 0 where
  ends : Matches [] []
  letter : (c : ℕ) (ps : List Piece) (s : Bytes) → Matches ps s → Matches (lit c ∷ ps) (c ∷ s)
  one :
      (c : ℕ) (ps : List Piece) (s : Bytes) → c ≢ b'\n' → Matches ps s → Matches (any ∷ ps) (c ∷ s)
  no_more : (ps : List Piece) (s : Bytes) → Matches ps s → Matches (star ∷ ps) s
  more :
      (c : ℕ) (ps : List Piece) (s : Bytes)
      → c ≢ b'\n'
      → Matches (star ∷ ps) s
      → Matches (star ∷ ps) (c ∷ s)

no_newline : (c : ℕ) → not (c == b'\n') ≡ true → c ≢ b'\n'
no_newline c h = λ e. cc (h, (==_iff c b'\n').1 e)

both : (a b : Bool) → (a && b) ≡ true → (a ≡ true) × (b ≡ true)
both a b h = ground arith

some_rest-Matches :
    (ps : List Piece) (s : Bytes)
    → ((t : Bytes) → matches_pieces ps t ≡ true → Matches ps t)
    → some_rest (matches_pieces ps) s ≡ true
    → Matches (star ∷ ps) s
unfolding some_rest
some_rest-Matches ps [] ih h = Matches.no_more ps [] (ih [] h)
some_rest-Matches ps (c ∷ s) ih h = elim (Bool-cases (matches_pieces ps (c ∷ s))) [
  | inl now ↦ Matches.no_more ps (c ∷ s) (ih (c ∷ s) now)
  | inr later ↦
      let (line, rest) =
        both (not (c == b'\n')) (some_rest (matches_pieces ps) s) (rw later at h) in
      Matches.more c ps s (no_newline c line) (some_rest-Matches ps s ih rest)
]

matches_pieces-Matches : (ps : List Piece) (s : Bytes) → matches_pieces ps s ≡ true → Matches ps s
unfolding matches_pieces
matches_pieces-Matches [] [] h = Matches.ends
matches_pieces-Matches [] (c ∷ s) h = absurd (cc h)
matches_pieces-Matches (star ∷ ps) s h = some_rest-Matches ps s (matches_pieces-Matches ps) h
matches_pieces-Matches (any ∷ ps) [] h = absurd (cc h)
matches_pieces-Matches (any ∷ ps) (c ∷ s) h =
    let (line, rest) = both (not (c == b'\n')) (matches_pieces ps s) h in
    Matches.one c ps s (no_newline c line) (matches_pieces-Matches ps s rest)
matches_pieces-Matches (lit d ∷ ps) [] h = absurd (cc h)
matches_pieces-Matches (lit d ∷ ps) (c ∷ s) h =
    let (same, rest) = both (c == d) (matches_pieces ps s) h in
    subst (λ x. Matches (lit d ∷ ps) (x ∷ s)) (sym ((==_iff c d).0 same))
      (Matches.letter d ps s (matches_pieces-Matches ps s rest))

some_rest_now : (f : Bytes → Bool) (s : Bytes) → f s ≡ true → some_rest f s ≡ true
unfolding some_rest
some_rest_now f [] h = h
some_rest_now f (c ∷ s) h = rw h

some_rest_later :
    (f : Bytes → Bool) (c : ℕ) (s : Bytes)
    → c ≢ b'\n'
    → some_rest f s ≡ true
    → some_rest f (c ∷ s) ≡ true
unfolding some_rest
some_rest_later f c s n h = ground (arith, ==_ne c b'\n' n)

Matches-matches_pieces : (ps : List Piece) (s : Bytes) → Matches ps s → matches_pieces ps s ≡ true
unfolding matches_pieces
Matches-matches_pieces _ _ Matches.ends = refl
Matches-matches_pieces _ _ (Matches.letter c ps s m) =
    rw (==_refl c) (Matches-matches_pieces ps s m)
Matches-matches_pieces _ _ (Matches.one c ps s n m) =
    rw (==_ne c b'\n' n) (Matches-matches_pieces ps s m)
Matches-matches_pieces _ _ (Matches.no_more ps s m) =
    some_rest_now (matches_pieces ps) s (Matches-matches_pieces ps s m)
Matches-matches_pieces _ _ (Matches.more c ps s n m) =
    some_rest_later (matches_pieces ps) c s n (Matches-matches_pieces (star ∷ ps) s m)

-- For a domain and a host of ASCII characters, and a regexp package that reads the expressions of
-- globs as documented: the expression of the domain compiles, and it matches the host exactly if the
-- host is what the pieces of the domain stand for.
pub match_string-domain_to_regex :
    (re : Regexp) (d host : Bytes)
    → ReadsGlobs re
    → All IsAsciiPiece (pieces d)
    → All IsAsciiByte host
    → (re.compiles (domain_to_regex d) ≡ true)
      × ((re.match_string (domain_to_regex d) host ≡ true) ↔ Matches (pieces d) host)
match_string-domain_to_regex re d host reads ascii_d ascii_h =
    let (compiled, matched) = reads (pieces d) host ascii_d ascii_h in
    let text = domain_to_regex-pieces_regex d in
    let found : re.match_string (domain_to_regex d) host ≡ matches_pieces (pieces d) host =
      ap (λ p. re.match_string p host) text ∙ matched in
    (
      ap re.compiles text ∙ compiled,
      (
        (λ h. matches_pieces-Matches (pieces d) host (sym found ∙ h)),
        (λ m. found ∙ Matches-matches_pieces (pieces d) host m),
      ),
    )
