-- ===== src/Core/Regexp.antt =====
-- Go's `regexp` package is a parameter: which patterns compile, and which texts a pattern matches
-- somewhere. A compiled expression is known by its pattern.
use tsdns.Prelude.{Bool, true, ◌≡◌, List, [], ◌∷◌, ◌++◌, Bytes, All, ◌<◌, ℕ}
use tsdns.Core.Glob.Pattern.{Piece, lit, pieces_regex}
use tsdns.Core.Glob.Matching.{matches_pieces}

pub record Regexp : Type 0 where
  pub compiles : Bytes → Bool
  pub match_string : Bytes → Bytes → Bool

abbrev pub IsAsciiByte : ℕ → Type 0
IsAsciiByte c = c < 128

abbrev pub IsAsciiPiece : Piece → Type 0
IsAsciiPiece (lit c) = c < 128
IsAsciiPiece _ = Unit

-- The documented meaning of the expressions that the program makes of globs: on ASCII texts a
-- pattern `^…$` of literals, `.` and `.*` compiles, and matches what its pieces match one by one.
abbrev pub ReadsGlobs : Regexp → Type 0
ReadsGlobs re =
    (ps : List Piece) (host : Bytes)
    → All IsAsciiPiece ps
    → All IsAsciiByte host
    → (re.compiles (b'^' ∷ (pieces_regex ps ++ b'$' ∷ [])) ≡ true)
      × (re.match_string (b'^' ∷ (pieces_regex ps ++ b'$' ∷ [])) host ≡ matches_pieces ps host)
