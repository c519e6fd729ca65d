-- ===== src/Core/Glob/Matching.antt =====
-- What a glob matches: `?` stands for one character, and `*` for any number of them. A `.` of a
-- regular expression is no newline, and on ASCII texts a character is a byte.
use tsdns.Prelude.{Bool, true, false, not, ◌&&◌, ◌||◌, List, [], ◌∷◌, Bytes, ◌==◌}
use tsdns.Core.Glob.Pattern.{Piece, star, any, lit}

-- `f` holds of some rest of the text, with no newline before it.
unfoldable pub some_rest : (Bytes → Bool) → Bytes → Bool
some_rest f [] = f []
some_rest f (c ∷ s) = f (c ∷ s) || (not (c == b'\n') && some_rest f s)

unfoldable pub matches_pieces : List Piece → Bytes → Bool
unfolding some_rest
matches_pieces [] [] = true
matches_pieces [] (c ∷ s) = false
matches_pieces (star ∷ ps) s = some_rest (matches_pieces ps) s
matches_pieces (any ∷ ps) [] = false
matches_pieces (any ∷ ps) (c ∷ s) = not (c == b'\n') && matches_pieces ps s
matches_pieces (lit d ∷ ps) [] = false
matches_pieces (lit d ∷ ps) (c ∷ s) = c == d && matches_pieces ps s
