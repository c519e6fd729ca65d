-- ===== src/Text/Space.antt =====
-- `strings.TrimSpace` on bytes: it removes the encodings of the runes of `unicode.IsSpace` from
-- both ends. No such encoding is a proper part of another rune's, so the bytes decide.
pub mod Laws
pub mod Trailing
pub mod Graphic
pub mod Kept
use tsdns.Prelude.{
  ℕ, zero, suc, Bool, ◌&&◌, ◌||◌, [], ◌∷◌, reverse, Bytes, ◌==◌, leb, if◌then◌else◌,
}

-- \t \n \v \f \r and the blank.
unfoldable pub is_ascii_space : ℕ → Bool
is_ascii_space c = c == b' ' || (leb 9 c && leb c 13)

-- U+0085 and U+00A0.
pub is_space2 : ℕ → ℕ → Bool
is_space2 a b = a == 0xC2 && (b == 0x85 || b == 0xA0)

-- U+1680, U+2000 to U+200A, U+2028, U+2029, U+202F, U+205F and U+3000.
pub is_space3 : ℕ → ℕ → ℕ → Bool
is_space3 a b c =
    (a == 0xE1 && b == 0x9A && c == 0x80)
    || (a == 0xE2
        && b == 0x80
        && ((leb 0x80 c && leb c 0x8A) || c == 0xA8 || c == 0xA9 || c == 0xAF))
    || (a == 0xE2 && b == 0x81 && c == 0x9F)
    || (a == 0xE3 && b == 0x80 && c == 0x80)

-- The number of bytes of the white space at the start of a text, 0 if there is none.
unfoldable pub space_width : Bytes → ℕ
unfolding is_ascii_space is_space2 is_space3
space_width [] = 0
space_width (a ∷ []) = if is_ascii_space a then 1 else 0
space_width (a ∷ b ∷ []) = if is_ascii_space a then 1 else if is_space2 a b then 2 else 0
space_width (a ∷ b ∷ c ∷ s) =
    if is_ascii_space a then 1 else if is_space2 a b then 2 else if is_space3 a b c then 3 else 0

-- The same at the end of a text that is given in reverse.
unfoldable pub space_width_back : Bytes → ℕ
unfolding is_ascii_space is_space2 is_space3
space_width_back [] = 0
space_width_back (a ∷ []) = if is_ascii_space a then 1 else 0
space_width_back (b ∷ a ∷ []) = if is_ascii_space b then 1 else if is_space2 a b then 2 else 0
space_width_back (c ∷ b ∷ a ∷ s) =
    if is_ascii_space c then 1 else if is_space2 b c then 2 else if is_space3 a b c then 3 else 0

-- Drops `k` bytes, and then white space for as long as there is some.
pub skip : (Bytes → ℕ) → ℕ → Bytes → Bytes
skip width k [] = []
skip width zero (c ∷ s) = elim (width (c ∷ s)) [ zero ↦ c ∷ s | suc k ↦ skip width k s ]
skip width (suc k) (c ∷ s) = skip width k s

unfoldable pub trim_left : Bytes → Bytes
unfolding skip space_width
trim_left = skip space_width 0

unfoldable pub trim_right : Bytes → Bytes
unfolding skip space_width_back
trim_right s = reverse (skip space_width_back 0 (reverse s))

unfoldable pub trim_space : Bytes → Bytes
unfolding trim_left trim_right
trim_space s = trim_right (trim_left s)
