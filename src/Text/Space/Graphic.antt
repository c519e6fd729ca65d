-- ===== src/Text/Space/Graphic.antt =====
-- Visible ASCII text has no white space to trim.
use tsdns.Prelude.{ℕ, ◌≤◌, ◌≡◌, refl, [], ◌∷◌, reverse, Bytes, arith, All, All-append}
use mathlib.Core.List.{reverse-cons}
use tsdns.Text.Space.{space_width, space_width_back, trim_space}
use tsdns.Text.Space.Laws.{trim_space_stop}

abbrev pub IsGraphic : ℕ → Type 0
IsGraphic c = (33 ≤ c) × (c ≤ 126)

pub All-reverse : (P : ℕ → Type 0) (s : Bytes) → All P s → All P (reverse s)
All-reverse P [] h = tt
All-reverse P (c ∷ s) h =
    rw reverse-cons (All-append P (reverse s) (c ∷ []) (All-reverse P s h.1) (h.0, tt))

space_width_graphic : (s : Bytes) → All IsGraphic s → space_width s ≡ 0
unfolding space_width
space_width_graphic [] h = refl
space_width_graphic (c ∷ []) h = ground arith
space_width_graphic (c ∷ b ∷ []) h = ground arith
space_width_graphic (c ∷ b ∷ a ∷ s) h = ground arith

space_width_back_graphic : (s : Bytes) → All IsGraphic s → space_width_back s ≡ 0
unfolding space_width_back
space_width_back_graphic [] h = refl
space_width_back_graphic (c ∷ []) h = ground arith
space_width_back_graphic (c ∷ b ∷ []) h = ground arith
space_width_back_graphic (c ∷ b ∷ a ∷ s) h = ground arith

pub trim_space_graphic : (s : Bytes) → All IsGraphic s → trim_space s ≡ s
trim_space_graphic s h =
    trim_space_stop s (space_width_graphic s h)
      (space_width_back_graphic (reverse s) (All-reverse IsGraphic s h))
