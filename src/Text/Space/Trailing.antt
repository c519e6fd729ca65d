-- ===== src/Text/Space/Trailing.antt =====
-- White space behind a text, such as the end of a line, is trimmed away.
use tsdns.Prelude.{
  ℕ, ◌≤◌, ◌≡◌, ◌≢◌, refl, true, [], ◌∷◌, ◌++◌, reverse, reverse-append, reverse-reverse, append-nil,
  Bytes, arith, All, All-append,
}
use mathlib.Core.List.{reverse-cons}
use tsdns.Text.Space.{is_ascii_space, space_width, space_width_back, skip, trim_right, trim_space}
use tsdns.Text.Space.Laws.{skip_stop, trim_left_stop, space_width_append}

abbrev pub AllSpace : Bytes → Type 0
AllSpace = All (λ c. is_ascii_space c ≡ true)

AllSpace-reverse : (w : Bytes) → AllSpace w → AllSpace (reverse w)
AllSpace-reverse [] h = tt
AllSpace-reverse (c ∷ w) h =
    rw reverse-cons (All-append _ (reverse w) (c ∷ []) (AllSpace-reverse w h.1) (h.0, tt))

width_back_space : (c : ℕ) (r : Bytes) → is_ascii_space c ≡ true → space_width_back (c ∷ r) ≡ 1
unfolding space_width_back
width_back_space c [] h = rw h
width_back_space c (b ∷ []) h = rw h
width_back_space c (b ∷ a ∷ r) h = rw h

skip-AllSpace :
    (w t : Bytes) → AllSpace w → skip space_width_back 0 (w ++ t) ≡ skip space_width_back 0 t
unfolding skip
skip-AllSpace [] t h = refl
skip-AllSpace (c ∷ w) t h = rw (width_back_space c (w ++ t) h.0, skip) (skip-AllSpace w t h.1)

space_le : (c : ℕ) → is_ascii_space c ≡ true → c ≤ 127
unfolding is_ascii_space
space_le c h = ground arith

width_in_front : (s w : Bytes) → s ≢ [] → space_width s ≡ 0 → AllSpace w → space_width (s ++ w) ≡ 0
width_in_front s [] n h a = rw append-nil h
width_in_front s (c ∷ w) n h a = space_width_append s c w n (space_le c a.0) h

-- A text that neither starts nor ends with white space is what is left of it with ASCII white space
-- behind it.
pub trim_space-append :
    (s w : Bytes)
    → s ≢ []
    → space_width s ≡ 0
    → space_width_back (reverse s) ≡ 0
    → AllSpace w
    → trim_space (s ++ w) ≡ s
unfolding trim_space trim_right
trim_space-append s w n h k a =
    rw
      (
        trim_left_stop (s ++ w) (width_in_front s w n h a),
        reverse-append,
        skip-AllSpace (reverse w) (reverse s) (AllSpace-reverse w a),
        skip_stop space_width_back (reverse s) k,
      )
      (reverse-reverse s)
