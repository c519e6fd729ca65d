-- ===== src/Text/Space/Kept.antt =====
-- Trimming removes no byte that is not part of the encoding of white space, such as a colon.
use tsdns.Prelude.{
  ℕ, zero, suc, ◌≡◌, refl, sym, ap, ◌∙◌, Bool, true, not, ◌&&◌, ◌||◌, inl, inr, ℕ-cases, [], ◌∷◌,
  ◌++◌, reverse, Bytes, ◌==◌, arith,
}
use mathlib.Core.List.{reverse-cons}
use tsdns.Text.Bytes.{contains}
use tsdns.Text.Space.{space_width, space_width_back, skip, trim_left, trim_right, trim_space}

-- Whether none of the first `k` bytes is a colon.
no_colon : ℕ → Bytes → Bool
no_colon zero s = true
no_colon (suc k) [] = true
no_colon (suc k) (c ∷ s) = not (c == b':') && no_colon k s

space_width-no_colon : (s : Bytes) → no_colon (space_width s) s ≡ true
unfolding space_width no_colon
space_width-no_colon [] = refl
space_width-no_colon (a ∷ []) = ground arith
space_width-no_colon (a ∷ b ∷ []) = ground arith
space_width-no_colon (a ∷ b ∷ c ∷ s) = ground arith

space_width_back-no_colon : (s : Bytes) → no_colon (space_width_back s) s ≡ true
unfolding space_width_back no_colon
space_width_back-no_colon [] = refl
space_width_back-no_colon (a ∷ []) = ground arith
space_width_back-no_colon (a ∷ b ∷ []) = ground arith
space_width_back-no_colon (a ∷ b ∷ c ∷ s) = ground arith

contains-skip :
    (w : Bytes → ℕ)
    → ((s : Bytes) → no_colon (w s) s ≡ true)
    → (k : ℕ) (s : Bytes) → no_colon k s ≡ true
    → contains (skip w k s) b':' ≡ contains s b':'
unfolding skip contains no_colon
contains-skip w h k [] n = refl
contains-skip w h zero (c ∷ s) n = elim (ℕ-cases (w (c ∷ s))) [
  | inl e ↦ rw (e, skip) refl
  | inr (k, e) ↦
      let front : no_colon (suc k) (c ∷ s) ≡ true =
        ap (λ m. no_colon m (c ∷ s)) (sym e) ∙ h (c ∷ s) in
      rw (e, skip) (ground (arith, contains-skip w h k s))
]
contains-skip w h (suc k) (c ∷ s) n = ground (arith, contains-skip w h k s)

contains_last : (s : Bytes) (c b : ℕ) → contains (s ++ c ∷ []) b ≡ (c == b || contains s b)
unfolding contains
contains_last [] c b = refl
contains_last (x ∷ s) c b = ground (arith, contains_last s c b)

contains-reverse : (s : Bytes) (b : ℕ) → contains (reverse s) b ≡ contains s b
unfolding contains
contains-reverse [] b = refl
contains-reverse (c ∷ s) b =
    rw reverse-cons (contains_last (reverse s) c b ∙ ap (λ x. c == b || x) (contains-reverse s b))

-- A colon is in the trimmed text exactly if it is in the text.
pub contains-trim_space : (s : Bytes) → contains (trim_space s) b':' ≡ contains s b':'
unfolding trim_space trim_right trim_left no_colon
contains-trim_space s =
    contains-reverse (skip space_width_back 0 (reverse (trim_left s))) b':'
    ∙ contains-skip space_width_back space_width_back-no_colon 0 _ refl
    ∙ contains-reverse (trim_left s) b':'
    ∙ contains-skip space_width space_width-no_colon 0 s refl
