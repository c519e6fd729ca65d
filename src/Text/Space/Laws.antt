-- ===== src/Text/Space/Laws.antt =====
-- Trimming leaves nothing to trim, and leaves a text with no white space at its ends alone.
use tsdns.Prelude.{
  ℕ, zero, suc, ◌≡◌, ◌≢◌, refl, sym, ap, ◌∙◌, inl, inr, ℕ-cases, [], ◌∷◌, ◌++◌, reverse,
  reverse-append, reverse-reverse, Bytes, arith, ◌≤◌,
}
use tsdns.Text.Space.{space_width, space_width_back, skip, trim_left, trim_right, trim_space}

pub skip_stop : (w : Bytes → ℕ) (s : Bytes) → w s ≡ 0 → skip w 0 s ≡ s
unfolding skip
skip_stop w [] h = refl
skip_stop w (c ∷ s) h = rw (h, skip)

skip_done : (w : Bytes → ℕ) (k : ℕ) (s : Bytes) → w [] ≡ 0 → w (skip w k s) ≡ 0
unfolding skip
skip_done w k [] h = h
skip_done w zero (c ∷ s) h = elim (ℕ-cases (w (c ∷ s))) [
  | inl e ↦ rw (e, skip) e
  | inr (k, e) ↦ rw (e, skip) (skip_done w k s h)
]
skip_done w (suc k) (c ∷ s) h = skip_done w k s h

skip_suffix : (w : Bytes → ℕ) (k : ℕ) (s : Bytes) → (u : Bytes) × (s ≡ u ++ skip w k s)
unfolding skip
skip_suffix w k [] = ([], refl)
skip_suffix w zero (c ∷ s) = elim (ℕ-cases (w (c ∷ s))) [
  | inl e ↦ ([], rw (e, skip))
  | inr (k, e) ↦ let (u, p) = skip_suffix w k s in (c ∷ u, rw (e, skip) (ap (◌∷◌ c) p))
]
skip_suffix w (suc k) (c ∷ s) = let (u, e) = skip_suffix w k s in (c ∷ u, ap (◌∷◌ c) e)

-- A prefix of a text that does not start with white space does not either.
space_width_prefix : (p u : Bytes) → space_width (p ++ u) ≡ 0 → space_width p ≡ 0
unfolding space_width
space_width_prefix [] u h = refl
space_width_prefix (a ∷ []) [] h = h
space_width_prefix (a ∷ []) (b ∷ []) h = ground arith
space_width_prefix (a ∷ []) (b ∷ c ∷ u) h = ground arith
space_width_prefix (a ∷ b ∷ []) [] h = h
space_width_prefix (a ∷ b ∷ []) (c ∷ u) h = ground arith
space_width_prefix (a ∷ b ∷ c ∷ p) u h = h

trim_right_prefix : (s : Bytes) → (u : Bytes) × (s ≡ trim_right s ++ u)
unfolding trim_right
trim_right_prefix s =
    let (u, p) = skip_suffix space_width_back 0 (reverse s) in
    (reverse u, sym (reverse-reverse s) ∙ ap reverse p ∙ reverse-append u _)

trim_right_stop : (s : Bytes) → space_width_back (reverse s) ≡ 0 → trim_right s ≡ s
unfolding trim_right
trim_right_stop s h = ap reverse (skip_stop space_width_back (reverse s) h) ∙ reverse-reverse s

pub trim_left_stop : (s : Bytes) → space_width s ≡ 0 → trim_left s ≡ s
unfolding trim_left
trim_left_stop s h = skip_stop space_width s h

-- No white space is left at the end.
pub trim_space_back : (s : Bytes) → space_width_back (reverse (trim_space s)) ≡ 0
unfolding trim_space
trim_space_back s =
    rw reverse-reverse
      (skip_done space_width_back 0 (reverse (trim_left s)) (unfold space_width_back in refl))

-- No white space is left at the start.
pub trim_space_front : (s : Bytes) → space_width (trim_space s) ≡ 0
unfolding trim_space
trim_space_front s =
    let (u, e) = trim_right_prefix (trim_left s) in
    space_width_prefix (trim_right (trim_left s)) u
      (sym (ap space_width e) ∙ skip_done space_width 0 s (unfold space_width in refl))

-- A text with no white space at its ends is left alone.
pub trim_space_stop :
    (s : Bytes) → space_width s ≡ 0 → space_width_back (reverse s) ≡ 0 → trim_space s ≡ s
unfolding trim_space
trim_space_stop s h k = ap trim_right (trim_left_stop s h) ∙ trim_right_stop s k

-- Trimming twice is trimming once.
pub trim_space-trim_space : (s : Bytes) → trim_space (trim_space s) ≡ trim_space s
trim_space-trim_space s = trim_space_stop (trim_space s) (trim_space_front s) (trim_space_back s)

-- No byte below 0x80 goes on with the encoding of a rune.
pub space_width_append :
    (h : Bytes) (b : ℕ) (s : Bytes)
    → h ≢ []
    → b ≤ 127
    → space_width h ≡ 0
    → space_width (h ++ b ∷ s) ≡ 0
unfolding space_width
space_width_append [] b s n l h = absurd (n refl)
space_width_append (a ∷ []) b [] n l h = ground arith
space_width_append (a ∷ []) b (c ∷ s) n l h = ground arith
space_width_append (a ∷ d ∷ []) b s n l h = ground arith
space_width_append (a ∷ d ∷ c ∷ h) b s n l k = k
