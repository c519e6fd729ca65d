-- ===== src/Core/Glob/Pattern.antt =====
-- The regular expression of a glob, piece by piece.
use tsdns.Prelude.{
  ℕ, true, false, ◌≡◌, ◌≢◌, refl, sym, ap, ◌∙◌, List, [], ◌∷◌, ◌++◌, Bytes, ◌==◌, if◌then◌else◌,
  arith, Bool-cases, inl, inr, ==_ne,
}
use tsdns.Text.Bytes.{codes, contains, replace_pair}
use tsdns.Core.Glob.{is_special, quote_meta, domain_to_regex}

-- A glob: `*` for any text, `?` for any character, and characters for themselves.
pub data Piece : Type 0 where
  star any : Piece
  lit : ℕ → Piece

abbrev pub piece : ℕ → Piece
piece c = if c == b'*' then star else if c == b'?' then any else lit c

abbrev pub pieces : Bytes → List Piece
pieces [] = []
pieces (c ∷ s) = piece c ∷ pieces s

-- A piece in the syntax of regular expressions.
abbrev pub piece_regex : Piece → Bytes
piece_regex star = codes ".*"
piece_regex any = codes "."
piece_regex (lit c) = if is_special c then b'\\' ∷ c ∷ [] else c ∷ []

abbrev pub pieces_regex : List Piece → Bytes
pieces_regex [] = []
pieces_regex (p ∷ ps) = piece_regex p ++ pieces_regex ps

-- The pieces behind the first replacement, which leaves `?` escaped.
abbrev half_regex : Bytes → Bytes
half_regex [] = []
half_regex (c ∷ s) = (if c == b'*' then codes ".*" else piece_regex (lit c)) ++ half_regex s

-- The text does not start with the byte `b`.
abbrev NotHead : ℕ → Bytes → Type 0
NotHead b [] = Unit
NotHead b (c ∷ s) = c ≢ b

-- What one step of the replacement of `\b` does with each kind of input.
module _ (b : ℕ) (new : Bytes) (b_ne : b ≢ b'\\') where
  abbrev replaced : Bytes → Bytes
  replaced = replace_pair b'\\' b new

  replace_plain : (c : ℕ) (s : Bytes) → c ≢ b'\\' → replaced (c ∷ s) ≡ c ∷ replaced s
  unfolding replace_pair
  replace_plain c [] n = refl
  replace_plain c (d ∷ s) n = ground arith

  replace_hit : (s : Bytes) → replaced (b'\\' ∷ b ∷ s) ≡ new ++ replaced s
  unfolding replace_pair
  replace_hit s = ground arith

  replace_other :
      (c : ℕ) (s : Bytes) → c ≢ b → c ≢ b'\\' → replaced (b'\\' ∷ c ∷ s) ≡ b'\\' ∷ c ∷ replaced s
  unfolding replace_pair
  replace_other c s n m = ground (arith, replace_plain c s m)

  replace_miss : (s : Bytes) → NotHead b s → replaced (b'\\' ∷ s) ≡ b'\\' ∷ replaced s
  unfolding replace_pair
  replace_miss [] n = refl
  replace_miss (d ∷ s) n = ground arith

  replace_backslash :
      (s : Bytes) → NotHead b s → replaced (b'\\' ∷ b'\\' ∷ s) ≡ b'\\' ∷ b'\\' ∷ replaced s
  replace_backslash s n =
      replace_miss (b'\\' ∷ s) (λ e. b_ne (sym e)) ∙ ap (◌∷◌ b'\\') (replace_miss s n)

  -- An escaped byte is replaced if it is `b`, and left alone if not.
  replace_escaped :
      (c : ℕ) (s : Bytes)
      → NotHead b s
      → replaced (b'\\' ∷ c ∷ s) ≡ (if c == b then new else b'\\' ∷ c ∷ []) ++ replaced s
  replace_escaped c s n = ground (arith, replace_hit s, replace_other c s, replace_backslash s n)

special_backslash : (c : ℕ) → is_special c ≡ false → (c ≢ b'\\') × (c ≢ b'*') × (c ≢ b'?')
unfolding is_special contains
special_backslash c h = ground arith

star_special : is_special b'*' ≡ true
unfolding is_special contains
star_special = refl

backslash_special : is_special b'\\' ≡ true
unfolding is_special contains
backslash_special = refl

quote_meta-NotHead : (s : Bytes) → NotHead b'*' (quote_meta s)
unfolding quote_meta
quote_meta-NotHead [] = tt
quote_meta-NotHead (c ∷ s) = elim (Bool-cases (is_special c)) [
  | inl special ↦ rw special (omega arith)
  | inr other ↦ rw other (special_backslash c other).1
]

-- The first replacement, of `\\*`.
replace_stars : (s : Bytes) → replace_pair b'\\' b'*' (codes ".*") (quote_meta s) ≡ half_regex s
unfolding quote_meta
replace_stars [] = unfold replace_pair in refl
replace_stars (c ∷ s) = elim (Bool-cases (is_special c)) [
  | inl special ↦ rw (
    special,
    replace_escaped b'*' (codes ".*") (omega arith) c _ (quote_meta-NotHead s),
    replace_stars s,
  )
  | inr other ↦
      let (no_backslash, no_star, no_mark) = special_backslash c other in
      rw (
        other,
        ==_ne c b'*' no_star,
        replace_plain b'*' (codes ".*") (omega arith) c _ no_backslash,
        replace_stars s,
      )
]

half_regex-NotHead : (s : Bytes) → NotHead b'?' (half_regex s)
half_regex-NotHead [] = tt
half_regex-NotHead (c ∷ s) = elim (Bool-cases (c == b'*')) [
  | inl is_star ↦ rw is_star (omega arith)
  | inr not_star ↦ elim (Bool-cases (is_special c)) [
    | inl special ↦ rw (not_star, special) (omega arith)
    | inr other ↦ rw (not_star, other) (special_backslash c other).2
  ]
]

marks_ne : ◌≢◌ {A = ℕ} b'?' b'\\'
marks_ne = omega arith

mark_or_lit :
    (c : ℕ) (r : Bytes)
    → is_special c ≡ true
    → (if c == b'?' then codes "." else b'\\' ∷ c ∷ []) ++ r
      ≡ piece_regex (if c == b'?' then any else lit c) ++ r
mark_or_lit c r special = elim (Bool-cases (c == b'?')) [
  | inl is_mark ↦ rw is_mark
  | inr other ↦ rw (other, special)
]

-- The second replacement, of `\\?`.
replace_marks :
    (s : Bytes) → replace_pair b'\\' b'?' (codes ".") (half_regex s) ≡ pieces_regex (pieces s)
replace_marks [] = unfold replace_pair in refl
replace_marks (c ∷ s) = elim (Bool-cases (c == b'*')) [
  | inl is_star ↦ rw (
    is_star,
    replace_plain b'?' (codes ".") marks_ne b'.' _ (omega arith),
    replace_plain b'?' (codes ".") marks_ne b'*' _ (omega arith),
    replace_marks s,
  )
  | inr not_star ↦ elim (Bool-cases (is_special c)) [
    | inl special ↦
        rw
          (
            not_star,
            special,
            replace_escaped b'?' (codes ".") marks_ne c _ (half_regex-NotHead s),
            replace_marks s,
          )
          (mark_or_lit c (pieces_regex (pieces s)) special)
    | inr other ↦
        let (no_backslash, no_star, no_mark) = special_backslash c other in
        rw (
          not_star,
          other,
          ==_ne c b'?' no_mark,
          other,
          replace_plain b'?' (codes ".") marks_ne c _ no_backslash,
          replace_marks s,
        )
  ]
]

-- The regular expression of a domain is `^`, then for each `*` of the domain `.*`, for each `?` a
-- `.`, and for every other byte that byte, escaped if it is special, and then `$`.
pub domain_to_regex-pieces_regex :
    (d : Bytes) → domain_to_regex d ≡ b'^' ∷ (pieces_regex (pieces d) ++ b'$' ∷ [])
unfolding domain_to_regex
domain_to_regex-pieces_regex d = rw (replace_stars d, replace_marks d)
