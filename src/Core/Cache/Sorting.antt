-- ===== src/Core/Cache/Sorting.antt =====
-- The sorted list of wildcards: the first match in it is the longest match of all.
use tsdns.Prelude.{
  ℕ, ◌≤◌, Bool, true, false, ◌≡◌, refl, Option, none, some, List, [], ◌∷◌, if◌then◌else◌, length,
  leb, All, arith, le→leb, leb→le, sym, ap, ◌∙◌, Bool-cases, inl, inr,
}
use mathlib.Core.List.{Memᴰ}
use tsdns.Core.Record.{Record}
use tsdns.Core.Cache.{place, sort_wildcards}

abbrev size : Record → ℕ
size r = length r.domain

abbrev pub AtMost : ℕ → List Record → Type 0
AtMost n = All (λ r. length r.domain ≤ n)

abbrev pub IsSorted : List Record → Type 0
IsSorted [] = Unit
IsSorted (r ∷ rs) = AtMost (length r.domain) rs × IsSorted rs

AtMost-mono : (n m : ℕ) (rs : List Record) → n ≤ m → AtMost n rs → AtMost m rs
AtMost-mono n m [] l h = tt
AtMost-mono n m (r ∷ rs) l h = (omega (arith, h.0), AtMost-mono n m rs l h.1)

place-AtMost :
    (n : ℕ) (r : Record) (xs : List Record) → size r ≤ n → AtMost n xs → AtMost n (place r xs)
unfolding place
place-AtMost n r [] l h = (l, tt)
place-AtMost n r (x ∷ xs) l h = elim (Bool-cases (leb (size x) (size r))) [
  | inl short ↦ rw short (l, h)
  | inr long ↦ rw long (h.0, place-AtMost n r xs l h.1)
]

place-IsSorted : (r : Record) (xs : List Record) → IsSorted xs → IsSorted (place r xs)
unfolding place
place-IsSorted r [] s = (tt, tt)
place-IsSorted r (x ∷ xs) s = elim (Bool-cases (leb (size x) (size r))) [
  | inl short ↦ rw short (((ground arith), AtMost-mono (size x) (size r) xs (ground arith) s.0), s)
  | inr long ↦ rw long (place-AtMost (size x) r xs (ground arith) s.0, place-IsSorted r xs s.1)
]

-- `sort.SliceStable` leaves the wildcards with the longest domains first.
pub sort_wildcards-IsSorted : (rs : List Record) → IsSorted (sort_wildcards rs)
unfolding sort_wildcards
sort_wildcards-IsSorted [] = tt
sort_wildcards-IsSorted (r ∷ rs) = place-IsSorted r (sort_wildcards rs) (sort_wildcards-IsSorted rs)

module _ (p : Record → Bool) where
  -- A loop that returns the first record that passes a test.
  abbrev pub first_match : List Record → Option Record
  first_match [] = none
  first_match (r ∷ rs) = if p r then some r else first_match rs

  -- Of two matches the longer one, and the earlier one of two that are as long.
  abbrev pub better : Record → Option Record → Option Record
  better r none = some r
  better r (some b) = if leb (length b.domain) (length r.domain) then some r else some b

  -- The longest match, with no sorting; the first of those that are as long.
  abbrev pub longest_match : List Record → Option Record
  longest_match [] = none
  longest_match (r ∷ rs) = if p r then better r (longest_match rs) else longest_match rs

  first_match-le :
      (n : ℕ) (xs : List Record) (b : Record)
      → AtMost n xs
      → first_match xs ≡ some b
      → length b.domain ≤ n
  first_match-le n [] b h e = cc
  first_match-le n (x ∷ xs) b h e = ground (arith, first_match-le n xs b h.1)

  better_of_longer :
      (r : Record) (o : Option Record)
      → ((b : Record) → o ≡ some b → length b.domain ≤ length r.domain)
      → better r o ≡ some r
  better_of_longer r none h = refl
  better_of_longer r (some b) h = rw (le→leb _ _ (h b refl))

  place_short :
      (r x : Record) (xs : List Record)
      → IsSorted (x ∷ xs)
      → length x.domain ≤ length r.domain
      → first_match (r ∷ x ∷ xs)
        ≡ (if p r then better r (first_match (x ∷ xs)) else first_match (x ∷ xs))
  place_short r x xs s l = elim (Bool-cases (p r)) [
    | inr other ↦ rw other
    | inl hit ↦
        let bound = λ (b : Record) (e : first_match (x ∷ xs) ≡ some b).
          first_match-le (length r.domain) (x ∷ xs) b
            (l, AtMost-mono (length x.domain) (length r.domain) xs l s.0) e in
        rw hit (sym (better_of_longer r (first_match (x ∷ xs)) bound))
  ]

  place_long :
      (r x : Record) (o : Option Record)
      → leb (length x.domain) (length r.domain) ≡ false
      → (if p x then some x else (if p r then better r o else o))
        ≡ (if p r then better r (if p x then some x else o) else (if p x then some x else o))
  place_long r x o l = elim (Bool-cases (p x)) [
    | inl hit ↦ elim (Bool-cases (p r)) [
      | inl also ↦ rw (hit, also, l)
      | inr other ↦ rw (hit, other)
    ]
    | inr other ↦ rw other
  ]

  first_match-place :
      (r : Record) (xs : List Record)
      → IsSorted xs
      → first_match (place r xs) ≡ (if p r then better r (first_match xs) else first_match xs)
  unfolding place
  first_match-place r [] s = ground arith
  first_match-place r (x ∷ xs) s = elim (Bool-cases (leb (length x.domain) (length r.domain))) [
    | inl short ↦ rw short (place_short r x xs s (leb→le _ _ short))
    | inr long ↦ rw long (rw (first_match-place r xs s.1) (place_long r x (first_match xs) long))
  ]

  -- The first match in the sorted wildcards is the longest match, and the earliest one of those
  -- that are as long.
  pub first_match-sort_wildcards :
      (rs : List Record) → first_match (sort_wildcards rs) ≡ longest_match rs
  unfolding sort_wildcards
  first_match-sort_wildcards [] = refl
  first_match-sort_wildcards (r ∷ rs) =
      first_match-place r (sort_wildcards rs) (sort_wildcards-IsSorted rs)
      ∙ ap (λ o. if p r then better r o else o) (first_match-sort_wildcards rs)

  -- No match is longer than the longest match, which is one of the records, and matches.
  pub record IsLongest (rs : List Record) (b : Record) : Type 0 where
    pub member : Memᴰ b rs
    pub matching : p b ≡ true
    pub longest : All (λ r. p r ≡ true → length r.domain ≤ length b.domain) rs
