-- ===== src/Core/Cache/Longest.antt =====
-- The longest match of a list of records is one of them, matches, and no match is longer.
use tsdns.Prelude.{
  ℕ, ◌≤◌, Bool, true, false, ◌≡◌, refl, Option, none, some, List, [], ◌∷◌, length, leb, leb→le, All,
  arith, Bool-cases, inl, inr,
}
use mathlib.Core.List.{Memᴰ}
use mathlib.Core.Path.{subst}
use mathlib.Core.Option.{some-injective}
use tsdns.Core.Record.{Record}
use tsdns.Core.Cache.Sorting.{better, longest_match, IsLongest}

module _ (p : Record → Bool) where
  -- The matches are no longer than `n`.
  abbrev pub MatchesAtMost : ℕ → List Record → Type 0
  MatchesAtMost n = All (λ r. p r ≡ true → length r.domain ≤ n)

  MatchesAtMost-mono :
      (n m : ℕ) (rs : List Record) → n ≤ m → MatchesAtMost n rs → MatchesAtMost m rs
  MatchesAtMost-mono n m [] l h = tt
  MatchesAtMost-mono n m (r ∷ rs) l h =
      ((λ e. omega (arith, h.0 e)), MatchesAtMost-mono n m rs l h.1)

  abbrev pub NoMatch : List Record → Type 0
  NoMatch = All (λ r. p r ≡ false)

  NoMatch-AtMost : (n : ℕ) (rs : List Record) → NoMatch rs → MatchesAtMost n rs
  NoMatch-AtMost n [] h = tt
  NoMatch-AtMost n (r ∷ rs) h = ((λ e. absurd (cc (e, h.0))), NoMatch-AtMost n rs h.1)

  pub longest_match-NoMatch : (rs : List Record) → longest_match p rs ≡ none → NoMatch rs
  longest_match-NoMatch [] e = tt
  longest_match-NoMatch (r ∷ rs) e = elim (Bool-cases (p r)) [
    | inl hit ↦ absurd (better_some r (longest_match p rs) (rw hit at e))
    | inr other ↦ (other, longest_match-NoMatch rs (rw other at e))
  ]
    where
      better_some : (r : Record) (o : Option Record) → better p r o ≡ none → ⊥
      better_some r none e = cc
      better_some r (some b) e = ground arith

  IsLongest-tail :
      (r : Record) (rs : List Record) (b : Record)
      → (p r ≡ true → length r.domain ≤ length b.domain)
      → IsLongest p rs b
      → IsLongest p (r ∷ rs) b
  IsLongest-tail r rs b l h = record {
    member = Memᴰ.tail h.member;
    matching = h.matching;
    longest = (l, h.longest);
  }

  IsLongest-head :
      (r : Record) (rs : List Record) (b : Record)
      → some r ≡ some b
      → p r ≡ true
      → MatchesAtMost (length r.domain) rs
      → IsLongest p (r ∷ rs) b
  IsLongest-head r rs b e hit h =
      subst (IsLongest p (r ∷ rs)) (some-injective r b e)
        (record { member = Memᴰ.head refl; matching = hit; longest = ((λ x. omega arith), h) })

  -- The match `r` in front of records whose longest match is `o`.
  better-IsLongest :
      (r : Record) (rs : List Record) (o : Option Record) (b : Record)
      → longest_match p rs ≡ o
      → ((m : Record) → o ≡ some m → IsLongest p rs m)
      → p r ≡ true
      → better p r o ≡ some b
      → IsLongest p (r ∷ rs) b
  better-IsLongest r rs none b q ih hit e =
      IsLongest-head r rs b e hit (NoMatch-AtMost (length r.domain) rs (longest_match-NoMatch rs q))
  better-IsLongest r rs (some m) b q ih hit e =
      elim (Bool-cases (leb (length m.domain) (length r.domain))) [
        | inl short ↦ IsLongest-head r rs b (rw short at e) hit (
            MatchesAtMost-mono (length m.domain) (length r.domain) rs (leb→le _ _ short)
              (ih m refl).longest)
        | inr long ↦
            subst (IsLongest p (r ∷ rs)) (some-injective m b (rw long at e))
              (IsLongest-tail r rs m (λ x. ground arith) (ih m refl))
      ]

  pub longest_match-IsLongest :
      (rs : List Record) (b : Record) → longest_match p rs ≡ some b → IsLongest p rs b
  longest_match-IsLongest [] b e = cc
  longest_match-IsLongest (r ∷ rs) b e = elim (Bool-cases (p r)) [
    | inl hit ↦
        better-IsLongest r rs (longest_match p rs) b refl (longest_match-IsLongest rs) hit
          (rw hit at e)
    | inr other ↦
        IsLongest-tail r rs b (λ hit. absurd (cc (hit, other)))
          (longest_match-IsLongest rs b (rw other at e))
  ]
