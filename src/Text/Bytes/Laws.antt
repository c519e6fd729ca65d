-- ===== src/Text/Bytes/Laws.antt =====
-- What the searches in a text find.
use tsdns.Prelude.{
  ℕ, zero, suc, true, false, ◌≡◌, refl, none, some, [], ◌∷◌, ◌++◌, Bytes, arith, length, take, drop,
  ◌↔◌,
}
use tsdns.Text.Bytes.{has_prefix, index, last_index, contains}

pub index_append :
    (a : Bytes) (b : ℕ) (s : Bytes) → contains a b ≡ false → index (a ++ b ∷ s) b ≡ some (length a)
unfolding index contains
index_append [] b s h = ground arith
index_append (c ∷ a) b s h = ground (arith, index_append a b s)

pub last_index-none : (s : Bytes) (b : ℕ) → contains s b ≡ false → last_index s b ≡ none
unfolding last_index contains
last_index-none [] b h = refl
last_index-none (c ∷ s) b h = ground (arith, last_index-none s b)

pub last_index_append :
    (a : Bytes) (b : ℕ) (s : Bytes)
    → contains s b ≡ false
    → last_index (a ++ b ∷ s) b ≡ some (length a)
unfolding last_index
last_index_append [] b s h = ground (arith, last_index-none s b)
last_index_append (c ∷ a) b s h = ground (arith, last_index_append a b s)

contains-last_index : (s : Bytes) (b : ℕ) → last_index s b ≡ none → contains s b ≡ false
unfolding last_index contains
contains-last_index [] b h = refl
contains-last_index (c ∷ s) b h = ground (arith, contains-last_index s b)

-- The first position of a byte cuts the text in two, and the byte is not in the first part.
pub index_split :
    (s : Bytes) (b i : ℕ)
    → index s b ≡ some i
    → (s ≡ take i s ++ b ∷ drop (suc i) s) × (contains (take i s) b ≡ false)
unfolding index contains
index_split [] b i h = cc
index_split (c ∷ s) b zero h = ground arith
index_split (c ∷ s) b (suc i) h = ground (arith, index_split s b i)

-- The last position of a byte cuts the text in two, and the byte is not in the second part.
pub last_index_split :
    (s : Bytes) (b i : ℕ)
    → last_index s b ≡ some i
    → (s ≡ take i s ++ b ∷ drop (suc i) s) × (contains (drop (suc i) s) b ≡ false)
unfolding last_index contains
last_index_split [] b i h = cc
last_index_split (c ∷ s) b zero h = ground (arith, contains-last_index s b)
last_index_split (c ∷ s) b (suc i) h = ground (arith, last_index_split s b i)

pub has_prefix_iff : (s p : Bytes) → (has_prefix s p ≡ true) ↔ ((u : Bytes) × (s ≡ p ++ u))
unfolding has_prefix
has_prefix_iff s p = (there s p, back s p)
  where
    there : (s p : Bytes) → has_prefix s p ≡ true → (u : Bytes) × (s ≡ p ++ u)
    there s [] h = (s, refl)
    there [] (q ∷ p) h = cc
    there (c ∷ s) (q ∷ p) h = let (u, e) = there s p (ground arith) in (u, ground arith)

    back : (s p : Bytes) → (u : Bytes) × (s ≡ p ++ u) → has_prefix s p ≡ true
    back s [] h = refl
    back [] (q ∷ p) (u, e) = cc
    back (c ∷ s) (q ∷ p) (u, e) = ground (arith, back s p (u, ground arith))

pub contains-append :
    (a s : Bytes) (b : ℕ)
    → contains a b ≡ false
    → contains s b ≡ false
    → contains (a ++ s) b ≡ false
unfolding contains
contains-append [] s b h k = k
contains-append (c ∷ a) s b h k = ground (arith, contains-append a s b)
