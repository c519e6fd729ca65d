-- ===== src/Maps.antt =====
-- Go's maps with string keys, as association lists: the order of entries is never read.
use tsdns.Prelude.{◌≡◌, refl, Option, none, some, List, [], ◌∷◌, Bytes, arith, if◌then◌else◌}
use tsdns.Text.Bytes.{equal, equal_iff}

abbrev pub BytesMap {ℓ} : Type ℓ → Type ℓ
BytesMap V = List (Bytes × V)

module _ {ℓ} {V : Type ℓ} where
  -- `m[k]`, with its second result.
  unfoldable pub lookup : Bytes → BytesMap V → Option V
  lookup k [] = none
  lookup k ((j, v) ∷ m) = if equal j k then some v else lookup k m

  -- `m[k] = v`.
  unfoldable pub insert : Bytes → V → BytesMap V → BytesMap V
  insert k v [] = (k, v) ∷ []
  insert k v ((j, w) ∷ m) = if equal j k then (k, v) ∷ m else (j, w) ∷ insert k v m

  -- `delete(m, k)`.
  unfoldable pub remove : Bytes → BytesMap V → BytesMap V
  remove k [] = []
  remove k ((j, w) ∷ m) = let rest = remove k m in if equal j k then rest else (j, w) ∷ rest

  pub lookup-insert :
      (k j : Bytes) (v : V) (m : BytesMap V)
      → lookup j (insert k v m) ≡ (if equal k j then some v else lookup j m)
  unfolding lookup insert
  lookup-insert k j v [] = refl
  lookup-insert k j v ((i, w) ∷ m) =
      ground (arith, equal_iff k j, equal_iff i k, equal_iff i j, lookup-insert k j v m)

  pub lookup-remove :
      (k j : Bytes) (m : BytesMap V)
      → lookup j (remove k m) ≡ (if equal k j then none else lookup j m)
  unfolding lookup remove
  lookup-remove k j [] = ground arith
  lookup-remove k j ((i, w) ∷ m) =
      ground (arith, equal_iff k j, equal_iff i k, equal_iff i j, lookup-remove k j m)
