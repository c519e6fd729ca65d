-- ===== src/Core/Glob.antt =====
-- `domainToRegex` of core/cache.go and its test for advanced globs.
pub mod Pattern
pub mod Matching
pub mod Meaning
use tsdns.Prelude.{
  ℕ, Bool, true, false, not, ◌&&◌, ◌||◌, List, [], ◌∷◌, ◌++◌, Bytes, ◌==◌, ltb, if◌then◌else◌,
}
use tsdns.Text.Bytes.{codes, has_prefix, contains, count, replace_pair}

-- The bytes that `regexp.QuoteMeta` escapes: \ . + * ? ( ) | [ ] { } ^ $
unfoldable pub is_special : ℕ → Bool
is_special c = contains (codes "\\.+*?()|[]{}^$") c

-- `regexp.QuoteMeta`.
unfoldable pub quote_meta : Bytes → Bytes
quote_meta [] = []
quote_meta (c ∷ s) = if is_special c then b'\\' ∷ c ∷ quote_meta s else c ∷ quote_meta s

-- `isAdvanced`: more than a `*` at the start.
unfoldable pub is_advanced : Bytes → Bool
is_advanced domain =
    contains domain b'?'
    || ltb 1 (count domain b'*')
    || (contains domain b'*' && not (has_prefix domain (b'*' ∷ [])))

unfoldable pub domain_to_regex : Bytes → Bytes
domain_to_regex domain =
    let r = quote_meta domain in
    let stars = replace_pair b'\\' b'*' (codes ".*") r in
    let marks = replace_pair b'\\' b'?' (codes ".") stars in b'^' ∷ (marks ++ b'$' ∷ [])
