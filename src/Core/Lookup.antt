-- ===== src/Core/Lookup.antt =====
-- `lookupRecord` of core/handler.go, on the tables that the lock protects.
pub mod Precedence
pub mod Suffix
use tsdns.Prelude.{
  ℕ, Bool, true, false, ◌&&◌, ◌||◌, Option, none, some, List, [], ◌∷◌, Bytes, if◌then◌else◌,
}
use tsdns.Maps.{lookup}
use tsdns.Text.Bytes.{codes, equal, has_prefix, has_suffix, trim_prefix}
use tsdns.Core.Record.{Record}
use tsdns.Core.Regexp.{Regexp}
use tsdns.Core.Cache.{CompiledRecord, Tables}

-- The test of the loop over the wildcards, its `continue` included.
unfoldable pub wildcard_matches : Bytes → Record → Bool
wildcard_matches host rec =
    let suffix = trim_prefix rec.domain (codes "*") in
    has_prefix rec.domain (codes "*") && (equal suffix [] || has_suffix host suffix)

unfoldable pub find_wildcard : Bytes → List Record → Option Record
find_wildcard host [] = none
find_wildcard host (rec ∷ rest) =
    if wildcard_matches host rec then some rec else find_wildcard host rest

module _ (re : Regexp) where
  unfoldable pub find_regex : Bytes → List CompiledRecord → Option Record
  find_regex host [] = none
  find_regex host (rec ∷ rest) =
      if re.match_string rec.re host then some rec.record_of else find_regex host rest

  -- The exact domain, then the regular expressions, then the wildcards.
  unfoldable pub lookup_record : Tables → Bytes → Option Record
  lookup_record t host = elim (lookup host t.cache) [
    | some rec ↦ some rec
    | none ↦ elim (find_regex host t.regexes) [
      | some rec ↦ some rec
      | none ↦ find_wildcard host t.wildcards
    ]
  ]
