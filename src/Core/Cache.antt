-- ===== src/Core/Cache.antt =====
-- core/cache.go without its input and output: how the records of the repository are sorted into
-- the map of exact domains, the wildcards and the regular expressions.
pub mod Sorting
pub mod Longest
pub mod Contents
use tsdns.Prelude.{
  ℕ, Bool, true, false, Option, none, some, List, [], ◌∷◌, ◌++◌, Bytes, if◌then◌else◌, length, leb,
}
use tsdns.Maps.{BytesMap, insert}
use tsdns.Text.Bytes.{codes, has_prefix, cut_prefix}
use tsdns.Core.Record.{Record}
use tsdns.Core.Glob.{is_advanced, domain_to_regex}
use tsdns.Core.Regexp.{Regexp}

-- `compiledRecord`: the field `re` is given by its pattern.
pub record CompiledRecord : Type 0 where
  pub record_of : Record
  pub re : Bytes

-- The three tables that `processRecords` builds.
pub record Tables : Type 0 where
  pub cache : BytesMap Record
  pub wildcards : List Record
  pub regexes : List CompiledRecord

abbrev pub no_tables : Tables
no_tables = record { cache = []; wildcards = []; regexes = [] }

module _ (re : Regexp) where
  -- `regexp.Compile`, and the append if it succeeds.
  unfoldable pub add_compiled : Record → Bytes → List CompiledRecord → List CompiledRecord
  add_compiled r pattern regexes =
      if re.compiles pattern
      then regexes ++ record { record_of = r; re = pattern } ∷ []
      else regexes

  -- The result is that of the function, with what it leaves in `regexes`.
  unfoldable pub try_process_regex : Record → List CompiledRecord → Bool × List CompiledRecord
  unfolding add_compiled
  try_process_regex r regexes = elim (cut_prefix r.domain (codes "reg:")) [
    | some pattern ↦ (true, add_compiled r pattern regexes)
    | none ↦ (false, regexes)
  ]

  unfoldable pub try_process_advanced_glob :
      Record → List CompiledRecord → Bool × List CompiledRecord
  unfolding add_compiled
  try_process_advanced_glob r regexes =
      if is_advanced r.domain
      then (true, add_compiled r (domain_to_regex r.domain) regexes)
      else (false, regexes)

  -- One round of the loop of `processRecords`, behind the write to the map.
  unfoldable pub file_record : Record → Tables → Tables
  unfolding try_process_regex try_process_advanced_glob
  file_record r t =
      let (is_regex, regexes) = try_process_regex r t.regexes in
      let (is_glob, globs) = try_process_advanced_glob r regexes in
      if is_regex
      then record t { regexes = regexes }
      else if is_glob
      then record t { regexes = globs }
      else if has_prefix r.domain (codes "*")
      then record t { wildcards = t.wildcards ++ r ∷ [] }
      else t

  unfoldable pub process_from : Tables → List Record → Tables
  unfolding file_record
  process_from t [] = t
  process_from t (r ∷ rs) =
      process_from (file_record r (record t { cache = insert r.domain r t.cache })) rs

  unfoldable pub process_records : List Record → Tables
  unfolding process_from
  process_records = process_from no_tables

-- `sort.SliceStable` by the length of the domain, longest first. Stable: a record goes in front of
-- the later ones that are no longer than it.
unfoldable pub place : Record → List Record → List Record
place r [] = r ∷ []
place r (x ∷ xs) = if leb (length x.domain) (length r.domain) then r ∷ x ∷ xs else x ∷ place r xs

unfoldable pub sort_wildcards : List Record → List Record
unfolding place
sort_wildcards [] = []
sort_wildcards (r ∷ rs) = place r (sort_wildcards rs)

-- The tables that `loadCache` makes of the records that it found.
unfoldable pub build_tables : Regexp → List Record → Tables
build_tables re rs =
    let t = process_records re rs in record t { wildcards = sort_wildcards t.wildcards }
