-- ===== src/Core/Cache/Contents.antt =====
-- What the three tables hold, in terms of the list of records.
use tsdns.Prelude.{
  ℕ, Bool, true, false, not, ◌&&◌, ◌≡◌, refl, sym, ◌∙◌, Option, none, some, List, [], ◌∷◌, ◌++◌,
  append_assoc, append-nil, Bytes, if◌then◌else◌, arith, ◌==◌, ltb,
}
use tsdns.Maps.{lookup, insert, lookup-insert}
use tsdns.Text.Bytes.{codes, equal, has_prefix, cut_prefix, contains, count}
use tsdns.Core.Record.{Record}
use tsdns.Core.Glob.{is_advanced, domain_to_regex}
use tsdns.Core.Regexp.{Regexp}
use tsdns.Core.Cache.{CompiledRecord, Tables, no_tables, file_record, process_from, process_records}

-- A domain that starts with `reg:`.
abbrev pub is_regex : Bytes → Bool
is_regex d = elim (cut_prefix d (codes "reg:")) [ none ↦ false | some pattern ↦ true ]

-- A `*` and then neither `*` nor `?`.
abbrev pub is_suffix_pattern : Bytes → Bool
is_suffix_pattern [] = false
is_suffix_pattern (c ∷ s) = c == b'*' && not (contains s b'*') && not (contains s b'?')

-- The records that have a suffix pattern for their domain.
abbrev pub suffix_records : List Record → List Record
suffix_records [] = []
suffix_records (r ∷ rs) =
    if is_suffix_pattern r.domain then r ∷ suffix_records rs else suffix_records rs

-- The last record for a domain.
abbrev pub last_record : Bytes → List Record → Option Record
last_record d [] = none
last_record d (r ∷ rs) = elim (last_record d rs) [
  | some later ↦ some later
  | none ↦ if equal r.domain d then some r else none
]

-- The pattern of a record's regular expression, if it has one.
abbrev pub pattern_of : Bytes → Option Bytes
pattern_of d = elim (cut_prefix d (codes "reg:")) [
  | some pattern ↦ some pattern
  | none ↦ if is_advanced d then some (domain_to_regex d) else none
]

-- The test that the code makes for a wildcard, behind the two others.
abbrev plain_star : Bytes → Bool
plain_star d = not (is_regex d) && not (is_advanced d) && has_prefix d (codes "*")

count_pos : (s : Bytes) (b : ℕ) → ltb 0 (count s b) ≡ contains s b
unfolding count contains
count_pos [] b = refl
count_pos (c ∷ s) b = ground (arith, count_pos s b)

star_class : (d : Bytes) → plain_star d ≡ is_suffix_pattern d
unfolding is_advanced has_prefix contains count cut_prefix
star_class [] = refl
star_class (c ∷ s) = ground (arith, count_pos s b'*')

module _ (re : Regexp) where
  abbrev pub compiled : Record → Option Bytes → List CompiledRecord
  compiled r none = []
  compiled r (some pattern) =
      if re.compiles pattern then record { record_of = r; re = pattern } ∷ [] else []

  -- The compiled records, in the order of the records.
  abbrev pub regex_records : List Record → List CompiledRecord
  regex_records [] = []
  regex_records (r ∷ rs) = compiled r (pattern_of r.domain) ++ regex_records rs

  file_record-regexes :
      (r : Record) (t : Tables)
      → (file_record re r t).regexes ≡ t.regexes ++ compiled r (pattern_of r.domain)
  unfolding file_record
  file_record-regexes r t = ground (arith, append-nil t.regexes)

  file_record-wildcards :
      (r : Record) (t : Tables)
      → (file_record re r t).wildcards
        ≡ t.wildcards ++ (if is_suffix_pattern r.domain then r ∷ [] else [])
  unfolding file_record
  file_record-wildcards r t = rw (← star_class r.domain) (ground (arith, append-nil t.wildcards))

  file_record-cache : (r : Record) (t : Tables) → (file_record re r t).cache ≡ t.cache
  unfolding file_record
  file_record-cache r t = ground arith

  abbrev with_entry : Record → Tables → Tables
  with_entry r t = record t { cache = insert r.domain r t.cache }

  process_from-wildcards :
      (t : Tables) (rs : List Record)
      → (process_from re t rs).wildcards ≡ t.wildcards ++ suffix_records rs
  unfolding process_from
  process_from-wildcards t [] = sym (append-nil t.wildcards)
  process_from-wildcards t (r ∷ rs) =
      process_from-wildcards (file_record re r (with_entry r t)) rs
      ∙ rw file_record-wildcards (
          ground
            (arith, append_assoc t.wildcards (r ∷ []) (suffix_records rs), append-nil t.wildcards))

  process_from-regexes :
      (t : Tables) (rs : List Record)
      → (process_from re t rs).regexes ≡ t.regexes ++ regex_records rs
  unfolding process_from
  process_from-regexes t [] = sym (append-nil t.regexes)
  process_from-regexes t (r ∷ rs) =
      process_from-regexes (file_record re r (with_entry r t)) rs
      ∙ rw (file_record-regexes, append_assoc)

  process_from-cache :
      (d : Bytes) (t : Tables) (rs : List Record)
      → lookup d (process_from re t rs).cache
        ≡ elim (last_record d rs) [ some later ↦ some later | none ↦ lookup d t.cache ]
  unfolding process_from
  process_from-cache d t [] = refl
  process_from-cache d t (r ∷ rs) =
      process_from-cache d (file_record re r (with_entry r t)) rs
      ∙ ground (arith, file_record-cache r (with_entry r t), lookup-insert r.domain d r t.cache)

  -- For every list of records, `processRecords` maps a domain to the last record for it, keeps as
  -- wildcards the records whose domain is a `*` and then neither `*` nor `?`, and as regular
  -- expressions those that `regexp.Compile` accepts, of the domains that start with `reg:` and of
  -- the other globs, all in the order of the list.
  pub process_records_lem :
      (rs : List Record)
      → ((d : Bytes) → lookup d (process_records re rs).cache ≡ last_record d rs)
        × ((process_records re rs).wildcards ≡ suffix_records rs)
        × ((process_records re rs).regexes ≡ regex_records rs)
  unfolding process_records
  process_records_lem rs = (
    λ d. process_from-cache d no_tables rs ∙ unfold lookup in ground arith,
    process_from-wildcards no_tables rs,
    process_from-regexes no_tables rs,
  )
