-- ===== src/Core/Lookup/Precedence.antt =====
-- Which record answers a query, in terms of the records of the repository.
use tsdns.Prelude.{
  ◌≡◌, refl, sym, ap, ◌∙◌, Bool, false, ◌&&◌, ◌==◌, Option, none, some, List, [], ◌∷◌, Bytes,
  if◌then◌else◌, arith, Bool-cases, inl, inr,
}
use tsdns.Core.Record.{Record}
use tsdns.Core.Regexp.{Regexp}
use tsdns.Text.Bytes.{has_prefix, has_suffix}
use tsdns.Core.Cache.{CompiledRecord, build_tables, sort_wildcards}
use tsdns.Core.Cache.Contents.{last_record, suffix_records, regex_records, process_records_lem}
use tsdns.Core.Cache.Sorting.{first_match, longest_match, first_match-sort_wildcards, IsLongest}
use tsdns.Core.Cache.Longest.{longest_match-IsLongest, longest_match-NoMatch, NoMatch}
use tsdns.Core.Lookup.Suffix.{wildcard_matches_lem}
use tsdns.Core.Lookup.{wildcard_matches, find_wildcard, find_regex, lookup_record}

-- Whether a domain is a star and the end of the host.
abbrev pub ends_host : Bytes → Bytes → Bool
ends_host host [] = false
ends_host host (c ∷ s) = c == b'*' && has_suffix host s

wildcard_matches-ends_host :
    (host domain : Bytes) (rec : Record)
    → rec.domain ≡ domain
    → wildcard_matches host rec ≡ ends_host host domain
unfolding wildcard_matches has_prefix
wildcard_matches-ends_host host [] rec e = rw e
wildcard_matches-ends_host host (c ∷ s) rec e = elim (Bool-cases (c == b'*')) [
  | inl star ↦
      let same : c ≡ b'*' = ground arith in
      wildcard_matches_lem host s rec (e ∙ ap (λ x. x ∷ s) same) ∙ rw star
  | inr other ↦ ground (arith, e, other)
]

find_wildcard-first_match :
    (host : Bytes) (rs : List Record)
    → find_wildcard host rs ≡ first_match (λ r. ends_host host r.domain) rs
unfolding find_wildcard
find_wildcard-first_match host [] = refl
find_wildcard-first_match host (r ∷ rs) =
    ap (λ b. if b then some r else find_wildcard host rs)
      (wildcard_matches-ends_host host r.domain r refl)
    ∙ ap (λ o. if ends_host host r.domain then some r else o) (find_wildcard-first_match host rs)

-- The first of a list.
abbrev pub head : List Record → Option Record
head [] = none
head (r ∷ rs) = some r

module _ (re : Regexp) where
  -- All records whose expression matches the host, in their order.
  abbrev pub matching : Bytes → List CompiledRecord → List Record
  matching host [] = []
  matching host (c ∷ cs) =
      let rest = matching host cs in if re.match_string c.re host then c.record_of ∷ rest else rest

  find_regex-matching :
      (host : Bytes) (cs : List CompiledRecord) → find_regex re host cs ≡ head (matching host cs)
  unfolding find_regex
  find_regex-matching host [] = refl
  find_regex-matching host (c ∷ cs) = ground (arith, find_regex-matching host cs)

  -- The first of the compiled records whose expression matches the host.
  abbrev pub answering_regex : Bytes → List Record → Option Record
  answering_regex host rs = head (matching host (regex_records re rs))

  -- The record that answers a query for a host.
  abbrev pub answer : List Record → Bytes → Option Record
  answer rs host = elim (last_record host rs) [
    | some rec ↦ some rec
    | none ↦ elim (answering_regex host rs) [
      | some rec ↦ some rec
      | none ↦ longest_match (λ r. ends_host host r.domain) (suffix_records rs)
    ]
  ]

  -- With the tables made of the records `rs`, a query is answered by the last record for exactly
  -- its host; if there is none, by the first regular expression or advanced glob that matches; and
  -- else by the longest wildcard whose rest is the end of the host, the first of those that are as long.
  pub lookup_record-answer :
      (rs : List Record) (host : Bytes)
      → lookup_record re (build_tables re rs) host ≡ answer rs host
  unfolding lookup_record build_tables
  lookup_record-answer rs host =
      let (maps, wild, regex) = process_records_lem re rs in
      ground (
        arith,
        maps host,
        wild,
        regex,
        find_regex-matching host (regex_records re rs),
        find_wildcard-first_match host (sort_wildcards (suffix_records rs)),
        first_match-sort_wildcards (λ r. ends_host host r.domain) (suffix_records rs),
      )

  -- Where no record has exactly the host for its domain and no expression matches it, the record
  -- that answers is a matching wildcard, no matching wildcard is longer, and there is no answer only
  -- if no wildcard matches.
  pub lookup_record-IsLongest :
      (rs : List Record) (host : Bytes)
      → last_record host rs ≡ none
      → answering_regex host rs ≡ none
      → ((b : Record)
          → lookup_record re (build_tables re rs) host ≡ some b
          → IsLongest (λ r. ends_host host r.domain) (suffix_records rs) b)
        × (lookup_record re (build_tables re rs) host ≡ none
            → NoMatch (λ r. ends_host host r.domain) (suffix_records rs))
  lookup_record-IsLongest rs host exact regex =
      let wild : lookup_record re (build_tables re rs) host
          ≡ longest_match (λ r. ends_host host r.domain) (suffix_records rs) =
        lookup_record-answer rs host ∙ ground (arith, exact, regex) in
      (
        (λ b e.
            longest_match-IsLongest (λ r. ends_host host r.domain) (suffix_records rs) b
              (sym wild ∙ e)),
        (λ e.
            longest_match-NoMatch (λ r. ends_host host r.domain) (suffix_records rs)
              (sym wild ∙ e)),
      )
