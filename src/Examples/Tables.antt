-- ===== src/Examples/Tables.antt =====
-- Tables, globs and lookups.
use tsdns.Prelude.{◌≡◌, refl, none, some, Bytes}
use tsdns.Text.Bytes.{codes, equal, has_prefix, cut_prefix, contains, count}
use tsdns.Core.Record.{Record}
use tsdns.Core.Glob.{is_advanced}
use tsdns.Core.Cache.{build_tables}
use tsdns.Core.Cache.Contents.{suffix_records}
use tsdns.Core.Cache.Sorting.{IsLongest}
use tsdns.Core.Cache.Longest.{NoMatch}
use tsdns.Core.Lookup.{find_regex, lookup_record}
use tsdns.Core.Lookup.Precedence.{answer, ends_host, lookup_record-answer, lookup_record-IsLongest}
use tsdns.Examples.Fixtures.{no_regexp, stored}

abbrev host : Bytes
host = codes "x.b.org"

lookup_record-answer_example :
    lookup_record no_regexp (build_tables no_regexp stored) host ≡ answer no_regexp stored host
lookup_record-answer_example = lookup_record-answer no_regexp stored host

lookup_record-IsLongest_example :
    ((b : Record)
      → lookup_record no_regexp (build_tables no_regexp stored) host ≡ some b
      → IsLongest (λ r. ends_host host r.domain) (suffix_records stored) b)
    × (lookup_record no_regexp (build_tables no_regexp stored) host ≡ none
        → NoMatch (λ r. ends_host host r.domain) (suffix_records stored))
unfolding equal cut_prefix contains count find_regex is_advanced has_prefix
lookup_record-IsLongest_example = lookup_record-IsLongest no_regexp stored host refl refl
