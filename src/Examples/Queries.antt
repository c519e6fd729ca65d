-- ===== src/Examples/Queries.antt =====
-- Queries and replies.
use tsdns.Prelude.{◌≡◌, ◌↔◌, refl, [], ◌∷◌, ◌++◌, Bytes, map, arith}
use tsdns.Text.Bytes.{codes, contains}
use tsdns.Text.Decimal.{itoa}
use tsdns.Core.Query.{parse_query}
use tsdns.Core.Query.Accepts.{parse_query_bracketed}
use tsdns.Core.Query.Sound.{IsReading, parse_query-IsReading}
use tsdns.Core.Response.{build_response}
use tsdns.Core.Response.Laws.{joined, target_text, build_response-joined, build_response-nil_iff}
use tsdns.Text.Space.{trim_space}
use tsdns.Examples.Fixtures.{play}

abbrev host : Bytes
host = codes "ts.example"

parse_query_bracketed_example :
    parse_query (b'[' ∷ (codes "::1" ++ b']' ∷ b':' ∷ itoa 9987)) ≡ (codes "::1", 9987)
unfolding contains
parse_query_bracketed_example = parse_query_bracketed (codes "::1") 9987 (omega arith) (cc) refl

parse_query-IsReading_example :
    IsReading (trim_space (codes "[a]:b:7")) (parse_query (codes "[a]:b:7"))
parse_query-IsReading_example = parse_query-IsReading (codes "[a]:b:7")

build_response-joined_example :
    build_response play 9987 ≡ joined (map (target_text 9987) play.targets)
build_response-joined_example = build_response-joined play 9987 ((λ e. cc), tt)

build_response-nil_iff_example : (build_response play 0 ≡ []) ↔ (play.targets ≡ [])
build_response-nil_iff_example = build_response-nil_iff play 0
