-- ===== src/Examples/Requests.antt =====
-- Requests to the HTTP interface.
use tsdns.Prelude.{pos, ◌≡◌, refl, none, some, List, [], ◌∷◌, if◌then◌else◌, arith}
use mathlib.Core.Option
use tsdns.Text.Bytes.{codes, equal, contains}
use tsdns.Text.Space.{trim_space}
use tsdns.Net.Addr.{AddrPort}
use tsdns.Core.Cache.Contents.{last_record}
use tsdns.Core.Server.{upsert_record, load_cache, refresh_after, install, get_record}
use tsdns.Core.Server.Contract.{content_of}
use tsdns.Core.Server.Refresh.{cached}
use tsdns.Api.Requests.{UpsertRecordRequest, Route, Request}
use tsdns.Api.Targets.{parsed, equal_fold, parse_targets}
use tsdns.Net.Addr.{v4}
use tsdns.Api.Handlers.{
  validate_upsert_record_request, handle_records_upsert, return_stored, unauthorized, serve,
}
use tsdns.Api.Handlers.Tokens.{ShowsToken, serve-ShowsToken}
use tsdns.Api.Handlers.{handle}
use tsdns.Api.Handlers.Access.{serve_untrimmed}
use tsdns.Api.Handlers.Validation.{IsValidRequest, validate_upsert_record_request-IsValidRequest}
use tsdns.Api.Handlers.Upsert.{handle_records_upsert_failed, handle_records_upsert-cached}
use tsdns.Examples.Fixtures.{no_regexp, stored, server}
use tsdns.Examples.Servers.{memory, memory-Contract}

abbrev silent : UpsertRecordRequest
silent = record {
  domain = codes "a?c";
  targets = codes "noresponse" ∷ [];
  instance_id = pos 3;
  port = pos 9987;
}

abbrev intruder : Request
intruder = record {
  route = Route.instance_records_delete;
  path_value = codes "7";
  body = none;
  path = codes "/api/v1/instances/7/records";
  remote_addr = codes "192.0.2.1:5000";
  api_token = [];
  authorization = codes "Bearer guess";
}

serve-ShowsToken_example :
    (ShowsToken (codes "secret") intruder
      → serve memory no_regexp (codes "secret") intruder server
        ≡ handle memory no_regexp intruder Route.instance_records_delete server)
    × (¬ ShowsToken (codes "secret") intruder
        → serve memory no_regexp (codes "secret") intruder server ≡ (unauthorized, server))
unfolding trim_space contains
serve-ShowsToken_example =
    serve-ShowsToken memory no_regexp (codes "secret") intruder server (cc) (cc, refl)

serve_untrimmed_example :
    serve memory no_regexp (codes "guess ") intruder server ≡ (unauthorized, server)
unfolding trim_space contains
serve_untrimmed_example =
    serve_untrimmed memory no_regexp (codes "guess ") intruder server (cc) (cc) (cc, refl)

validate_upsert_record_request-IsValidRequest_example : IsValidRequest silent
unfolding validate_upsert_record_request equal trim_space
validate_upsert_record_request-IsValidRequest_example =
    validate_upsert_record_request-IsValidRequest silent refl

handle_records_upsert_failed_example :
    (handle_records_upsert memory no_regexp none server).1.tables ≡ server.tables
unfolding handle_records_upsert
handle_records_upsert_failed_example =
    handle_records_upsert_failed memory no_regexp none server (omega arith)

handle_records_upsert-cached_example :
    (validate_upsert_record_request silent ≡ none)
    × ((ts : List AddrPort) × (parse_targets (pos 9987) silent.targets ≡ parsed ts)
        × (cached (handle_records_upsert memory no_regexp (some silent) server).1 (codes "b") ≡ (
            if equal (codes "a?c") (codes "b")
            then some (record { instance_id = pos 3; targets = ts })
            else Option.map content_of (last_record (codes "b") stored))))
unfolding memory-Contract handle_records_upsert validate_upsert_record_request equal trim_space
    parse_targets upsert_record load_cache refresh_after install get_record return_stored equal_fold
handle_records_upsert-cached_example =
    handle_records_upsert-cached memory no_regexp memory-Contract silent server (codes "b") tt
      (λ ts e. tt) refl

abbrev two_targets : List AddrPort
two_targets =
    record { addr = v4 10 0 0 7; port = 9987 } ∷ record { addr = v4 192 168 1 20; port = 0 } ∷ []
