-- ===== src/Api/Handlers.antt =====
-- internal/api/handlers.go: the handlers, on the state of the server in core/.
pub mod Access
pub mod Tokens
pub mod Validation
pub mod Upsert
use tsdns.Prelude.{
  ℕ, ◌<◌, ℤ, pos, is_negative, Bool, true, false, ◌||◌, Option, none, some, List, [], ◌∷◌, Bytes,
  if◌then◌else◌, ltb, Result, ok, err, Error, domain_required, other,
}
use tsdns.Text.Bytes.{codes, equal, contains}
use tsdns.Text.Space.{trim_space}
use tsdns.Text.Decimal.{parse_int}
use tsdns.Net.Addr.{AddrPort}
use tsdns.Core.Record.{Record, RecordRepository}
use tsdns.Core.Regexp.{Regexp}
use tsdns.Core.Server.{
  Server, new_record, list_records, get_record, upsert_record, delete_record,
  delete_instance_records,
}
use tsdns.Api.Requests.{UpsertRecordRequest, Route, Request, Body, Response, respond_with}
use tsdns.Api.Targets.{Parsed, parsed, invalid, parse_targets}
use tsdns.Api.Auth.{authorized}

abbrev pub invalid_port : Error
invalid_port = other (codes "port must be in [0, 65535]")

abbrev pub invalid_instance_id : Error
invalid_instance_id = other (codes "instance_id must be >= 0")

abbrev pub exceeds : ℕ → ℤ → Bool
exceeds n (pos m) = ltb n m
exceeds n _ = false

-- The error of the first test that fails.
unfoldable pub validate_upsert_record_request : UpsertRecordRequest → Option Error
validate_upsert_record_request r =
    if equal (trim_space r.domain) []
    then some domain_required
    else if is_negative r.port || exceeds 65535 r.port
    then some invalid_port
    else if is_negative r.instance_id
    then some invalid_instance_id
    else none

-- The test of the path value behind `TrimSpace`.
unfoldable pub is_domain : Bytes → Bool
is_domain [] = false
is_domain (c ∷ domain) = if contains (c ∷ domain) b'/' then false else true

abbrev pub bad_request : Body → Response
bad_request = respond_with 400

abbrev pub invalid_domain : Response
invalid_domain = bad_request (Body.message (codes "invalid domain"))

-- What is written for the result of a deletion.
abbrev pub deleted_response : Result (Unit {0}) → Response
deleted_response (ok _) = respond_with 204 Body.empty
deleted_response (err e) = respond_with 500 (Body.error_of e)

abbrev pub list_response : Result (List Record) → Response
list_response (ok rs) = respond_with 200 (Body.records_json rs)
list_response (err e) = respond_with 500 (Body.error_of e)

abbrev pub get_response : Result Record → Response
get_response (ok r) = respond_with 200 (Body.record_json r)
get_response (err e) = respond_with 404 (Body.message (codes "record not found"))

-- The stored record, or the one of the request if it cannot be read.
abbrev pub created_response : Record → Result Record → Response
created_response rec (ok stored) = respond_with 201 (Body.record_json stored)
created_response rec (err e) = respond_with 201 (Body.record_json rec)

abbrev pub unauthorized : Response
unauthorized = respond_with 401 (Body.message (codes "unauthorized"))

module _ {R : Type 0} (repo : RecordRepository R) (re : Regexp) where
  unfoldable pub handle_records_list : Server R → Response × Server R
  handle_records_list s = let (found, s') = list_records repo re s in (list_response found, s')

  -- `handleRecordsUpsert` behind the call of `UpsertRecord`.
  unfoldable pub return_stored : Record → Result (Unit {0}) → Server R → Response × Server R
  return_stored rec (err e) s = (respond_with 500 (Body.error_of e), s)
  return_stored rec (ok _) s =
      let (stored, s') = get_record repo re rec.domain s in (created_response rec stored, s')

  -- Behind the loop over the targets.
  unfoldable pub upsert_parsed : UpsertRecordRequest → Parsed → Server R → Response × Server R
  unfolding return_stored
  upsert_parsed req (invalid t) s = (bad_request (Body.invalid_target t), s)
  upsert_parsed req (parsed targets) s =
      let rec : Record = new_record repo re req.instance_id req.domain targets in
      let (done, s') = upsert_record repo re (some rec) s in return_stored rec done s'

  -- Behind the validation.
  unfoldable pub upsert_valid : UpsertRecordRequest → Option Error → Server R → Response × Server R
  unfolding upsert_parsed
  upsert_valid req (some e) s = (bad_request (Body.error_of e), s)
  upsert_valid req none s = upsert_parsed req (parse_targets req.port req.targets) s

  -- The body is `none` where it is over 1 MiB or no JSON of a request.
  unfoldable pub handle_records_upsert : Option UpsertRecordRequest → Server R → Response × Server R
  unfolding upsert_valid
  handle_records_upsert none s = (bad_request (Body.message (codes "invalid json")), s)
  handle_records_upsert (some req) s = upsert_valid req (validate_upsert_record_request req) s

  unfoldable pub handle_record_get : Bytes → Server R → Response × Server R
  handle_record_get path_value s =
      let domain = trim_space path_value in
      if is_domain domain
      then (let (found, s') = get_record repo re domain s in (get_response found, s'))
      else (invalid_domain, s)

  unfoldable pub handle_record_delete : Bytes → Server R → Response × Server R
  handle_record_delete path_value s =
      let domain = trim_space path_value in
      if is_domain domain
      then (let (done, s') = delete_record repo re domain s in (deleted_response done, s'))
      else (invalid_domain, s)

  -- The guard on the number of the instance, and the deletion.
  unfoldable pub delete_instance : Option ℤ → Server R → Response × Server R
  delete_instance none s = (bad_request (Body.message (codes "invalid instance id")), s)
  delete_instance (some i) s =
      if is_negative i
      then (bad_request (Body.message (codes "invalid instance id")), s)
      else (let (done, s') = delete_instance_records repo re i s in (deleted_response done, s'))

  unfoldable pub handle_instance_records_delete : Bytes → Server R → Response × Server R
  unfolding delete_instance
  handle_instance_records_delete path_value s =
      delete_instance (parse_int (trim_space path_value)) s

  -- The handler of each route.
  unfoldable pub handle : Request → Route → Server R → Response × Server R
  handle r Route.healthz s = (respond_with 200 (Body.text (codes "ok\n")), s)
  handle r Route.records_list s = handle_records_list s
  handle r Route.records_upsert s = handle_records_upsert r.body s
  handle r Route.record_get s = handle_record_get r.path_value s
  handle r Route.record_delete s = handle_record_delete r.path_value s
  handle r Route.record_path_invalid s = (invalid_domain, s)
  handle r Route.instance_records_delete s = handle_instance_records_delete r.path_value s

  -- A request behind `authMiddleware`, for the token of the API server.
  unfoldable pub serve : Bytes → Request → Server R → Response × Server R
  unfolding handle
  serve token r s = if authorized token r then handle r r.route s else (unauthorized, s)
