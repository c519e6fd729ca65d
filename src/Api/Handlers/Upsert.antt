-- ===== src/Api/Handlers/Upsert.antt =====
-- The upsert request from its body to the cache of the server.
use tsdns.Prelude.{
  ◌≡◌, ◌≢◌, refl, ap, ◌∙◌, Option, none, some, List, [], Bytes, if◌then◌else◌, Result, ok, err,
  Error, arith,
}
use mathlib.Core.Option
use tsdns.Maps.{lookup}
use tsdns.Text.Bytes.{equal}
use tsdns.Core.Cache.{Tables}
use tsdns.Net.Addr.{AddrPort}
use tsdns.Core.Record.{Record, RecordRepository}
use tsdns.Core.Regexp.{Regexp}
use tsdns.Core.Server.{Server, new_record, get_record, upsert_record}
use tsdns.Core.Server.Contract.{content_of, Contract}
use tsdns.Core.Server.Refresh.{cached, upsert_record-cached, failed_change_keeps_tables}
use tsdns.Api.Requests.{UpsertRecordRequest, Response}
use tsdns.Api.Targets.{Parsed, parsed, invalid, parse_targets}
use tsdns.Api.Handlers.{
  return_stored, upsert_parsed, upsert_valid, handle_records_upsert, created_response,
  validate_upsert_record_request,
}

pub created_status : (rec : Record) (o : Result Record) → (created_response rec o).status ≡ 201
created_status rec (ok r) = refl
created_status rec (err e) = refl

module _ {R : Type 0} (repo : RecordRepository R) (re : Regexp) where
  get_record-tables :
      (domain : Bytes) (s : Server R) → (get_record repo re domain s).1.tables ≡ s.tables
  unfolding get_record
  get_record-tables domain s = refl

  return_stored-created :
      (rec : Record) (done : Result (Unit {0})) (s : Server R)
      → (return_stored repo re rec done s).0.status ≡ 201
      → (done ≡ ok tt) × ((return_stored repo re rec done s).1.tables ≡ s.tables)
  unfolding return_stored
  return_stored-created rec (err e) s h = absurd (omega (arith, h))
  return_stored-created rec (ok _) s h = (refl, get_record-tables rec.domain s)

  return_stored-failed :
      (rec : Record) (done : Result (Unit {0})) (s : Server R)
      → (return_stored repo re rec done s).0.status ≢ 201
      → ((e : Error) × (done ≡ err e)) × ((return_stored repo re rec done s).1.tables ≡ s.tables)
  unfolding return_stored
  return_stored-failed rec (err e) s h = ((e, refl), refl)
  return_stored-failed rec (ok _) s h =
      absurd (h (created_status rec (get_record repo re rec.domain s).0))

  upsert_parsed-created :
      (req : UpsertRecordRequest) (p : Parsed) (s : Server R)
      → (upsert_parsed repo re req p s).0.status ≡ 201
      → (ts : List AddrPort) × (p ≡ parsed ts)
        × ((upsert_record repo re (some (new_record repo re req.instance_id req.domain ts)) s).0
            ≡ ok tt)
        × ((upsert_parsed repo re req p s).1.tables
            ≡ (upsert_record repo re
                (some (new_record repo re req.instance_id req.domain ts))
                s).1.tables)
  unfolding upsert_parsed
  upsert_parsed-created req (invalid t) s h = absurd (omega (arith, h))
  upsert_parsed-created req (parsed ts) s h =
      let rec : Record = new_record repo re req.instance_id req.domain ts in
      let (done, s') = upsert_record repo re (some rec) s in
      let (succeeded, kept) = return_stored-created rec done s' h in (ts, refl, succeeded, kept)

  upsert_valid-created :
      (req : UpsertRecordRequest) (o : Option Error) (s : Server R)
      → (upsert_valid repo re req o s).0.status ≡ 201
      → (o ≡ none)
        × ((upsert_parsed repo re req (parse_targets req.port req.targets) s).0.status ≡ 201)
        × (upsert_valid repo re req o s
            ≡ upsert_parsed repo re req (parse_targets req.port req.targets) s)
  unfolding upsert_valid
  upsert_valid-created req (some e) s h = absurd (omega (arith, h))
  upsert_valid-created req none s h = (refl, h, refl)

  upsert_parsed-failed :
      (req : UpsertRecordRequest) (p : Parsed) (s : Server R)
      → (upsert_parsed repo re req p s).0.status ≢ 201
      → (upsert_parsed repo re req p s).1.tables ≡ s.tables
  unfolding upsert_parsed
  upsert_parsed-failed req (invalid t) s h = refl
  upsert_parsed-failed req (parsed ts) s h =
      let rec : Record = new_record repo re req.instance_id req.domain ts in
      let (done, s') = upsert_record repo re (some rec) s in
      let ((e, failed), kept) = return_stored-failed rec done s' h in
      kept ∙ (failed_change_keeps_tables repo re (some rec) [] req.instance_id s e).0 failed

  upsert_valid-failed :
      (req : UpsertRecordRequest) (o : Option Error) (s : Server R)
      → (upsert_valid repo re req o s).0.status ≢ 201
      → (upsert_valid repo re req o s).1.tables ≡ s.tables
  unfolding upsert_valid
  upsert_valid-failed req (some e) s h = refl
  upsert_valid-failed req none s h =
      upsert_parsed-failed req (parse_targets req.port req.targets) s h

  -- An upsert request that is not answered by 201, for any reason, leaves the server's tables as they
  -- were.
  pub handle_records_upsert_failed :
      (body : Option UpsertRecordRequest) (s : Server R)
      → (handle_records_upsert repo re body s).0.status ≢ 201
      → (handle_records_upsert repo re body s).1.tables ≡ s.tables
  unfolding handle_records_upsert
  handle_records_upsert_failed none s h = refl
  handle_records_upsert_failed (some req) s h =
      upsert_valid-failed req (validate_upsert_record_request req) s h

  -- An upsert request that is answered by 201 is valid and its targets are read as targets `ts`. If
  -- the repository, which meets the contract, was in a valid state and can store the record, the
  -- cache then holds the request's instance and `ts` for its domain, and for every other domain what
  -- the repository held before.
  pub handle_records_upsert-cached :
      (laws : Contract repo) (req : UpsertRecordRequest) (s : Server R) (d : Bytes)
      → laws.IsValid s.repository
      → ((ts : List AddrPort)
          → parse_targets req.port req.targets ≡ parsed ts
          → laws.Storable (new_record repo re req.instance_id req.domain ts))
      → (handle_records_upsert repo re (some req) s).0.status ≡ 201
      → (validate_upsert_record_request req ≡ none)
        × ((ts : List AddrPort) × (parse_targets req.port req.targets ≡ parsed ts)
            × (cached (handle_records_upsert repo re (some req) s).1 d ≡ (
                if equal req.domain d
                then some (record { instance_id = req.instance_id; targets = ts })
                else laws.view s.repository d)))
  unfolding handle_records_upsert
  handle_records_upsert-cached laws req s d v storable h =
      let (valid, again, same) =
        upsert_valid-created req (validate_upsert_record_request req) s h in
      let (ts, read, done, kept) =
        upsert_parsed-created req (parse_targets req.port req.targets) s again in
      let rec : Record = new_record repo re req.instance_id req.domain ts in
      let tables = ap (λ (x : Response × Server R). x.1.tables) same ∙ kept in
      (
        valid,
        (
          ts,
          read,
          ap (λ (t : Tables). Option.map content_of (lookup d t.cache)) tables
              ∙ upsert_record-cached repo re laws rec s d v (storable ts read) done,
        ),
      )
