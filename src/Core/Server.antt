-- ===== src/Core/Server.antt =====
-- core/server.go, core/record.go and `loadCache` of core/cache.go: the state of the server and the
-- operations of the record manager, each of which ends with a refresh of the cache.
pub mod Contract
pub mod Refresh
use tsdns.Prelude.{
  ℤ, pos, Bool, true, false, Option, none, some, List, [], ◌∷◌, ◌++◌, Bytes, Result, ok, err,
  record_nil,
}
use tsdns.Net.Addr.{AddrPort}
use tsdns.Core.Record.{Record, RecordRepository}
use tsdns.Core.Metrics.{Event, Op, Status, cache_refresh, repository_op, success, error}
use tsdns.Core.Regexp.{Regexp}
use tsdns.Core.Cache.{Tables, build_tables}

-- `Server`: the repository's state, the tables under `mu`, the events reported to the metrics, and
-- the settings. The listener and the context are flags, and the logger is left out.
pub record Server (R : Type 0) : Type 0 where
  pub repository : R
  pub tables : Tables
  pub events : List Event
  pub addr : Bytes
  pub cache_refresh_interval : ℤ
  pub cancelled : Bool
  pub listening : Bool

module _ {R : Type 0} where
  abbrev pub report : List Event → Server R → Server R
  report es s = record s { events = s.events ++ es }

  abbrev pub with_repository : R → Server R → Server R
  with_repository r s = record s { repository = r }

abbrev status_of {ℓ} : {A : Type ℓ} → Result A → Status
status_of (ok a) = success
status_of (err e) = error

module _ {R : Type 0} (repo : RecordRepository R) (re : Regexp) where
  -- `loadCache` behind the call of `Find`.
  unfoldable pub install : Result (List Record) → Server R → Result (Unit {0}) × Server R
  install (err e) s = (err e, report (cache_refresh error ∷ repository_op Op.find error ∷ []) s)
  install (ok records) s = (
    ok tt,
    report (repository_op Op.find success ∷ cache_refresh success ∷ [])
        (record s { tables = build_tables re records }),
  )

  unfoldable pub load_cache : Server R → Result (Unit {0}) × Server R
  unfolding install
  load_cache s = let (found, r) = repo.find s.repository in install found (with_repository r s)

  -- What an operation does behind its call of the repository: it reports, and refreshes the cache
  -- if the call succeeded.
  unfoldable pub refresh_after : Op → Result (Unit {0}) → Server R → Result (Unit {0}) × Server R
  refresh_after op (err e) s = (err e, report (repository_op op error ∷ []) s)
  refresh_after op (ok _) s = load_cache (report (repository_op op success ∷ []) s)

  -- A nil pointer is `none`.
  unfoldable pub upsert_record : Option Record → Server R → Result (Unit {0}) × Server R
  unfolding refresh_after
  upsert_record none s = (err record_nil, s)
  upsert_record (some rec) s =
      let (done, r) = repo.create (some rec) s.repository in
      refresh_after Op.create done (with_repository r s)

  unfoldable pub delete_record : Bytes → Server R → Result (Unit {0}) × Server R
  unfolding refresh_after
  delete_record domain s =
      let (done, r) = repo.delete domain s.repository in
      refresh_after Op.delete done (with_repository r s)

  unfoldable pub delete_instance_records : ℤ → Server R → Result (Unit {0}) × Server R
  unfolding refresh_after
  delete_instance_records instance_id s =
      let (done, r) = repo.delete_by_instance_id instance_id s.repository in
      refresh_after Op.delete_by_instance done (with_repository r s)

  -- The record of `AddRecordWithInstanceID`; the other fields have Go's zero values.
  abbrev pub new_record : ℤ → Bytes → List AddrPort → Record
  new_record instance_id domain targets = record {
    id = pos 0;
    instance_id = instance_id;
    domain = domain;
    targets = targets;
    created_at = 0;
    updated_at = 0;
    deleted_at = none;
  }

  unfoldable pub add_record_with_instance_id :
      ℤ → Bytes → List AddrPort → Server R → Result (Unit {0}) × Server R
  unfolding upsert_record
  add_record_with_instance_id instance_id domain targets =
      upsert_record (some (new_record instance_id domain targets))

  unfoldable pub add_record : Bytes → List AddrPort → Server R → Result (Unit {0}) × Server R
  unfolding add_record_with_instance_id
  add_record = add_record_with_instance_id (pos 0)

  unfoldable pub remove_record : Bytes → Server R → Result (Unit {0}) × Server R
  remove_record = delete_record

  unfoldable pub remove_instance_records : ℤ → Server R → Result (Unit {0}) × Server R
  remove_instance_records = delete_instance_records

  unfoldable pub list_records : Server R → Result (List Record) × Server R
  list_records s =
      let (found, r) = repo.find s.repository in
      (found, report (repository_op Op.find (status_of found) ∷ []) (with_repository r s))

  unfoldable pub get_record : Bytes → Server R → Result Record × Server R
  get_record domain s =
      let (found, r) = repo.find_by_domain domain s.repository in
      (found, report (repository_op Op.find_by_domain (status_of found) ∷ []) (with_repository r s))

  -- `Close`: the context is cancelled, the listener is closed, and then the repository.
  unfoldable pub close : Server R → Result (Unit {0}) × Server R
  close s =
      let (done, r) = repo.close s.repository in
      (done, record s { repository = r; cancelled = true; listening = false })
