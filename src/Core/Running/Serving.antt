-- ===== src/Core/Running/Serving.antt =====
-- A running server always serves records that its repository returned.
use tsdns.Prelude.{
  ◌≡◌, refl, ap, ◌∙◌, Option, none, some, List, [], ◌∷◌, Bytes, Result, ok, err, Error,
  Option-cases, inl, inr, take,
}
use tsdns.Text.Space.{trim_space}
use tsdns.Core.Record.{Record, RecordRepository}
use tsdns.Core.Regexp.{Regexp}
use tsdns.Core.Cache.{Tables, build_tables}
use tsdns.Core.Lookup.{lookup_record}
use tsdns.Core.Lookup.Precedence.{answer, lookup_record-answer}
use tsdns.Core.Metrics.{Op}
use tsdns.Core.Server.{
  Server, with_repository, install, load_cache, refresh_after, upsert_record, delete_record,
  delete_instance_records, list_records, get_record, close,
}
use tsdns.Core.Handler.{Conn, max_query_size, handle_read, handle_query}
use tsdns.Core.Handler.Replies.{line_outcome, handle_query-line_outcome}
use tsdns.Core.Running.{start_listening, Step, Reachable}

module _ {R : Type 0} (repo : RecordRepository R) (re : Regexp) where
  -- The tables are those of records that the repository returned in some state.
  pub record IsServing (s : Server R) : Type 0 where
    pub records : List Record
    pub state : R
    pub found : (repo.find state).0 ≡ ok records
    pub built : s.tables ≡ build_tables re records

  -- Other tables that are the same.
  IsServing-tables : (s t : Server R) → t.tables ≡ s.tables → IsServing s → IsServing t
  IsServing-tables s t e v = record {
    records = v.records;
    state = v.state;
    found = v.found;
    built = e ∙ v.built;
  }

  install-IsServing :
      (found : Result (List Record)) (r : R) (s : Server R)
      → (repo.find r).0 ≡ found
      → IsServing s
      → IsServing (install repo re found s).1
  unfolding install
  install-IsServing (err e) r s h v = IsServing-tables s _ refl v
  install-IsServing (ok rs) r s h v = record { records = rs; state = r; found = h; built = refl }

  load_cache-IsServing : (s : Server R) → IsServing s → IsServing (load_cache repo re s).1
  unfolding load_cache
  load_cache-IsServing s v =
      install-IsServing (repo.find s.repository).0 s.repository
        (with_repository (repo.find s.repository).1 s) refl (IsServing-tables s _ refl v)

  refresh_after-IsServing :
      (op : Op) (done : Result (Unit {0})) (s : Server R)
      → IsServing s
      → IsServing (refresh_after repo re op done s).1
  unfolding refresh_after
  refresh_after-IsServing op (err e) s v = IsServing-tables s _ refl v
  refresh_after-IsServing op (ok _) s v = load_cache-IsServing _ (IsServing-tables s _ refl v)

  upsert_record-IsServing :
      (rec : Option Record) (s : Server R) → IsServing s → IsServing (upsert_record repo re rec s).1
  unfolding upsert_record
  upsert_record-IsServing none s v = v
  upsert_record-IsServing (some rec) s v =
      let (done, r) = repo.create (some rec) s.repository in
      refresh_after-IsServing Op.create done (with_repository r s) (IsServing-tables s _ refl v)

  line_outcome-tables :
      (raw : Bytes) (s : Server R) (c : Conn) → (line_outcome re raw s c).0.tables ≡ s.tables
  line_outcome-tables [] s c = refl
  line_outcome-tables (b ∷ raw) s c = refl

  handle_query-tables : (s : Server R) (c : Conn) → (handle_query re s c).0.tables ≡ s.tables
  unfolding handle_query handle_read
  handle_query-tables s c = elim (Option-cases c.incoming) [
    | inl n ↦ ap (λ o. (handle_read re o s c).0.tables) n
    | inr (chunk, e) ↦
        ap (λ (x : Server R × Conn). x.0.tables) (handle_query-line_outcome re s c chunk e)
        ∙ line_outcome-tables (trim_space (take max_query_size chunk)) s c
  ]

  Step-IsServing : (s t : Server R) → Step repo re s t → IsServing s → IsServing t
  unfolding delete_record delete_instance_records list_records get_record close
  Step-IsServing s _ (Step.answers _ c) v = IsServing-tables s _ (handle_query-tables s c) v
  Step-IsServing s _ (Step.refreshes _ p n) v = load_cache-IsServing s v
  Step-IsServing s _ (Step.upserts _ rec) v = upsert_record-IsServing rec s v
  Step-IsServing s _ (Step.deletes _ domain) v =
      let (done, r) = repo.delete domain s.repository in
      refresh_after-IsServing Op.delete done (with_repository r s) (IsServing-tables s _ refl v)
  Step-IsServing s _ (Step.deletes_instance _ i) v =
      let (done, r) = repo.delete_by_instance_id i s.repository in
      refresh_after-IsServing Op.delete_by_instance done (with_repository r s)
        (IsServing-tables s _ refl v)
  Step-IsServing s _ (Step.lists _) v = IsServing-tables s _ refl v
  Step-IsServing s _ (Step.gets _ domain) v = IsServing-tables s _ refl v
  Step-IsServing s _ (Step.closes _) v = IsServing-tables s _ refl v

  install-started :
      (found : Result (List Record)) (r : R) (s : Server R)
      → (repo.find r).0 ≡ found
      → (install repo re found s).0 ≡ ok tt
      → IsServing (install repo re found s).1
  unfolding install
  install-started (err e) r s h o = absurd (cc o)
  install-started (ok rs) r s h o = record { records = rs; state = r; found = h; built = refl }

  start_listening-IsServing :
      (net : Option Error) (s : Server R)
      → (start_listening repo re net s).0 ≡ ok tt
      → IsServing (start_listening repo re net s).1
  unfolding start_listening load_cache
  start_listening-IsServing (some e) s h = absurd (cc h)
  start_listening-IsServing none s h =
      install-started (repo.find s.repository).0 s.repository _ refl h

  Reachable-IsServing : (s : Server R) → Reachable repo re s → IsServing s
  Reachable-IsServing _ (Reachable.started net s h) = start_listening-IsServing net s h
  Reachable-IsServing t (Reachable.stepped s _ h step) =
      Step-IsServing s t step (Reachable-IsServing s h)

  -- In every state that a server reaches behind a start that succeeded, by any sequence of
  -- connections, refreshes and operations of the record manager, of which each may fail, there are
  -- records that the repository returned at one time such that every query is answered by them.
  pub Reachable-lookup_record :
      (s : Server R)
      → Reachable repo re s
      → (rs : List Record) × (r : R) × ((repo.find r).0 ≡ ok rs)
        × ((host : Bytes) → lookup_record re s.tables host ≡ answer re rs host)
  Reachable-lookup_record s h =
      let v = Reachable-IsServing s h in
      (
        v.records,
        v.state,
        v.found,
        λ host.
            ap (λ (t : Tables). lookup_record re t host) v.built
            ∙ lookup_record-answer re v.records host,
      )
