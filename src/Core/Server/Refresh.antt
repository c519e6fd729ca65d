-- ===== src/Core/Server/Refresh.antt =====
-- The operations of the server keep its cache in step with a repository that meets the contract.
use tsdns.Prelude.{
  ℤ, ◌≡◌, refl, ap, ◌∙◌, Option, none, some, List, Bytes, if◌then◌else◌, Result, ok, err, Error,
  arith,
}
use mathlib.Core.Option
use tsdns.Maps.{lookup}
use tsdns.Text.Bytes.{equal}
use tsdns.Core.Record.{Record, RecordRepository}
use tsdns.Core.Regexp.{Regexp}
use tsdns.Core.Cache.{build_tables}
use tsdns.Core.Cache.Contents.{last_record, process_records_lem}
use tsdns.Core.Metrics.{Op}
use tsdns.Core.Server.{
  Server, with_repository, install, load_cache, refresh_after, upsert_record, delete_record,
  delete_instance_records,
}
use tsdns.Core.Server.Contract.{Content, content_of, unless_instance, Contract}

module _ {R : Type 0} where
  -- What the cache holds for exactly a domain.
  abbrev pub cached : Server R → Bytes → Option Content
  cached s d = Option.map content_of (lookup d s.tables.cache)

build_tables-cache :
    (re : Regexp) (rs : List Record) (d : Bytes)
    → lookup d (build_tables re rs).cache ≡ last_record d rs
unfolding build_tables
build_tables-cache re rs d = (process_records_lem re rs).0 d

module _ {R : Type 0} (repo : RecordRepository R) (re : Regexp) where
  -- A refresh that fails leaves the tables alone.
  load_cache-err :
      (s : Server R) (e : Error)
      → (load_cache repo re s).0 ≡ err e
      → (load_cache repo re s).1.tables ≡ s.tables
  unfolding load_cache
  load_cache-err s e h = ground arith

  refresh_after-err :
      (op : Op) (done : Result (Unit {0})) (s : Server R) (e : Error)
      → (refresh_after repo re op done s).0 ≡ err e
      → (refresh_after repo re op done s).1.tables ≡ s.tables
  unfolding refresh_after
  refresh_after-err op (err x) s e h = refl
  refresh_after-err op (ok _) s e h = load_cache-err _ e h

  upsert_record-err :
      (rec : Option Record) (s : Server R) (e : Error)
      → (upsert_record repo re rec s).0 ≡ err e
      → (upsert_record repo re rec s).1.tables ≡ s.tables
  unfolding upsert_record
  upsert_record-err none s e h = refl
  upsert_record-err (some rec) s e h =
      refresh_after-err Op.create _ (with_repository (repo.create (some rec) s.repository).1 s) e h

  -- If an operation that changes records fails, in the repository or in the refresh behind it, the
  -- server's tables stay as they were.
  pub failed_change_keeps_tables :
      (rec : Option Record) (domain : Bytes) (i : ℤ) (s : Server R) (e : Error)
      → ((upsert_record repo re rec s).0 ≡ err e
          → (upsert_record repo re rec s).1.tables ≡ s.tables)
        × ((delete_record repo re domain s).0 ≡ err e
            → (delete_record repo re domain s).1.tables ≡ s.tables)
        × ((delete_instance_records repo re i s).0 ≡ err e
            → (delete_instance_records repo re i s).1.tables ≡ s.tables)
  unfolding delete_record delete_instance_records
  failed_change_keeps_tables rec domain i s e = (
    upsert_record-err rec s e,
    refresh_after-err Op.delete _ (with_repository (repo.delete domain s.repository).1 s) e,
    refresh_after-err Op.delete_by_instance _
        (with_repository (repo.delete_by_instance_id i s.repository).1 s) e,
  )

  module _ (laws : Contract repo) where
    open laws use {view, IsValid}

    pub install-cached :
        (found : Result (List Record)) (s : Server R) (d : Bytes)
        → (install repo re found s).0 ≡ ok tt
        → (rs : List Record) × (found ≡ ok rs)
          × (cached (install repo re found s).1 d ≡ Option.map content_of (last_record d rs))
    unfolding install
    install-cached (err e) s d h = absurd (cc h)
    install-cached (ok rs) s d h =
        (rs, refl, ap (Option.map content_of) (build_tables-cache re rs d))

    pub load_cache-cached :
        (s : Server R) (d : Bytes)
        → IsValid s.repository
        → (load_cache repo re s).0 ≡ ok tt
        → cached (load_cache repo re s).1 d ≡ view s.repository d
    unfolding load_cache
    load_cache-cached s d v h =
        let (rs, found, held) =
          install-cached (repo.find s.repository).0 (with_repository (repo.find s.repository).1 s) d
            h in
        held ∙ laws.find_view s.repository rs d v found

    refresh_after-cached :
        (op : Op) (done : Result (Unit {0})) (s : Server R) (d : Bytes)
        → IsValid s.repository
        → (refresh_after repo re op done s).0 ≡ ok tt
        → (done ≡ ok tt) × (cached (refresh_after repo re op done s).1 d ≡ view s.repository d)
    unfolding refresh_after
    refresh_after-cached op (err e) s d v h = absurd (cc h)
    refresh_after-cached op (ok u) s d v h = (refl, load_cache-cached _ d v h)

    -- If `UpsertRecord` succeeds, in a valid state of a repository that meets the contract, for a
    -- record that it can store, the cache holds the record's instance and targets for its domain,
    -- and for every other domain what the repository held before.
    pub upsert_record-cached :
        (rec : Record) (s : Server R) (d : Bytes)
        → IsValid s.repository
        → laws.Storable rec
        → (upsert_record repo re (some rec) s).0 ≡ ok tt
        → cached (upsert_record repo re (some rec) s).1 d
          ≡ (if equal rec.domain d then some (content_of rec) else view s.repository d)
    unfolding upsert_record
    upsert_record-cached rec s d v storable h =
        let (done, r) = repo.create (some rec) s.repository in
        let (created, held) =
          refresh_after-cached Op.create done (with_repository r s) d
            (laws.create_keeps s.repository rec storable v) h in
        held ∙ laws.create_view s.repository rec d v storable created

    -- If `DeleteRecord` succeeds, in a valid state of a repository that meets the contract, the cache
    -- holds nothing for the domain, and for every other domain what the repository held before.
    pub delete_record-cached :
        (domain : Bytes) (s : Server R) (d : Bytes)
        → IsValid s.repository
        → (delete_record repo re domain s).0 ≡ ok tt
        → cached (delete_record repo re domain s).1 d
          ≡ (if equal domain d then none else view s.repository d)
    unfolding delete_record
    delete_record-cached domain s d v h =
        let (done, r) = repo.delete domain s.repository in
        let (deleted, held) =
          refresh_after-cached Op.delete done (with_repository r s) d
            (laws.delete_keeps s.repository domain v) h in
        held ∙ laws.delete_view s.repository domain d v deleted

    -- If `DeleteInstanceRecords` succeeds, in a valid state of a repository that meets the contract,
    -- the cache holds for each domain what the repository held before, but nothing for the domains
    -- of the instance.
    pub delete_instance_records-cached :
        (i : ℤ) (s : Server R) (d : Bytes)
        → IsValid s.repository
        → (delete_instance_records repo re i s).0 ≡ ok tt
        → cached (delete_instance_records repo re i s).1 d ≡ unless_instance i (view s.repository d)
    unfolding delete_instance_records
    delete_instance_records-cached i s d v h =
        let (done, r) = repo.delete_by_instance_id i s.repository in
        let (deleted, held) =
          refresh_after-cached Op.delete_by_instance done (with_repository r s) d
            (laws.delete_by_instance_id_keeps s.repository i v) h in
        held ∙ laws.delete_by_instance_id_view s.repository i d v deleted
