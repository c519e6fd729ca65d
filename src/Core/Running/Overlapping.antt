-- ===== src/Core/Running/Overlapping.antt =====
-- core/cache.go and core/record.go: refreshes that overlap with each other and with changes. `loadCache`
-- reads the repository without the lock and takes it only to install the tables, so that other
-- calls may come in between.
use tsdns.Prelude.{ℕ, suc, ℤ, ◌≡◌, some, List, [], ◌∷◌, ◌++◌, Bytes, Result, ok, err}
use tsdns.Core.Record.{Record, RecordRepository}
use tsdns.Core.Regexp.{Regexp}
use tsdns.Core.Server.{Server, with_repository, install}

-- A server with the refreshes that have read the repository and not yet installed their tables. The
-- numbers count changes: `version` those so far, a refresh those before its read, and `shown` those
-- before the read of the tables. The program has no such numbers, and no step depends on them.
pub record Overlap (R : Type 0) : Type 0 where
  pub server : Server R
  pub pending : List (ℕ × Result (List Record))
  pub version : ℕ
  pub shown : ℕ

-- A server with no tables yet.
abbrev pub opened : {R : Type 0} → Server R → Overlap R
opened s = record { server = s; pending = []; version = 1; shown = 0 }

-- The number of the tables behind a refresh.
abbrev pub shown_after : ℕ → Result (List Record) → ℕ → ℕ
shown_after read (ok rs) shown = read
shown_after read (err e) shown = shown

module _ {R : Type 0} (repo : RecordRepository R) (re : Regexp) where
  -- The first half of `loadCache`: the call of `Find`.
  abbrev pub read_records : Overlap R → Overlap R
  read_records o =
      let (found, r) = repo.find o.server.repository in
      record o {
        server = with_repository r o.server;
        pending = o.pending ++ (o.version, found) ∷ [];
      }

  -- The second half, for a refresh between others.
  abbrev pub install_pending :
      List (ℕ × Result (List Record))
      → ℕ
      → Result (List Record)
      → List (ℕ × Result (List Record))
      → Overlap R
      → Overlap R
  install_pending before read found after o = record o {
    server = (install repo re found o.server).1;
    pending = before ++ after;
    shown = shown_after read found o.shown;
  }

  -- A change of the repository, which may fail.
  abbrev pub changed : R → Overlap R → Overlap R
  changed r o = record o { server = with_repository r o.server; version = suc o.version }

  -- What may happen next: a refresh reads, a refresh installs, or an operation changes the repository.
  pub data Next (Storable : Record → Type 0) : Overlap R → Overlap R → Type 0 where
    reads : (o : Overlap R) → Next Storable o (read_records o)
    installs :
        (o : Overlap R) (before : List (ℕ × Result (List Record))) (read : ℕ)
        (found : Result (List Record)) (after : List (ℕ × Result (List Record)))
        → o.pending ≡ before ++ (read, found) ∷ after
        → Next Storable o (install_pending before read found after o)
    creates :
        (o : Overlap R) (rec : Record)
        → Storable rec
        → Next Storable o (changed (repo.create (some rec) o.server.repository).1 o)
    deletes :
        (o : Overlap R) (domain : Bytes)
        → Next Storable o (changed (repo.delete domain o.server.repository).1 o)
    deletes_instance :
        (o : Overlap R) (i : ℤ)
        → Next Storable o (changed (repo.delete_by_instance_id i o.server.repository).1 o)

  pub data Run (Storable : Record → Type 0) (start : Overlap R) : Overlap R → Type 0 where
    begun : Run Storable start start
    next : (o p : Overlap R) → Run Storable start o → Next Storable o p → Run Storable start p
