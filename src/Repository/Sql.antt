-- ===== src/Repository/Sql.antt =====
-- repository/sql/sql.go: records as rows, one row for each target. The database, behind the bun
-- library, is a parameter; its behaviour is in Sql/Statements.
pub mod Statements
pub mod Grouping
pub mod Writing
pub mod Atomic
pub mod Rows
pub mod Contents
pub mod Storage
pub mod Setup
use tsdns.Prelude.{
  ℕ, zero, suc, ℤ, pos, ◌+◌, ◌==◌, Bool, true, false, Option, none, some, List, [], ◌∷◌, ◌++◌,
  Bytes, if◌then◌else◌, get_or, Result, ok, err, Error, record_nil, record_not_found,
  domain_required,
}
use tsdns.Maps.{BytesMap, lookup, insert}
use tsdns.Text.Space.{trim_space}
use tsdns.Net.Addr.{Addr, AddrPort}
use tsdns.Net.AddrPort.{show_addr, parse_addr}
use tsdns.Core.Record.{Record, RecordRepository, Time}
use tsdns.Repository.Sql.Statements.{RecordModel, Database}

-- `groupModels`: the record that the first row of a domain starts.
unfoldable pub new_group : RecordModel → Record
new_group m = record {
  id = m.id;
  instance_id = m.instance_id;
  domain = m.domain;
  targets = [];
  created_at = m.created_at;
  updated_at = m.updated_at;
  deleted_at = none;
}

-- The append of a target to the group, if its text was an address.
unfoldable pub add_addr : Option Addr → ℕ → Record → Record
add_addr none port r = r
add_addr (some a) port r = record r { targets = r.targets ++ record { addr = a; port = port } ∷ [] }

unfoldable pub add_ip : Bytes → ℕ → Record → Record
unfolding add_addr
add_ip [] port r = r
add_ip (c ∷ ip) port r = add_addr (parse_addr (c ∷ ip)) port r

-- The row's target joins the group.
unfoldable pub add_target : RecordModel → Record → Record
unfolding add_ip
add_target m r = add_ip m.ip m.port r

-- The maps `groups` and `order` of the loop.
pub record Groups : Type 0 where
  pub groups : BytesMap Record
  pub order : List Bytes

-- One round, where the test found no group or the group `r` of the row's domain: a domain that is
-- new starts a group; the target goes to the domain's group.
unfoldable pub put_row : Option Record → RecordModel → Groups → Groups
unfolding new_group add_target
put_row none m g = record {
  groups = insert m.domain (add_target m (new_group m)) g.groups;
  order = g.order ++ m.domain ∷ [];
}
put_row (some r) m g = record g { groups = insert m.domain (add_target m r) g.groups }

unfoldable pub group_row : Groups → RecordModel → Groups
unfolding put_row
group_row g m = put_row (lookup m.domain g.groups) m g

unfoldable pub group_rows : Groups → List RecordModel → Groups
group_rows g [] = g
group_rows g (m ∷ ms) = group_rows (group_row g m) ms

-- The last loop; every domain of `order` has a group.
unfoldable pub collect : List Bytes → BytesMap Record → List Record
collect [] groups = []
collect (d ∷ order) groups =
    let rest = collect order groups in elim (lookup d groups) [ none ↦ rest | some r ↦ r ∷ rest ]

abbrev pub no_groups : Groups
no_groups = record { groups = []; order = [] }

unfoldable pub group_models : List RecordModel → List Record
group_models models = let g = group_rows no_groups models in collect g.order g.groups

-- `groupModels(models)[0]` behind the test for no rows.
unfoldable pub first_group : List Record → Result Record
first_group [] = err record_not_found
first_group (r ∷ rs) = ok r

-- The row of the `i`-th target, and the row of a record without targets.
unfoldable pub target_row : Record → Time → Time → ℕ → AddrPort → RecordModel
target_row rec created now i tp = record {
  created_at = created;
  updated_at = now;
  domain = rec.domain;
  ip = show_addr tp.addr;
  id = pos 0;
  instance_id = rec.instance_id;
  priority = i;
  port = tp.port;
}

unfoldable pub empty_row : Record → Time → Time → RecordModel
empty_row rec created now = record {
  created_at = created;
  updated_at = now;
  domain = rec.domain;
  ip = [];
  id = pos 0;
  instance_id = rec.instance_id;
  priority = 0;
  port = 0;
}

unfoldable pub found_rows : Result (List RecordModel) → Result (List Record)
unfolding group_models
found_rows (err e) = err e
found_rows (ok ms) = ok (group_models ms)

unfoldable pub found_one : Result (List Record) → Result Record
unfolding first_group
found_one (err e) = err e
found_one (ok rs) = first_group rs

-- `createdAt`: that of a row of the domain, if one was read.
unfoldable pub created_at_of : Time → Result RecordModel → Time
created_at_of now (ok m) = m.created_at
created_at_of now (err e) = now

-- The result of a deletion, by the error of `RowsAffected` and the number of rows.
unfoldable pub rows_affected : Result (Result ℕ) → Result (Unit {0})
rows_affected (err e) = err e
rows_affected (ok (err e)) = err e
rows_affected (ok (ok zero)) = err record_not_found
rows_affected (ok (ok (suc n))) = ok tt

unfoldable pub dropped {ℓ} : {A : Type ℓ} → Result A → Result (Unit {0})
dropped (err e) = err e
dropped (ok a) = ok tt

-- `if err != nil { return err }` behind a call.
abbrev pub unless_failed {ℓ} :
    {D : Type ℓ} → Result (Unit {0}) × D → (D → Result (Unit {0}) × D) → Result (Unit {0}) × D
unless_failed (err e, d) next = (err e, d)
unless_failed (ok _, d) next = next d

module _ {D : Type 0} (db : Database D) where
  unfoldable pub find : D → Result (List Record) × D
  unfolding found_rows
  find d = let (selected, d') = db.select_all d in (found_rows selected, d')

  unfoldable pub find_by_domain : Bytes → D → Result Record × D
  unfolding found_one found_rows
  find_by_domain domain d =
      let (selected, d') = db.select_domain domain d in (found_one (found_rows selected), d')

  -- The loop over the targets from the `i`-th on; it stops at the first error.
  unfoldable pub insert_targets :
      Record → Time → Time → ℕ → List AddrPort → D → Result (Unit {0}) × D
  unfolding target_row
  insert_targets rec created now i [] d = (ok tt, d)
  insert_targets rec created now i (tp ∷ tps) d =
      unless_failed (db.insert_row (target_row rec created now i tp) d)
        (insert_targets rec created now (suc i) tps)

  -- The branch on `len(record.Targets) == 0`.
  unfoldable pub insert_rows : Record → Time → Time → List AddrPort → D → Result (Unit {0}) × D
  unfolding empty_row insert_targets
  insert_rows rec created now [] d = db.insert_row (empty_row rec created now) d
  insert_rows rec created now (tp ∷ tps) d = insert_targets rec created now 0 (tp ∷ tps) d

  -- What follows the deletion of the domain's rows.
  unfoldable pub insert_after : Result (Result ℕ) → Record → Time → Time → D → Result (Unit {0}) × D
  unfolding insert_rows
  insert_after (err e) rec created now d = (err e, d)
  insert_after (ok n) rec created now d = insert_rows rec created now rec.targets d

  -- The function that `Create` runs in a transaction.
  unfoldable pub replace_rows : Record → D → Result (Unit {0}) × D
  unfolding created_at_of insert_after
  replace_rows rec d =
      let now = db.now d in
      let (existing, d1) = db.select_one rec.domain d in
      let (deleted, d2) = db.delete_domain rec.domain d1 in
      insert_after deleted rec (created_at_of now existing) now d2

  -- `RunInTx`, behind the begin of the transaction.
  unfoldable pub run_in_tx : Result (Unit {0}) → Record → D → Result (Unit {0}) × D
  unfolding replace_rows
  run_in_tx (err e) rec d = (err e, d)
  run_in_tx (ok _) rec d = let (done, d') = replace_rows rec d in db.finish d d' done

  -- `Create`, by the trimmed domain.
  unfoldable pub create_trimmed : Bytes → Record → D → Result (Unit {0}) × D
  unfolding run_in_tx
  create_trimmed [] rec d = (err domain_required, d)
  create_trimmed (c ∷ domain) rec d = let (begun, d') = db.begin d in run_in_tx begun rec d'

  unfoldable pub create : Option Record → D → Result (Unit {0}) × D
  unfolding create_trimmed
  create none d = (err record_nil, d)
  create (some rec) d = create_trimmed (trim_space rec.domain) rec d

  unfoldable pub delete : Bytes → D → Result (Unit {0}) × D
  unfolding rows_affected
  delete domain d = let (deleted, d') = db.delete_domain domain d in (rows_affected deleted, d')

  unfoldable pub delete_by_instance_id : ℤ → D → Result (Unit {0}) × D
  unfolding dropped
  delete_by_instance_id i d = let (deleted, d') = db.delete_instance i d in (dropped deleted, d')

  -- The methods as the interface that the server takes.
  abbrev pub sql_repository : RecordRepository D
  sql_repository = record {
    find = find;
    find_by_domain = find_by_domain;
    create = create;
    delete = delete;
    delete_by_instance_id = delete_by_instance_id;
    close = db.close;
  }
