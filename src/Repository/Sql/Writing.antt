-- ===== src/Repository/Sql/Writing.antt =====
-- The rows that the function which `Create` runs in its transaction leaves, when it succeeds.
use tsdns.Prelude.{
  ℕ, suc, ◌≡◌, refl, sym, ap, ◌∙◌, List, [], ◌∷◌, ◌++◌, append_assoc, append-nil, Bytes, Result, ok,
  err,
}
use tsdns.Net.Addr.{AddrPort}
use tsdns.Net.AddrPort.{show_addr}
use tsdns.Core.Record.{Record, Time}
use tsdns.Repository.Sql.Statements.{RecordModel, Database, without_domain, TableLaws}
use tsdns.Repository.Sql.{
  target_row, empty_row, insert_targets, insert_rows, insert_after, replace_rows, created_at_of,
  unless_failed,
}

-- The row `m` is of the record `rec`, with that text, priority and port.
pub record IsRow (rec : Record) (text : Bytes) (i port : ℕ) (m : RecordModel) : Type 0 where
  pub domain : m.domain ≡ rec.domain
  pub ip : m.ip ≡ text
  pub instance_id : m.instance_id ≡ rec.instance_id
  pub priority : m.priority ≡ i
  pub port_of : m.port ≡ port

-- The rows of targets, with priorities from `i` on.
abbrev pub AreRows : Record → ℕ → List AddrPort → List RecordModel → Type 0
AreRows rec i [] [] = Unit
AreRows rec i (t ∷ ts) (m ∷ ms) =
    IsRow rec (show_addr t.addr) i t.port m × AreRows rec (suc i) ts ms
AreRows rec i _ _ = ⊥

-- The rows of a record: one for each target, or one without an address.
abbrev pub AreRowsOf : Record → List AddrPort → List RecordModel → Type 0
AreRowsOf rec [] (m ∷ []) = IsRow rec [] 0 0 m
AreRowsOf rec [] _ = ⊥
AreRowsOf rec (t ∷ ts) ms = AreRows rec 0 (t ∷ ts) ms

unless_failed-ok :
    {D : Type 0} (x : Result (Unit {0}) × D) (next : D → Result (Unit {0}) × D)
    → (unless_failed x next).0 ≡ ok tt
    → (x.0 ≡ ok tt) × (unless_failed x next ≡ next x.1)
unless_failed-ok (err e, d) next h = absurd (cc h)
unless_failed-ok (ok _, d) next h = (refl, refl)

module _ {D : Type 0} (db : Database D) (laws : TableLaws db) where
  open laws use {rows}

  insert_row-rows :
      (d : D) (m : RecordModel) (rec : Record) (text : Bytes) (i port : ℕ)
      → IsRow rec text i port m
      → (db.insert_row m d).0 ≡ ok tt
      → (x : RecordModel) × IsRow rec text i port x
        × (rows (db.insert_row m d).1 ≡ rows d ++ x ∷ [])
  insert_row-rows d m rec text i port is h =
      let (id, e) = laws.insert_row_ok d m h in
      (
        record m { id = id },
        record {
          domain = is.domain;
          ip = is.ip;
          instance_id = is.instance_id;
          priority = is.priority;
          port_of = is.port_of;
        },
        e,
      )

  target_row-IsRow :
      (rec : Record) (created now : Time) (i : ℕ) (t : AddrPort)
      → IsRow rec (show_addr t.addr) i t.port (target_row rec created now i t)
  unfolding target_row
  target_row-IsRow rec created now i t = record {
    domain = refl;
    ip = refl;
    instance_id = refl;
    priority = refl;
    port_of = refl;
  }

  insert_targets-rows :
      (rec : Record) (created now : Time) (i : ℕ) (ts : List AddrPort) (d : D)
      → (insert_targets db rec created now i ts d).0 ≡ ok tt
      → (ms : List RecordModel) × AreRows rec i ts ms
        × (rows (insert_targets db rec created now i ts d).1 ≡ rows d ++ ms)
  unfolding insert_targets
  insert_targets-rows rec created now i [] d h = ([], tt, sym (append-nil (rows d)))
  insert_targets-rows rec created now i (t ∷ ts) d h =
      let row : RecordModel = target_row rec created now i t in
      let next = insert_targets db rec created now (suc i) ts in
      let (inserted, step) = unless_failed-ok (db.insert_row row d) next h in
      let (m, is, put) =
        insert_row-rows d row rec (show_addr t.addr) i t.port (target_row-IsRow rec created now i t)
          inserted in
      let (ms, are, later) =
        insert_targets-rows rec created now (suc i) ts (db.insert_row row d).1
          (sym (ap (λ (x : Result (Unit {0}) × D). x.0) step) ∙ h) in
      (
        m ∷ ms,
        (is, are),
        ap (λ (x : Result (Unit {0}) × D). rows x.1) step
            ∙ later
            ∙ ap (λ r. r ++ ms) put
            ∙ append_assoc (rows d) (m ∷ []) ms,
      )

  insert_rows-rows :
      (rec : Record) (created now : Time) (ts : List AddrPort) (d : D)
      → (insert_rows db rec created now ts d).0 ≡ ok tt
      → (ms : List RecordModel) × AreRowsOf rec ts ms
        × (rows (insert_rows db rec created now ts d).1 ≡ rows d ++ ms)
  unfolding insert_rows empty_row
  insert_rows-rows rec created now [] d h =
      let is : IsRow rec [] 0 0 (empty_row rec created now) = record {
        domain = refl;
        ip = refl;
        instance_id = refl;
        priority = refl;
        port_of = refl;
      } in
      let (m, is', put) = insert_row-rows d (empty_row rec created now) rec [] 0 0 is h in
      (m ∷ [], is', put)
  insert_rows-rows rec created now (t ∷ ts) d h = insert_targets-rows rec created now 0 (t ∷ ts) d h

  insert_after-rows :
      (deleted : Result (Result ℕ)) (rec : Record) (created now : Time) (d : D)
      → (insert_after db deleted rec created now d).0 ≡ ok tt
      → (n : Result ℕ) × (deleted ≡ ok n)
        × ((ms : List RecordModel) × AreRowsOf rec rec.targets ms
            × (rows (insert_after db deleted rec created now d).1 ≡ rows d ++ ms))
  unfolding insert_after
  insert_after-rows (err e) rec created now d h = absurd (cc h)
  insert_after-rows (ok n) rec created now d h =
      (n, refl, insert_rows-rows rec created now rec.targets d h)

  pub replace_rows-rows :
      (rec : Record) (d : D)
      → (replace_rows db rec d).0 ≡ ok tt
      → (ms : List RecordModel) × AreRowsOf rec rec.targets ms
        × (rows (replace_rows db rec d).1 ≡ without_domain rec.domain (rows d) ++ ms)
  unfolding replace_rows
  replace_rows-rows rec d h =
      let (existing, d1) = db.select_one rec.domain d in
      let (deleted, d2) = db.delete_domain rec.domain d1 in
      let (n, gone, (ms, are, put)) =
        insert_after-rows deleted rec (created_at_of (db.now d) existing) (db.now d) d2 h in
      (
        ms,
        are,
        put
            ∙ ap (λ r. r ++ ms)
                (laws.delete_domain_ok d1 rec.domain n gone
                  ∙ ap (without_domain rec.domain) (laws.select_one_keeps d rec.domain)),
      )
