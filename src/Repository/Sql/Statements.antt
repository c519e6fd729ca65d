-- ===== src/Repository/Sql/Statements.antt =====
-- The table `record` and the statements that the program makes through bun.
use tsdns.Prelude.{
  ℕ, ℤ, ◌==ℤ◌, ◌<◌, ◌≡◌, ◌⊎◌, List, [], ◌∷◌, ◌++◌, Bytes, if◌then◌else◌, All, Result, ok, err,
  Error,
}
use tsdns.Text.Bytes.{equal}
use tsdns.Core.Record.{Time}

-- `recordModel`, a row.
pub record RecordModel : Type 0 where
  pub created_at : Time
  pub updated_at : Time
  pub domain : Bytes
  pub ip : Bytes
  pub id : ℤ
  pub instance_id : ℤ
  pub priority : ℕ
  pub port : ℕ

-- The statements, over a state of the database that may change and fail at every call. The result of
-- a deletion holds that of `RowsAffected`. `finish d e r` ends the transaction that began in `d`,
-- came to `e`, and returned `r`: it commits or rolls back.
pub record Database (D : Type 0) : Type 0 where
  pub now : D → Time
  pub select_all : D → Result (List RecordModel) × D
  pub select_domain : Bytes → D → Result (List RecordModel) × D
  pub select_one : Bytes → D → Result RecordModel × D
  pub delete_domain : Bytes → D → Result (Result ℕ) × D
  pub delete_instance : ℤ → D → Result ℕ × D
  pub insert_row : RecordModel → D → Result (Unit {0}) × D
  pub begin : D → Result (Unit {0}) × D
  pub finish : D → D → Result (Unit {0}) → Result (Unit {0}) × D
  pub close : D → Result (Unit {0}) × D

-- The rows of a domain.
abbrev pub rows_of : Bytes → List RecordModel → List RecordModel
rows_of domain [] = []
rows_of domain (m ∷ ms) =
    let rest = rows_of domain ms in if equal m.domain domain then m ∷ rest else rest

abbrev pub without_domain : Bytes → List RecordModel → List RecordModel
without_domain domain [] = []
without_domain domain (m ∷ ms) =
    let rest = without_domain domain ms in if equal m.domain domain then rest else m ∷ rest

abbrev pub without_instance : ℤ → List RecordModel → List RecordModel
without_instance i [] = []
without_instance i (m ∷ ms) =
    let rest = without_instance i ms in if m.instance_id ==ℤ i then rest else m ∷ rest

-- The rows of one domain as `Create` writes them: of one instance, with growing priorities.
abbrev pub IsGroup : List RecordModel → Type 0
IsGroup [] = Unit
IsGroup (m ∷ ms) =
    All (λ x. (m.priority < x.priority) × (x.instance_id ≡ m.instance_id)) ms × IsGroup ms

-- What the documentation of SQL says of these statements, where `rows` are the rows of the table in
-- the order of their insertion. A statement that fails has no effect on them. A
-- commit that reports an error may have taken effect, for its acknowledgement may be lost. Rows that were inserted
-- by growing priorities are selected in that order.
pub record TableLaws {D : Type 0} (db : Database D) : Type 0 where
  pub rows : D → List RecordModel
  pub begin_keeps : (d : D) → rows (db.begin d).1 ≡ rows d
  pub select_all_keeps : (d : D) → rows (db.select_all d).1 ≡ rows d
  pub select_all_order :
      (d : D) (ms : List RecordModel) (domain : Bytes)
      → (db.select_all d).0 ≡ ok ms
      → IsGroup (rows_of domain (rows d))
      → rows_of domain ms ≡ rows_of domain (rows d)
  pub select_one_keeps : (d : D) (domain : Bytes) → rows (db.select_one domain d).1 ≡ rows d
  pub delete_domain_ok :
      (d : D) (domain : Bytes) (n : Result ℕ)
      → (db.delete_domain domain d).0 ≡ ok n
      → rows (db.delete_domain domain d).1 ≡ without_domain domain (rows d)
  pub delete_domain_err :
      (d : D) (domain : Bytes) (e : Error)
      → (db.delete_domain domain d).0 ≡ err e
      → rows (db.delete_domain domain d).1 ≡ rows d
  pub delete_instance_ok :
      (d : D) (i : ℤ) (n : ℕ)
      → (db.delete_instance i d).0 ≡ ok n
      → rows (db.delete_instance i d).1 ≡ without_instance i (rows d)
  pub delete_instance_err :
      (d : D) (i : ℤ) (e : Error)
      → (db.delete_instance i d).0 ≡ err e
      → rows (db.delete_instance i d).1 ≡ rows d
  pub insert_row_ok :
      (d : D) (m : RecordModel)
      → (db.insert_row m d).0 ≡ ok tt
      → (id : ℤ) × (rows (db.insert_row m d).1 ≡ rows d ++ record m { id = id } ∷ [])
  pub commit_ok :
      (d e : D) → (db.finish d e (ok tt)).0 ≡ ok tt → rows (db.finish d e (ok tt)).1 ≡ rows e
  pub commit_err :
      (d e : D) (x : Error)
      → (db.finish d e (ok tt)).0 ≡ err x
      → (rows (db.finish d e (ok tt)).1 ≡ rows d) ⊎ (rows (db.finish d e (ok tt)).1 ≡ rows e)
  pub rollback :
      (d e : D) (x : Error)
      → ((db.finish d e (err x)).0 ≡ err x) × (rows (db.finish d e (err x)).1 ≡ rows d)
