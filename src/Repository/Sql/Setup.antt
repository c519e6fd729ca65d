-- ===== src/Repository/Sql/Setup.antt =====
-- repository/sql/sql.go: `NewRepository`, from the options to an open database. The drivers, bun and
-- the file system are parameters.
use tsdns.Prelude.{
  ◌||◌, Option, none, some, List, [], ◌∷◌, ◌++◌, Bytes, if◌then◌else◌, Result, ok, err, Error,
  other,
}
use tsdns.Text.Bytes.{codes, equal, contains}
use tsdns.Text.Space.{trim_space}

abbrev pub dialect_sqlite : Bytes
dialect_sqlite = codes "sqlite"

abbrev pub dialect_postgres : Bytes
dialect_postgres = codes "postgres"

abbrev pub dialect_mysql : Bytes
dialect_mysql = codes "mysql"

pub record Options : Type 0 where
  pub dialect : Bytes
  pub dsn : Bytes

-- `B` is a database. `dir` is `filepath.Dir`, and `mkdir_all` has the error of `os.MkdirAll` as it is
-- wrapped. The errors of `create_index` and `ip_as_inet` are ignored.
pub record Drivers (B : Type 0) : Type 0 where
  pub dir : Bytes → Bytes
  pub mkdir_all : Bytes → Option Error
  pub open_sqlite : Bytes → Result B
  pub open_postgres : Bytes → B
  pub open_mysql : Bytes → Result B
  pub create_table : B → Result B
  pub create_index : Bytes → B → B
  pub ip_as_inet : B → B

abbrev pub memory_dsn : Bytes
memory_dsn = codes ":memory:"

abbrev joined : Bytes → List Bytes → Bytes
joined sep [] = []
joined sep (s ∷ []) = s
joined sep (s ∷ t ∷ ss) = s ++ (sep ++ joined sep (t ∷ ss))

abbrev pub pragmas : List Bytes
pragmas =
    codes "_pragma=journal_mode(WAL)"
    ∷ codes "_pragma=synchronous(NORMAL)"
    ∷ codes "_pragma=busy_timeout(5000)"
    ∷ codes "_pragma=cache_size(-64000)"
    ∷ codes "_pragma=foreign_keys(ON)"
    ∷ []

unfoldable pub apply_sqlite_pragmas : Bytes → Bytes
apply_sqlite_pragmas dsn =
    let sep = if contains dsn b'?' then codes "&" else codes "?" in
    dsn ++ (sep ++ joined (codes "&") pragmas)

module _ {B : Type 0} (drivers : Drivers B) where
  open drivers use {
    dir, mkdir_all, open_sqlite, open_postgres, open_mysql, create_table, create_index, ip_as_inet,
  }

  -- The directory that `openSQLite` makes, if it makes one.
  unfoldable pub sqlite_dir_error : Bytes → Option Error
  sqlite_dir_error dsn =
      if equal dsn memory_dsn || equal (dir dsn) (codes ".") || equal (dir dsn) []
      then none
      else mkdir_all (dir dsn)

  unfoldable pub open_sqlite_in : Option Error → Bytes → Result B
  unfolding apply_sqlite_pragmas
  open_sqlite_in (some e) dsn = err e
  open_sqlite_in none dsn = open_sqlite (apply_sqlite_pragmas dsn)

  unfoldable pub open_db : Options → Result B
  unfolding sqlite_dir_error open_sqlite_in
  open_db opt =
      if equal opt.dialect dialect_sqlite
      then open_sqlite_in (sqlite_dir_error opt.dsn) opt.dsn
      else if equal opt.dialect dialect_postgres
      then ok (open_postgres opt.dsn)
      else if equal opt.dialect dialect_mysql
      then open_mysql opt.dsn
      else err (other (codes "unsupported sql dialect"))

  -- `NewRepository` behind `migrateSchema`.
  unfoldable pub indexed : Bytes → Result B → Result B
  indexed dialect (err e) = err e
  indexed dialect (ok b) =
      let b' = create_index (codes "instance_id") (create_index (codes "domain") b) in
      ok (if equal dialect dialect_postgres then ip_as_inet b' else b')

  unfoldable pub migrated : Bytes → Result B → Result B
  unfolding indexed
  migrated dialect (err e) = err e
  migrated dialect (ok b) = indexed dialect (create_table b)

  -- `NewRepository`, by the trimmed dialect and DSN.
  unfoldable pub new_repository_trimmed : Bytes → Bytes → Options → Result B
  unfolding open_db migrated
  new_repository_trimmed [] dsn opt = err (other (codes "sql dialect is required"))
  new_repository_trimmed (c ∷ dialect) [] opt = err (other (codes "sql dsn is required"))
  new_repository_trimmed (c ∷ dialect) (d ∷ dsn) opt = migrated opt.dialect (open_db opt)

  unfoldable pub new_repository : Options → Result B
  unfolding new_repository_trimmed
  new_repository opt = new_repository_trimmed (trim_space opt.dialect) (trim_space opt.dsn) opt
