-- ===== src/Cli/Migrate.antt =====
-- internal/cli/migrate.go: the storage is opened, which migrates it, and closed.
use tsdns.Prelude.{Option, none, some, [], ◌∷◌, Bytes, Result, ok, err}
use tsdns.Config.{Config}
use tsdns.Cli.Records.{Direct}
use tsdns.Cli.Import.Command.{require_dsn}

-- The DSN of the flag; the configuration is loaded without it.
unfoldable pub migrate_dsn : Result Config → Bytes → Result Bytes
unfolding require_dsn
migrate_dsn loaded (c ∷ dsn) = ok (c ∷ dsn)
migrate_dsn (err e) [] = err e
migrate_dsn (ok cfg) [] = require_dsn cfg.storage_dsn

module _ {R : Type 0} (direct : Direct R) where
  open direct use {repo, open_repo}

  -- Here the error of `Close` is returned.
  unfoldable pub migrate_opened : Result R → Result (Unit {0}) × Option R
  migrate_opened (err e) = (err e, none)
  migrate_opened (ok r) = let (done, closed) = repo.close r in (done, some closed)

  unfoldable pub migrate_to : Result Bytes → Result (Unit {0}) × Option R
  unfolding migrate_opened
  migrate_to (err e) = (err e, none)
  migrate_to (ok dsn) = migrate_opened (open_repo dsn)

  unfoldable pub run_migrate : Result Config → Bytes → Result (Unit {0}) × Option R
  unfolding migrate_to migrate_dsn
  run_migrate loaded dsn = migrate_to (migrate_dsn loaded dsn)
