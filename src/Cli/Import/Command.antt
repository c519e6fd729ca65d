-- ===== src/Cli/Import/Command.antt =====
-- `runImport` of internal/cli/import.go, with `ParseFile` of the importer; the disk is a parameter.
use tsdns.Prelude.{
  ℕ, ℤ, Bool, true, false, Option, none, some, [], ◌∷◌, Bytes, length, Result, ok, err, Error,
  other,
}
use tsdns.Text.Bytes.{codes}
use tsdns.Config.{Config, or_field}
use tsdns.Importer.{ParseResult, Reader, parse}
use tsdns.Cli.Import.{import_entries}
use tsdns.Cli.Records.{Direct, closing}

-- The flags of `import tsdns-ini`.
pub record ImportOptions : Type 0 where
  pub input_path : Bytes
  pub dsn : Bytes
  pub instance_id : ℤ
  pub dry_run : Bool

-- What is printed behind an import that succeeds: the entries, and the lines that were skipped.
pub data Report : Type 0 where
  parsed : ℕ → ℕ → Report
  imported : ℕ → ℕ → Report

abbrev pub input_required : Error
input_required = other (codes "input file is required (--input)")

abbrev pub storage_dsn_required : Error
storage_dsn_required = other (codes "storage dsn is required (set storage.dsn or use --dsn)")

-- The test of a DSN.
unfoldable pub require_dsn : Bytes → Result Bytes
require_dsn [] = err storage_dsn_required
require_dsn (c ∷ dsn) = ok (c ∷ dsn)

unfoldable pub parse_opened : Result Reader → Result ParseResult
parse_opened (err e) = err e
parse_opened (ok r) = parse (some r)

-- `open_file` is `os.Open` behind `filepath.Clean`.
unfoldable pub parse_file : (Bytes → Result Reader) → Bytes → Result ParseResult
unfolding parse_opened
parse_file open_file path = parse_opened (open_file path)

unfoldable pub report_import {ℓ} : {S : Type ℓ} → ℕ → Result ℕ × S → Result Report × S
report_import skipped (err e, s) = (err e, s)
report_import skipped (ok count, s) = (ok (Report.imported count skipped), s)

module _ {R : Type 0} (direct : Direct R) (open_file : Bytes → Result Reader)
    (opts : ImportOptions) where
  open direct use {repo, open_repo}

  -- Behind the test for a dry run.
  unfoldable pub import_parsed : Bool → Bytes → ParseResult → Result Report × Option R
  unfolding closing report_import
  import_parsed true dsn res = (ok (Report.parsed (length res.entries) res.skipped), none)
  import_parsed false dsn res =
      closing repo
        (λ r. report_import res.skipped (import_entries repo opts.instance_id res.entries 0 r))
        (open_repo dsn)

  unfoldable pub import_file : Bytes → Result ParseResult → Result Report × Option R
  unfolding import_parsed
  import_file dsn (err e) = (err e, none)
  import_file dsn (ok res) = import_parsed opts.dry_run dsn res

  unfoldable pub import_to : Result Bytes → Result Report × Option R
  unfolding import_file parse_file
  import_to (err e) = (err e, none)
  import_to (ok dsn) = import_file dsn (parse_file open_file opts.input_path)

  unfoldable pub import_loaded : Result Config → Result Report × Option R
  unfolding import_to require_dsn
  import_loaded (err e) = (err e, none)
  import_loaded (ok cfg) = import_to (require_dsn (or_field opts.dsn cfg.storage_dsn))

  -- Behind the test for the path of the input.
  unfoldable pub import_input : Bytes → Result Config → Result Report × Option R
  unfolding import_loaded
  import_input [] loaded = (err input_required, none)
  import_input (c ∷ path) loaded = import_loaded loaded

  -- The storage that was opened is returned as it is behind its `Close`.
  unfoldable pub run_import : Result Config → Result Report × Option R
  unfolding import_input
  run_import loaded = import_input opts.input_path loaded
