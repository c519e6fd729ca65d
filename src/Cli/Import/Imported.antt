-- ===== src/Cli/Import/Imported.antt =====
-- What `import tsdns-ini` leaves in the storage that it opened.
use tsdns.Prelude.{
  ℕ, false, ◌≡◌, ◌≢◌, refl, ap, sym, ◌∙◌, Option, some, [], ◌∷◌, Bytes, length, Result, ok, err,
  arith,
}
use mathlib.Core.Path.{subst}
use tsdns.Core.Server.Contract.{Contract}
use tsdns.Config.{Config, or_field}
use tsdns.Importer.{ParseResult, Reader}
use tsdns.Cli.Import.{import_entries}
use tsdns.Cli.Import.Stored.{last_content, AllStorable, import_entries-IsImported}
use tsdns.Cli.Records.{Direct, closing}
use tsdns.Cli.Import.Command.{
  ImportOptions, Report, require_dsn, parse_file, report_import, import_parsed, import_file,
  import_to, import_loaded, import_input, run_import,
}

module _ {R : Type 0} (direct : Direct R) (laws : Contract direct.repo)
    (open_file : Bytes → Result Reader) (opts : ImportOptions) where
  open direct use {repo, open_repo}
  open laws use {IsValid, view}

  -- What was printed, and a state of the storage that holds the entries and was closed then.
  abbrev pub IsDone : ParseResult → R → Result Report × Option R → Type 0
  IsDone res r x =
      (x.0 ≡ ok (Report.imported (length res.entries) res.skipped))
      × (s : R) × (x.1 ≡ some (repo.close s).1)
      × IsValid s
      × ((d : Bytes) → view s d ≡ last_content opts.instance_id d res.entries (view r d))

  counted :
      {S : Type 0} (skipped : ℕ) (x : Result ℕ × S) (rep : Report)
      → (report_import skipped x).0 ≡ ok rep
      → (m : ℕ) × (x.0 ≡ ok m)
  unfolding report_import
  counted skipped (err e, s) rep h = absurd (cc h)
  counted skipped (ok m, s) rep h = (m, refl)

  reported :
      {S : Type 0} (skipped m : ℕ) (x : Result ℕ × S)
      → x.0 ≡ ok m
      → report_import skipped x ≡ (ok (Report.imported m skipped), x.1)
  unfolding report_import
  reported skipped m (err e, s) h = absurd (cc h)
  reported skipped m (ok n, s) h = ap (λ k. (ok (Report.imported k skipped), s)) (cc h)

  -- The call on the storage.
  abbrev filled : ParseResult → R → Result Report × R
  filled res r = report_import res.skipped (import_entries repo opts.instance_id res.entries 0 r)

  closing-IsDone :
      (res : ParseResult) (r : R) (rep : Report)
      → IsValid r
      → AllStorable repo opts.instance_id laws res.entries
      → (closing repo (filled res) (ok r)).0 ≡ ok rep
      → IsDone res r (closing repo (filled res) (ok r))
  unfolding closing
  closing-IsDone res r rep v storable h =
      let (m, got) =
        counted res.skipped (import_entries repo opts.instance_id res.entries 0 r) rep h in
      let (count, valid, held) =
        import_entries-IsImported repo opts.instance_id laws res.entries 0 m r v storable got in
      let same = reported res.skipped (length res.entries) _ (count ∙ ap ok (omega arith)) in
      (ap (λ y. y.0) same, _, ap (λ y. some (repo.close y.1).1) same, valid, held)

  import_input_some :
      (path : Bytes) (loaded : Result Config)
      → path ≢ []
      → import_input direct open_file opts path loaded ≡ import_loaded direct open_file opts loaded
  unfolding import_input
  import_input_some [] loaded n = absurd (n refl)
  import_input_some (c ∷ path) loaded n = refl

  -- An import that is no dry run, of a file that is parsed, into the storage that the flag or the
  -- configuration names and that is opened in a valid state of a repository that meets its contract
  -- and can store the records of all entries: if it reports success, it reports the number of the
  -- entries and of the skipped lines, and it has closed the storage in a valid state that holds for
  -- each domain what the last entry for it says, and else what it held before.
  pub run_import-IsDone :
      (cfg : Config) (dsn : Bytes) (res : ParseResult) (r : R) (rep : Report)
      → opts.input_path ≢ []
      → require_dsn (or_field opts.dsn cfg.storage_dsn) ≡ ok dsn
      → parse_file open_file opts.input_path ≡ ok res
      → opts.dry_run ≡ false
      → open_repo dsn ≡ ok r
      → IsValid r
      → AllStorable repo opts.instance_id laws res.entries
      → (run_import direct open_file opts (ok cfg)).0 ≡ ok rep
      → IsDone res r (run_import direct open_file opts (ok cfg))
  unfolding run_import import_loaded import_to import_file import_parsed
  run_import-IsDone cfg dsn res r rep named required parsed wet opened v storable h =
      let run : run_import direct open_file opts (ok cfg) ≡ closing repo (filled res) (ok r) =
        import_input_some opts.input_path (ok cfg) named
        ∙ ap (import_to direct open_file opts) required
        ∙ ap (import_file direct open_file opts dsn) parsed
        ∙ ap (λ b. import_parsed direct open_file opts b dsn res) wet
        ∙ ap (closing repo (filled res)) opened in
      subst (IsDone res r) (sym run)
        (closing-IsDone res r rep v storable (sym (ap (λ y. y.0) run) ∙ h))
