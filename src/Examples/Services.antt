-- ===== src/Examples/Services.antt =====
-- The commands that open the storage, on the repository in memory.
use tsdns.Prelude.{
  ℤ, pos, ◌≡◌, ◌≢◌, refl, false, true, none, some, List, [], ◌∷◌, Bytes, Result, ok, err, other,
}
use tsdns.Text.Bytes.{codes, equal, replace_byte, has_prefix, index, last_index}
use tsdns.Text.Space.{trim_space, space_width}
use tsdns.Text.Decimal.{parse_uint}
use tsdns.Net.V4.{parse_v4}
use tsdns.Net.Addr.{is6}
use tsdns.Net.AddrPort.{parse_addr, parse_addr_port, host_addr}
use tsdns.Api.Targets.{equal_fold, parse_target}
use tsdns.Api.Listener.{Sockets, listen_and_serve}
use tsdns.Api.Listener.Configured.{AllowsListening, endpoints, load-Serves}
use tsdns.Config.{default_config, load}
use tsdns.Core.Record.{Record}
use tsdns.Core.Server.{load_cache, install}
use tsdns.Core.Builder.{build, with_cache_refresh_interval, with_repository, new_server_addr}
use tsdns.Core.Running.{start_listening}
use tsdns.Importer.{Reader, parse, scan_lines, ParseResult}
use tsdns.Cli.Import.{entry_targets, parse_parts, fields, import_entries}
use tsdns.Cli.Records.{Direct}
use tsdns.Cli.Import.Command.{ImportOptions, Report, require_dsn, parse_file, run_import}
use tsdns.Cli.Import.Imported.{IsDone, run_import-IsDone}
use tsdns.Cli.Migrate.{run_migrate}
use tsdns.Cli.Serve.{set_up, setup_logger, level_debug, level_info}
use tsdns.Cli.Serve.Started.{configured, IsStarted, set_up-IsStarted}
use tsdns.Prelude.{take}
use tsdns.Core.Server.{Server}
use tsdns.Core.Query.{parse_query, parse_trimmed, parse_bracketed, parse_host_port}
use tsdns.Core.Response.{respond}
use tsdns.Core.Handler.{handle_query, close_conn, max_query_size}
use tsdns.Core.Handler.Replies.{outcome, hit_status, text_unless_empty}
use tsdns.Cli.Serve.Answers.{handle_query-set_up}
use tsdns.Examples.Fixtures.{no_regexp, stored, target, connection}
use tsdns.Examples.Servers.{memory, memory-Contract}

abbrev direct : Direct (List Record)
direct = record { repo = memory; open_repo = λ dsn. ok stored }

abbrev reader : Reader
reader = record { content = codes "# old\n ts = 10.0.0.7:1\r\nx\n"; fails = none }

abbrev read_result : ParseResult
read_result = record {
  entries = record { ident = codes "ts"; value = codes "10.0.0.7:1"; line = 2 } ∷ [];
  skipped = 1;
}

abbrev options : ImportOptions
options = record { input_path = codes "old.ini"; dsn = []; instance_id = pos 3; dry_run = false }

run_import-IsDone_example :
    IsDone direct memory-Contract
      (λ p. ok reader)
      options
      read_result
      stored
      (run_import direct (λ p. ok reader) options (ok default_config))
unfolding require_dsn parse_file parse scan_lines run_import trim_space space_width has_prefix index
    memory-Contract import_entries entry_targets equal_fold parse_parts fields replace_byte
    parse_target parse_addr_port last_index host_addr parse_addr parse_v4 is6 parse_uint
run_import-IsDone_example =
    run_import-IsDone direct memory-Contract (λ p. ok reader) options default_config
      default_config.storage_dsn read_result stored (Report.imported 1 1) (λ e. cc e) refl refl refl
      refl tt ((λ ts e. tt), tt) refl

abbrev half_minute : Bytes → Result ℤ
half_minute d = ok (pos 30000000000)

set_up-IsStarted_example :
    IsStarted direct half_minute
      (λ a. none)
      memory-Contract
      default_config
      (configured direct half_minute (λ a. none) default_config stored (pos 30000000000))
      (start_listening memory no_regexp none
        (configured direct half_minute (λ a. none) default_config stored (pos 30000000000))).1
unfolding set_up start_listening load_cache install memory-Contract build
    with_cache_refresh_interval with_repository new_server_addr
set_up-IsStarted_example =
    set_up-IsStarted direct half_minute (λ a. none) memory-Contract no_regexp default_config
      (configured direct half_minute (λ a. none) default_config stored (pos 30000000000))
      (λ dsn r e. tt) refl refl

abbrev serving : Server (List Record)
serving =
    (start_listening memory no_regexp none
      (configured direct half_minute (λ a. none) default_config stored (pos 30000000000))).1

handle_query-set_up_example :
    handle_query no_regexp serving (connection (codes "ts.example:9987"))
    ≡ outcome
        (hit_status false (target ∷ []))
        (text_unless_empty (target ∷ []) (
          respond
            (parse_query (trim_space (take max_query_size (codes "ts.example:9987")))).1
            (target ∷ [])))
        serving
        (close_conn (connection (codes "ts.example:9987")))
unfolding set_up start_listening load_cache install memory-Contract build
    with_cache_refresh_interval with_repository new_server_addr parse_query trim_space equal
    last_index parse_uint parse_trimmed parse_bracketed has_prefix parse_host_port
handle_query-set_up_example =
    handle_query-set_up direct half_minute (λ a. none) memory-Contract no_regexp default_config
      (configured direct half_minute (λ a. none) default_config stored (pos 30000000000)) stored
      (connection (codes "ts.example:9987")) (codes "ts.example:9987") (codes "ts.example")
      (record { instance_id = pos 7; targets = target ∷ [] }) (λ dsn r e. tt) refl refl refl refl
      refl (λ e. cc e) refl

abbrev sockets : Sockets (Unit {0})
sockets = record {
  listen_tcp = λ p w. (none, w);
  remove = λ p w. w;
  listen_unix = λ p w. (none, w);
  make_writable = λ p w. (none, w);
}

load-Serves_example :
    (AllowsListening sockets
      → (listen_and_serve sockets default_config.api_listen default_config.api_socket tt).0 ≡ none)
    × ((listen_and_serve sockets default_config.api_listen default_config.api_socket tt).0 ≡ none
        → (listen_and_serve sockets default_config.api_listen default_config.api_socket tt).1
          ≡ endpoints default_config)
    × (endpoints default_config ≢ [])
unfolding load trim_space equal
load-Serves_example = load-Serves sockets (λ p c. ok c) (λ v. []) [] default_config tt refl

-- A dry run opens no storage.
dry_run_report :
    run_import direct (λ p. ok reader) (record options { dry_run = true }) (ok default_config)
    ≡ (ok (Report.parsed 1 1), none)
unfolding require_dsn parse_file parse scan_lines run_import trim_space space_width has_prefix index
dry_run_report = refl

-- An unknown level is that of `info`.
levels :
    ((setup_logger (record default_config { log_level = codes "DEBUG" })).level ≡ level_debug)
    × ((setup_logger (record default_config { log_level = codes "loud" })).level ≡ level_info)
unfolding setup_logger equal
levels = (refl, refl)

migrated_storage : run_migrate direct (err (other [])) (codes "sqlite:x") ≡ (ok tt, some stored)
unfolding run_migrate
migrated_storage = refl
