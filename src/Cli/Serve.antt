-- ===== src/Cli/Serve.antt =====
-- internal/cli/serve.go: how `serve` sets the server up, and how it ends.
pub mod Started
pub mod Answers
use tsdns.Prelude.{
  ℤ, Bool, true, false, Option, none, some, [], ◌∷◌, Bytes, if◌then◌else◌, Result, ok, err, Error,
}
use tsdns.Text.Bytes.{codes, equal}
use tsdns.Core.Server.{Server, close}
use tsdns.Core.Record.{RecordRepository}
use tsdns.Core.Regexp.{Regexp}
use tsdns.Core.Builder.{
  ServerBuilder, new_server_addr, with_repository, with_cache_refresh_interval, build,
}
use tsdns.Config.{Config}
use tsdns.Api.Targets.{equal_fold}
use tsdns.Storage.Hosts.{to_lower}
use tsdns.Cli.Records.{Direct}

-- `slog.Level`, as far as it is used here.
pub data Level : Type 0 where
  level_debug : Level
  level_info : Level
  level_warn : Level
  level_error : Level

-- What `setupLogger` makes the default: a handler for a level, of JSON or of text.
pub record Logger : Type 0 where
  pub level : Level
  pub is_json : Bool

unfoldable pub level_of : Bytes → Level
level_of s =
    if equal s (codes "debug")
    then level_debug
    else if equal s (codes "info")
    then level_info
    else if equal s (codes "warn")
    then level_warn
    else if equal s (codes "error")
    then level_error
    else level_info

unfoldable pub setup_logger : Config → Logger
unfolding level_of to_lower equal_fold
setup_logger cfg = record {
  level = level_of (to_lower cfg.log_level);
  is_json = equal_fold (codes "JSON") cfg.log_format;
}

-- Where `runServe` is before the servers are started: at a server, or behind a return or a panic.
pub data SetUp (R : Type 0) : Type 0 where
  ready : Server R → SetUp R
  failed : Error → SetUp R
  panicked : Error → SetUp R

-- `MustBuild`.
unfoldable pub must_build : {R : Type 0} → Result (Server R) → SetUp R
must_build (err e) = panicked e
must_build (ok s) = ready s

-- What ends the wait: a signal, or a server that failed.
pub data Stop : Type 0 where
  signalled : Stop
  server_failed : Error → Stop

-- How `runServe` ends, with the error of `Close`.
pub data Exit (R : Type 0) : Type 0 where
  closed : Result (Unit {0}) → Server R → Exit R
  crashed : Error → Exit R

module _ {R : Type 0} (repo : RecordRepository R) (re : Regexp) where
  -- The select, and the shutdown behind it.
  unfoldable pub stop_serving : Stop → Server R → Exit R
  stop_serving signalled s = let (done, t) = close repo re s in Exit.closed done t
  stop_serving (server_failed e) s = Exit.crashed e

-- `time.ParseDuration` and the network are parameters. The logger and the metrics of the server are
-- left out.
module _ {R : Type 0} (direct : Direct R) (parse_duration : Bytes → Result ℤ)
    (resolve : Bytes → Option Error) where
  open direct use {open_repo}

  unfoldable pub set_up_server : Config → R → Result ℤ → SetUp R
  unfolding must_build
  set_up_server cfg r (err e) = failed e
  set_up_server cfg r (ok interval) = must_build (
      build (
        with_cache_refresh_interval interval
          (with_repository r (new_server_addr resolve cfg.tsdns_listen))))

  unfoldable pub set_up_opened : Config → Result R → SetUp R
  unfolding set_up_server
  set_up_opened cfg (err e) = failed e
  set_up_opened cfg (ok r) = set_up_server cfg r (parse_duration cfg.cache_refresh_interval)

  -- `runServe` up to the start of the servers.
  unfoldable pub set_up : Result Config → SetUp R
  unfolding set_up_opened
  set_up (err e) = failed e
  set_up (ok cfg) = set_up_opened cfg (open_repo cfg.storage_dsn)
