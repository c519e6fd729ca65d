-- ===== src/Cli/Serve/Answers.antt =====
-- What clients get from a server that `serve` started.
use tsdns.Prelude.{ℤ, ◌≡◌, ◌≢◌, ap, ◌∙◌, Option, none, some, [], Bytes, Result, ok, Error, take}
use tsdns.Text.Space.{trim_space}
use tsdns.Core.Regexp.{Regexp}
use tsdns.Core.Query.{parse_query}
use tsdns.Core.Response.{respond}
use tsdns.Core.Server.{Server}
use tsdns.Core.Server.Contract.{Content, Contract}
use tsdns.Core.Handler.{Conn, close_conn, max_query_size, handle_query}
use tsdns.Core.Handler.Replies.{text_unless_empty, hit_status, outcome}
use tsdns.Core.Handler.Updates.{handle_query-cached}
use tsdns.Core.Running.{start_listening}
use tsdns.Config.{Config}
use tsdns.Cli.Records.{Direct}
use tsdns.Cli.Serve.{SetUp, set_up}
use tsdns.Cli.Serve.Started.{set_up-IsStarted}

module _ {R : Type 0} (direct : Direct R) (parse_duration : Bytes → Result ℤ)
    (resolve : Bytes → Option Error) (laws : Contract direct.repo) (re : Regexp) where
  open direct use {repo, open_repo}

  -- A client whose query has for its host a domain that the storage of the configuration's DSN holds,
  -- where opening the storage gives valid states of a repository that meets its contract, gets from
  -- the server that `serve` has set up for the configuration, and that has started, the reply that
  -- lists the targets held there, with the port of the query, or silence if there are none. The
  -- domain is not empty.
  pub handle_query-set_up :
      (cfg : Config) (s : Server R) (r : R) (c : Conn) (chunk domain : Bytes) (held : Content)
      → ((dsn : Bytes) (q : R) → open_repo dsn ≡ ok q → laws.IsValid q)
      → set_up direct parse_duration resolve (ok cfg) ≡ SetUp.ready s
      → (start_listening repo re none s).0 ≡ ok tt
      → open_repo cfg.storage_dsn ≡ ok r
      → laws.view r domain ≡ some held
      → c.incoming ≡ some chunk
      → domain ≢ []
      → (parse_query (trim_space (take max_query_size chunk))).0 ≡ domain
      → handle_query re (start_listening repo re none s).1 c
        ≡ outcome
            (hit_status c.write_fails held.targets)
            (text_unless_empty held.targets
              (respond (parse_query (trim_space (take max_query_size chunk))).1 held.targets))
            (start_listening repo re none s).1
            (close_conn c)
  handle_query-set_up cfg s r c chunk domain held valid h started opened stored line ne host =
      let (q, q_opened, _, _, _, _, cached_view) =
        set_up-IsStarted direct parse_duration resolve laws re cfg s valid h started in
      let same : q ≡ r = cc (q_opened, opened) in
      handle_query-cached re (start_listening repo re none s).1 c chunk domain held
        (cached_view domain ∙ ap (λ x. laws.view x domain) same ∙ stored) line ne host
