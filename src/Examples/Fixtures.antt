-- ===== src/Examples/Fixtures.antt =====
-- The data of the examples.
use tsdns.Prelude.{pos, true, false, none, some, List, [], ◌∷◌, Bytes}
use tsdns.Text.Bytes.{codes}
use tsdns.Net.Addr.{v4, AddrPort}
use tsdns.Core.Record.{Record}
use tsdns.Core.Regexp.{Regexp}
use tsdns.Core.Cache.{build_tables}
use tsdns.Core.Server.{Server}
use tsdns.Core.Handler.{Conn}

-- Expressions that compile and match nothing.
abbrev pub no_regexp : Regexp
no_regexp = record { compiles = λ p. true; match_string = λ p host. false }

abbrev pub target : AddrPort
target = record { addr = v4 10 0 0 7; port = 0 }

abbrev pub record_for : Bytes → List AddrPort → Record
record_for domain targets = record {
  id = pos 1;
  instance_id = pos 7;
  domain = domain;
  targets = targets;
  created_at = 5;
  updated_at = 6;
  deleted_at = none;
}

abbrev pub play : Record
play = record_for (codes "ts.example") (target ∷ [])

abbrev pub short_wildcard : Record
short_wildcard = record_for (codes "*.org") (target ∷ [])

abbrev pub long_wildcard : Record
long_wildcard = record_for (codes "*.b.org") (target ∷ [])

abbrev pub glob : Record
glob = record_for (codes "a?c") []

abbrev pub stored : List Record
stored = play ∷ short_wildcard ∷ long_wildcard ∷ glob ∷ []

abbrev pub server : Server (List Record)
server = record {
  repository = stored;
  tables = build_tables no_regexp stored;
  events = [];
  addr = codes ":41144";
  cache_refresh_interval = pos 60;
  cancelled = false;
  listening = true;
}

abbrev pub connection : Bytes → Conn
connection line = record { incoming = some line; write_fails = false; sent = []; closed = false }
