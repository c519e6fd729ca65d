-- ===== src/Examples/Runs.antt =====
-- A server that starts, answers a connection and forgets a record.
use tsdns.Prelude.{◌≡◌, refl, none, List, Bytes, ok}
use tsdns.Text.Bytes.{codes}
use tsdns.Core.Record.{Record}
use tsdns.Core.Lookup.{lookup_record}
use tsdns.Core.Lookup.Precedence.{answer}
use tsdns.Core.Server.{Server, delete_record, load_cache, install}
use tsdns.Core.Handler.{handle_query}
use tsdns.Core.Running.{start_listening, Step, Reachable}
use tsdns.Core.Running.Serving.{Reachable-lookup_record}
use tsdns.Examples.Fixtures.{no_regexp, server, connection}
use tsdns.Examples.Servers.{memory}

abbrev started : Server (List Record)
started = (start_listening memory no_regexp none server).1

abbrev answered : Server (List Record)
answered = (handle_query no_regexp started (connection (codes "ts.example"))).0

abbrev forgetful : Server (List Record)
forgetful = (delete_record memory no_regexp (codes "ts.example") answered).1

forgetful-Reachable : Reachable memory no_regexp forgetful
unfolding start_listening load_cache install
forgetful-Reachable =
    Reachable.stepped answered forgetful
      (Reachable.stepped started answered (Reachable.started none server refl)
        (Step.answers started (connection (codes "ts.example"))))
      (Step.deletes answered (codes "ts.example"))

Reachable-lookup_record_example :
    (rs : List Record) × (r : List Record) × ((memory.find r).0 ≡ ok rs)
    × ((host : Bytes) → lookup_record no_regexp forgetful.tables host ≡ answer no_regexp rs host)
Reachable-lookup_record_example =
    Reachable-lookup_record memory no_regexp forgetful forgetful-Reachable
