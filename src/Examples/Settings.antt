-- ===== src/Examples/Settings.antt =====
-- A settings file with a comment, an entry and a line that is skipped.
use tsdns.Prelude.{refl, none, [], ◌∷◌}
use tsdns.Text.Bytes.{codes, has_prefix, index}
use tsdns.Text.Space.{trim_space}
use tsdns.Importer.{ParseResult, Reader, scan_lines, parse}
use tsdns.Importer.Sound.{IsEntry, AllEntries, parse-AllEntries}
use tsdns.Prelude.{◌≡◌, some, map, arith}
use tsdns.Net.Addr.{v4}
use tsdns.Core.Record.{Record}
use tsdns.Core.Response.{build_response}
use tsdns.Cli.Import.{entry_targets}
use tsdns.Cli.Import.Replies.{sent, entry_targets-build_response}
use tsdns.Examples.Fixtures.{target, play}

abbrev file : Reader
file = record { content = codes "# old\n ts = 10.0.0.7:1\r\nx\n"; fails = none }

abbrev result : ParseResult
result = record {
  entries = record { ident = codes "ts"; value = codes "10.0.0.7:1"; line = 2 } ∷ [];
  skipped = 1;
}

parse-AllEntries_example : AllEntries (IsEntry (scan_lines file.content)) result.entries
unfolding parse trim_space has_prefix index
parse-AllEntries_example = parse-AllEntries file result refl

abbrev two_targets : Record
two_targets = record play { targets = target ∷ record { addr = v4 10 0 0 8; port = 1 } ∷ [] }

entry_targets-build_response_example :
    entry_targets (build_response two_targets 9987) ≡ some (map (sent 9987) two_targets.targets)
entry_targets-build_response_example =
    entry_targets-build_response two_targets 9987 (omega arith)
      (
        (10, 0, 0, 7, (refl, omega arith, omega arith, omega arith, omega arith, omega arith)),
        (
          (10, 0, 0, 8, (refl, omega arith, omega arith, omega arith, omega arith, omega arith)),
          tt,
        ),
      )
      (omega arith, (omega arith, tt))
