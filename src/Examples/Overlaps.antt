-- ===== src/Examples/Overlaps.antt =====
-- Refreshes that overlap, on the repository in memory.
use tsdns.Prelude.{ℕ, ◌≡◌, refl, none, some, List, [], ◌∷◌, Bytes, Result}
use tsdns.Maps.{lookup, insert}
use tsdns.Text.Bytes.{codes, equal, cut_prefix, contains, count, has_prefix}
use tsdns.Core.Cache.{build_tables, process_records}
use tsdns.Core.Glob.{is_advanced}
use tsdns.Core.Record.{Record}
use tsdns.Core.Server.{install}
use tsdns.Core.Server.Contract.{content_of}
use tsdns.Core.Server.Refresh.{cached}
use tsdns.Core.Running.Overlapping.{
  Overlap, opened, read_records, install_pending, changed, Next, Run,
}
use tsdns.Core.Running.Settled.{Run-cached, Run-refreshed}
use tsdns.Examples.Fixtures.{no_regexp, stored, server, target, record_for}
use tsdns.Examples.Servers.{memory, memory-Contract}

abbrev State : Type 0
State = Overlap (List Record)

abbrev added : Record
added = record_for (codes "new") (target ∷ [])

-- One refresh reads, a record is added, and a second refresh reads.
abbrev reading : State
reading = read_records memory no_regexp (opened server)

abbrev adding : State
adding = changed memory no_regexp (memory.create (some added) reading.server.repository).1 reading

abbrev reading_again : State
reading_again = read_records memory no_regexp adding

-- The second refresh installs, and then the first.
abbrev first_read : ℕ × Result (List Record)
first_read = (1, (memory.find stored).0)

abbrev second : State
second =
    install_pending memory no_regexp (first_read ∷ []) 2 (memory.find adding.server.repository).0 []
      reading_again

abbrev first : State
first = install_pending memory no_regexp [] 1 (memory.find stored).0 [] second

-- The record that was added is gone from the cache, although the refresh behind its addition was
-- installed.
overwritten :
    (cached second.server (codes "new") ≡ some (content_of added))
    × (cached first.server (codes "new") ≡ none)
unfolding install lookup build_tables process_records cut_prefix is_advanced contains count
    has_prefix insert equal
overwritten = (refl, refl)

abbrev second-Run : Run memory no_regexp (λ r. Unit) (opened server) second
second-Run =
    Run.next reading_again second
      (Run.next adding reading_again
        (Run.next reading adding
          (Run.next (opened server) reading Run.begun (Next.reads (opened server)))
          (Next.creates reading added tt))
        (Next.reads adding))
      (Next.installs reading_again (first_read ∷ []) 2 (memory.find adding.server.repository).0 []
        refl)

Run-cached_example :
    cached second.server (codes "new") ≡ memory-Contract.view second.server.repository (codes "new")
unfolding memory-Contract
Run-cached_example =
    Run-cached memory no_regexp memory-Contract (λ r d v. refl) server second tt second-Run refl
      (codes "new")

Run-refreshed_example :
    (q : State) × (p : State) × Next memory no_regexp memory-Contract.Storable second q
    × Next memory no_regexp memory-Contract.Storable q p
    × (p.pending ≡ second.pending)
    × (p.server.repository ≡ second.server.repository)
    × ((d : Bytes) → cached p.server d ≡ memory-Contract.view second.server.repository d)
unfolding memory-Contract
Run-refreshed_example =
    Run-refreshed memory no_regexp memory-Contract (λ r d v. refl) server second
      second.server.repository tt second-Run refl
