-- ===== src/Core/Running.antt =====
-- core/server.go and `cacheUpdater` of core/cache.go: how a server starts, and what it does from
-- then on, one event after the other.
pub mod Serving
pub mod Overlapping
pub mod Settled
use tsdns.Prelude.{
  ℕ, ℤ, pos, is_positive, Bool, true, false, ◌≡◌, Option, none, some, List, [], ◌∷◌, Bytes,
  if◌then◌else◌, Result, ok, err, Error,
}
use tsdns.Core.Record.{Record, RecordRepository}
use tsdns.Core.Regexp.{Regexp}
use tsdns.Core.Server.{
  Server, load_cache, upsert_record, delete_record, delete_instance_records, list_records,
  get_record, close,
}
use tsdns.Core.Handler.{Conn, handle_query}

-- The default of `cacheUpdater`, in nanoseconds.
abbrev pub default_cache_refresh_interval : ℤ
default_cache_refresh_interval = pos 30000000000

-- The interval of the ticker in `cacheUpdater`.
unfoldable pub ticker_interval : ℤ → ℤ
ticker_interval i = if is_positive i then i else default_cache_refresh_interval

module _ {R : Type 0} (repo : RecordRepository R) (re : Regexp) where
  -- `Start` behind the two calls of package net, of which the first error is `net`: the listener is
  -- set, and the cache is loaded. If that fails the listener is closed again.
  unfoldable pub start_listening : Option Error → Server R → Result (Unit {0}) × Server R
  start_listening (some e) s = (err e, s)
  start_listening none s = load_cache repo re (record s { listening = true })

  -- The test for `cacheUpdater`.
  unfoldable pub starts_updater : Server R → Bool
  starts_updater s = is_positive s.cache_refresh_interval

  -- What a running server does: it answers a connection, refreshes its cache when the ticker fires
  -- and until the context is done, or runs an operation of the record manager. An accept that fails
  -- changes nothing.
  pub data Step : Server R → Server R → Type 0 where
    answers : (s : Server R) (c : Conn) → Step s (handle_query re s c).0
    refreshes :
        (s : Server R)
        → starts_updater s ≡ true
        → s.cancelled ≡ false
        → Step s (load_cache repo re s).1
    upserts : (s : Server R) (rec : Option Record) → Step s (upsert_record repo re rec s).1
    deletes : (s : Server R) (domain : Bytes) → Step s (delete_record repo re domain s).1
    deletes_instance : (s : Server R) (i : ℤ) → Step s (delete_instance_records repo re i s).1
    lists : (s : Server R) → Step s (list_records repo re s).1
    gets : (s : Server R) (domain : Bytes) → Step s (get_record repo re domain s).1
    closes : (s : Server R) → Step s (close repo re s).1

  -- The states behind a start that succeeded.
  pub data Reachable : Server R → Type 0 where
    started :
        (net : Option Error) (s : Server R)
        → (start_listening net s).0 ≡ ok tt
        → Reachable (start_listening net s).1
    stepped : (s t : Server R) → Reachable s → Step s t → Reachable t
