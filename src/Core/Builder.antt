-- ===== src/Core/Builder.antt =====
-- core/server.go: `ServerBuilder`, from `NewServer` over the With functions to `Build`.
pub mod Settings
use tsdns.Prelude.{
  ℕ, ℤ, pos, Bool, true, false, Option, none, some, List, [], ◌∷◌, ◌++◌, Bytes, if◌then◌else◌,
  Result, ok, err, Error, invalid_ip, repository_required,
}
use tsdns.Text.Bytes.{codes, equal, contains}
use tsdns.Net.Addr.{Addr, invalid, v4, v6}
use tsdns.Net.AddrPort.{parse_addr}
use tsdns.Core.Cache.{no_tables}
use tsdns.Core.Server.{Server}

-- The server that is built; a repository of `none` is nil. Metrics and loggers are left out.
pub record Draft (R : Type 0) : Type 0 where
  pub repository : Option R
  pub addr : Bytes
  pub cache_refresh_interval : ℤ

-- `ServerBuilder`; the server is nil in the builder for an address that is not valid.
pub record ServerBuilder (R : Type 0) : Type 0 where
  pub server : Option (Draft R)
  pub error : Option Error

-- `net.ParseIP`: an address without a zone.
abbrev has_no_zone : Option Addr → Bool
has_no_zone none = false
has_no_zone (some invalid) = false
has_no_zone (some (v4 a b c d)) = true
has_no_zone (some (v6 groups zone)) = equal zone []

unfoldable pub is_ip : Bytes → Bool
is_ip s = has_no_zone (parse_addr s)

-- `net.JoinHostPort`.
unfoldable pub join_host_port : Bytes → Bytes → Bytes
join_host_port host port =
    if contains host b':' then b'[' ∷ (host ++ b']' ∷ b':' ∷ port) else host ++ b':' ∷ port

-- 30 seconds, in nanoseconds.
abbrev pub default_interval : ℤ
default_interval = pos 30000000000

abbrev pub default_port : Bytes
default_port = codes "41144"

-- The network is a parameter: `resolve addr` is the error of `net.ResolveTCPAddr`, as it is wrapped.
module _ {R : Type 0} (resolve : Bytes → Option Error) where
  unfoldable pub new_server_addr : Bytes → ServerBuilder R
  new_server_addr listen_addr = record {
    server = some (record {
      repository = none;
      addr = listen_addr;
      cache_refresh_interval = default_interval;
    });
    error = resolve listen_addr;
  }

  unfoldable pub new_server : Bytes → ServerBuilder R
  unfolding is_ip join_host_port new_server_addr
  new_server ip =
      if equal ip (codes "0.0.0.0")
      then new_server_addr (join_host_port ip default_port)
      else if is_ip ip
      then new_server_addr (join_host_port ip default_port)
      else record { server = none; error = some invalid_ip }

module _ {R : Type 0} where
  -- The write to a field of the server, unless the builder has an error.
  abbrev set : (Draft R → Draft R) → ServerBuilder R → Option Error → ServerBuilder R
  set f b (some e) = b
  set f b none = record b { server = (elim b.server [ none ↦ none | some d ↦ some (f d) ]) }

  unfoldable pub with_repository : R → ServerBuilder R → ServerBuilder R
  with_repository r b = set (λ d. record d { repository = some r }) b b.error

  unfoldable pub with_cache_refresh_interval : ℤ → ServerBuilder R → ServerBuilder R
  with_cache_refresh_interval i b = set (λ d. record d { cache_refresh_interval = i }) b b.error

  -- The server that `Build` returns, where a repository was set.
  abbrev pub built : R → Draft R → Server R
  built r d = record {
    repository = r;
    tables = no_tables;
    events = [];
    addr = d.addr;
    cache_refresh_interval = d.cache_refresh_interval;
    cancelled = false;
    listening = false;
  }

  -- `Build` behind the test for an error. A server that is nil panics, with an error of its own here.
  unfoldable pub build_server : Option (Draft R) → Result (Server R)
  build_server none = err invalid_ip
  build_server (some d) = elim d.repository [
    | none ↦ err repository_required
    | some r ↦ ok (built r d)
  ]

  unfoldable pub build_checked : Option Error → Option (Draft R) → Result (Server R)
  unfolding build_server
  build_checked (some e) server = err e
  build_checked none server = build_server server

  unfoldable pub build : ServerBuilder R → Result (Server R)
  unfolding build_checked
  build b = build_checked b.error b.server
