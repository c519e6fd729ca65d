-- ===== src/Examples/Storages.antt =====
-- DSNs read with a small URL parser, and opened.
use tsdns.Prelude.{ℕ, pos, ℤ, ◌≡◌, refl, none, some, Option, [], Bytes, ok, take, drop}
use tsdns.Text.Bytes.{codes, equal, contains, index, last_index}
use tsdns.Text.Decimal.{parse_int}
use tsdns.Text.Space.{trim_space}
use tsdns.Repository.Sql.Setup.{Drivers, new_repository}
use tsdns.Storage.Backends.{Url, Urls, redis_backend, ParsedDsn, redis_parsed, sql_parsed}
use tsdns.Storage.Hosts.{ensure_port, splits_host_port}
use tsdns.Api.Targets.{equal_fold, trim_set}
use tsdns.Storage.Guards.{IsBlankOpaque}
use tsdns.Storage.Reading.{IsRead, parse_dsn-IsRead}
use tsdns.Prelude.{◌⊎◌, err, other}
use tsdns.Storage.Opening.{dialled, open_dsn-dialled}
use tsdns.Storage.{parse_dsn, open_dsn}
use tsdns.Examples.RedisLogs.{Log, logs}

-- The parts before and from the first `b` on.
abbrev cut_at : Option ℕ → Bytes → Bytes × Bytes
cut_at none s = (s, [])
cut_at (some i) s = (take i s, drop i s)

-- `scheme://host/path`, without queries and users.
abbrev small_url : Bytes → Url
small_url s =
    let (scheme, rest) = cut_at (index s b':') s in
    let (host, path) = cut_at (index (drop 3 rest) b'/') (drop 3 rest) in
    record { scheme = scheme; opaque = []; host = host; path = path; raw_query = []; user = none }

abbrev small_urls : Urls Bytes
small_urls = record {
  parse = λ s. ok (small_url s);
  query = λ s. s;
  get = λ q k. [];
  set = λ q k v. v;
  encode = λ q. q;
}

abbrev no_drivers : Drivers Bytes
no_drivers = record {
  dir = λ s. [];
  mkdir_all = λ s. none;
  open_sqlite = ok;
  open_postgres = λ s. s;
  open_mysql = ok;
  create_table = ok;
  create_index = λ column s. s;
  ip_as_inet = λ s. s;
}

abbrev new_log : Bytes → Bytes → ℤ → Log
new_log addr password db = []

abbrev small_redis : ParsedDsn
small_redis =
    redis_parsed (record { addr = codes "cache:6379"; password = []; prefix = []; db = pos 2 })

redis_read : parse_dsn small_urls (codes " redis://cache/2\n") ≡ ok small_redis
unfolding parse_dsn trim_space ensure_port equal index equal_fold splits_host_port last_index
    contains trim_set parse_int
redis_read = refl

sqlite_read :
    parse_dsn small_urls (codes "sqlite:///data/tsdns.sqlite")
    ≡ ok (sql_parsed (codes "sqlite") (codes "/data/tsdns.sqlite"))
unfolding parse_dsn trim_space ensure_port equal index
sqlite_read = refl

parse_dsn-IsRead_example :
    IsRead small_urls (small_urls.parse (trim_space (codes " redis://cache/2\n"))) small_redis
parse_dsn-IsRead_example =
    parse_dsn-IsRead small_urls (codes " redis://cache/2\n") small_redis redis_read

open_dsn-dialled_example :
    (open_dsn small_urls no_drivers logs new_log (codes " redis://cache/2\n")
      ≡ dialled small_urls no_drivers logs new_log redis_backend small_redis)
    ⊎ ((u : Url) × (small_urls.parse (trim_space (codes " redis://cache/2\n")) ≡ ok u)
        × IsBlankOpaque u small_redis
        × (open_dsn small_urls no_drivers logs new_log (codes " redis://cache/2\n")
            ≡ err (other (codes "sql dsn is required"))))
open_dsn-dialled_example =
    open_dsn-dialled small_urls no_drivers logs new_log (codes " redis://cache/2\n") small_redis
      redis_read

-- `mysql: ?a=b`, of which the opaque part is a blank, is read and then not opened.
abbrev blank_urls : Urls Bytes
blank_urls = record small_urls {
  parse = λ s. ok (record (small_url s) { opaque = codes " "; raw_query = codes "a=b" });
}

blank_read :
    parse_dsn blank_urls (codes "mysql: ?a=b") ≡ ok (sql_parsed (codes "mysql") (codes " "))
unfolding parse_dsn trim_space equal index
blank_read = refl

blank_refused :
    open_dsn blank_urls no_drivers logs new_log (codes "mysql: ?a=b")
    ≡ err (other (codes "sql dsn is required"))
unfolding open_dsn trim_space equal index parse_dsn new_repository
blank_refused = refl
