-- ===== src/Storage.antt =====
-- internal/storage/storage.go: the backend that a DSN names, and its repository. `url.Parse` and
-- `url.Values` are a parameter.
pub mod Hosts
pub mod Backends
pub mod Ports
pub mod Guards
pub mod Mysql
pub mod Reading
pub mod Opening
use tsdns.Prelude.{
  ℤ, ◌||◌, Bool, [], ◌∷◌, Bytes, if◌then◌else◌, Result, ok, err, other, true, false,
}
use tsdns.Text.Bytes.{codes, equal}
use tsdns.Text.Space.{trim_space}
use tsdns.Api.Targets.{equal_fold}
use tsdns.Repository.Redis.Client.{Redis}
use tsdns.Repository.Redis.Setup.{Connected, new_repository as new_redis_repository}
use tsdns.Repository.Sql.Setup.{Drivers, new_repository as new_sql_repository}
use tsdns.Storage.Hosts.{to_lower}
use tsdns.Storage.Backends.{
  Url, Urls, Backend, no_backend, sql_backend, redis_backend, ParsedDsn, extract_user_info,
  parse_sqlite_dsn, parse_postgres_dsn, mysql_opaque, mysql_parsed, redis_user,
}

module _ {V : Type 0} (urls : Urls V) where
  open urls use {query, get, set, encode}

  unfoldable pub build_mysql_query : V → Bytes
  build_mysql_query q =
      encode (
        if equal (get q (codes "parseTime")) []
        then set q (codes "parseTime") (codes "true")
        else q)

  unfoldable pub mysql_dsn_from_url : Url → Result Bytes
  unfolding mysql_opaque build_mysql_query
  mysql_dsn_from_url u = mysql_opaque u.opaque u (build_mysql_query (query u.raw_query))

  unfoldable pub parse_redis_dsn : Url → Result ParsedDsn
  unfolding redis_user extract_user_info
  parse_redis_dsn u =
      if equal_fold (codes "REDIS") u.scheme
      then redis_user (extract_user_info u.user) u
          (trim_space (get (query u.raw_query) (codes "prefix")))
      else err (other (codes "unsupported storage scheme"))

  -- The switch on the scheme.
  unfoldable pub parse_scheme : Bytes → Url → Bytes → Result ParsedDsn
  unfolding parse_sqlite_dsn parse_postgres_dsn mysql_parsed mysql_dsn_from_url parse_redis_dsn
  parse_scheme scheme u dsn =
      if equal scheme (codes "sqlite")
      then parse_sqlite_dsn u
      else if equal scheme (codes "postgres") || equal scheme (codes "postgresql")
      then parse_postgres_dsn u dsn
      else if equal scheme (codes "mysql") || equal scheme (codes "mariadb")
      then mysql_parsed (mysql_dsn_from_url u)
      else if equal scheme (codes "redis")
      then parse_redis_dsn u
      else err (other (codes "unsupported storage scheme"))

  unfoldable pub parse_url : Result Url → Bytes → Result ParsedDsn
  unfolding parse_scheme to_lower
  parse_url (err e) dsn = err e
  parse_url (ok u) dsn =
      if equal u.scheme []
      then err (other (codes "storage dsn must include a scheme"))
      else parse_scheme (to_lower u.scheme) u dsn

  unfoldable pub parse_trimmed_dsn : Bytes → Result ParsedDsn
  unfolding parse_url
  parse_trimmed_dsn [] = err (other (codes "storage dsn is required"))
  parse_trimmed_dsn (c ∷ dsn) = parse_url (urls.parse (c ∷ dsn)) (c ∷ dsn)

  unfoldable pub parse_dsn : Bytes → Result ParsedDsn
  unfolding parse_trimmed_dsn
  parse_dsn dsn = parse_trimmed_dsn (trim_space dsn)

  unfoldable pub detected : Result ParsedDsn → Result Backend
  detected (err e) = err e
  detected (ok p) = ok p.backend

  unfoldable pub detect : Bytes → Result Backend
  unfolding detected
  detect dsn = detected (parse_dsn dsn)

-- What `Open` returns.
pub data Opened (S : Type 0) (D : Type 0) : Type 0 where
  sql_opened : S → Opened S D
  redis_opened : Connected D → Opened S D

module _ {S : Type 0} {D : Type 0} where
  unfoldable pub sql_result : Result S → Result (Opened S D × Backend)
  sql_result (err e) = err e
  sql_result (ok r) = ok (sql_opened r, sql_backend)

  unfoldable pub redis_result : Result (Connected D) → Result (Opened S D × Backend)
  redis_result (err e) = err e
  redis_result (ok r) = ok (redis_opened r, redis_backend)

module _ {V : Type 0} {S : Type 0} {D : Type 0} (urls : Urls V) (drivers : Drivers S)
    (client : Redis D) (new_client : Bytes → Bytes → ℤ → D) where
  -- The switch of `Open` on the backend.
  unfoldable pub open_backend : Backend → ParsedDsn → Result (Opened S D × Backend)
  unfolding sql_result redis_result
  open_backend sql_backend p =
      sql_result (new_sql_repository drivers (record { dialect = p.sql_dialect; dsn = p.sql_dsn }))
  open_backend redis_backend p = redis_result (new_redis_repository client new_client p.redis_opt)
  open_backend no_backend p = err (other (codes "unsupported storage backend"))

  unfoldable pub open_parsed : Result ParsedDsn → Result (Opened S D × Backend)
  unfolding open_backend
  open_parsed (err e) = err e
  open_parsed (ok p) = open_backend p.backend p

  unfoldable pub open_dsn : Bytes → Result (Opened S D × Backend)
  unfolding open_parsed
  open_dsn dsn = open_parsed (parse_dsn urls dsn)
