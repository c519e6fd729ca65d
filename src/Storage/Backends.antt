-- ===== src/Storage/Backends.antt =====
-- internal/storage/storage.go: the DSN of each backend, from the parts of its URL.
use tsdns.Prelude.{
  ℤ, pos, Option, none, some, [], ◌∷◌, ◌++◌, Bytes, if◌then◌else◌, get_or, Result, ok, err, other,
}
use tsdns.Text.Bytes.{codes, equal, contains, trim_prefix}
use tsdns.Text.Space.{trim_space}
use tsdns.Repository.Redis.Setup.{Options as RedisOptions}
use tsdns.Repository.Sql.Setup.{dialect_sqlite, dialect_postgres, dialect_mysql, memory_dsn}
use tsdns.Storage.Hosts.{ensure_mysql_port, ensure_redis_port, extract_redis_db}

pub record UserInfo : Type 0 where
  pub username : Bytes
  pub password : Option Bytes

-- What is read of a `url.URL`.
pub record Url : Type 0 where
  pub scheme : Bytes
  pub opaque : Bytes
  pub host : Bytes
  pub path : Bytes
  pub raw_query : Bytes
  pub user : Option UserInfo

-- `url.Parse`, and `Query` with the methods of its values, of type `V`.
pub record Urls (V : Type 0) : Type 0 where
  pub parse : Bytes → Result Url
  pub query : Bytes → V
  pub get : V → Bytes → Bytes
  pub set : V → Bytes → Bytes → V
  pub encode : V → Bytes

-- `Backend`; the empty text is `no_backend`.
pub data Backend : Type 0 where
  no_backend sql_backend redis_backend : Backend

pub record ParsedDsn : Type 0 where
  pub backend : Backend
  pub sql_dialect : Bytes
  pub sql_dsn : Bytes
  pub redis_opt : RedisOptions

abbrev pub no_redis : RedisOptions
no_redis = record { addr = []; password = []; prefix = []; db = pos 0 }

abbrev pub sql_parsed : Bytes → Bytes → ParsedDsn
sql_parsed dialect dsn = record {
  backend = sql_backend;
  sql_dialect = dialect;
  sql_dsn = dsn;
  redis_opt = no_redis;
}

abbrev pub redis_parsed : RedisOptions → ParsedDsn
redis_parsed opt = record {
  backend = redis_backend;
  sql_dialect = [];
  sql_dsn = [];
  redis_opt = opt;
}

unfoldable pub extract_user_info : Option UserInfo → Bytes × Bytes
extract_user_info none = ([], [])
extract_user_info (some u) = (u.username, get_or u.password [])

unfoldable pub sqlite_base : Bytes → Bytes → Bytes
sqlite_base [] path = if equal path (codes "/:memory:") then memory_dsn else path
sqlite_base (c ∷ opaque) path =
    if equal (c ∷ opaque) (codes "/:memory:") then memory_dsn else c ∷ opaque

unfoldable pub with_raw_query : Bytes → Bytes → Bytes
with_raw_query base [] = base
with_raw_query base (c ∷ query) = base ++ (if contains base b'?' then b'&' else b'?') ∷ c ∷ query

unfoldable pub sqlite_dsn_from_url : Url → Bytes
unfolding sqlite_base with_raw_query
sqlite_dsn_from_url u = with_raw_query (sqlite_base u.opaque u.path) u.raw_query

-- The branch on the trimmed DSN.
unfoldable pub sqlite_parsed : Bytes → Result ParsedDsn
sqlite_parsed [] = err (other (codes "sqlite dsn missing path"))
sqlite_parsed (c ∷ dsn) = ok (sql_parsed dialect_sqlite (c ∷ dsn))

unfoldable pub parse_sqlite_dsn : Url → Result ParsedDsn
unfolding sqlite_dsn_from_url sqlite_parsed
parse_sqlite_dsn u = sqlite_parsed (trim_space (sqlite_dsn_from_url u))

unfoldable pub postgres_parsed : Bytes → Bytes → Result ParsedDsn
postgres_parsed [] dsn = err (other (codes "postgres dsn must be url-style (postgres://...)"))
postgres_parsed (c ∷ host) dsn = ok (sql_parsed dialect_postgres dsn)

unfoldable pub parse_postgres_dsn : Url → Bytes → Result ParsedDsn
unfolding postgres_parsed
parse_postgres_dsn u dsn = postgres_parsed u.host dsn

-- `user` or `user:pass`.
unfoldable pub credentials : Bytes → Bytes → Bytes
credentials user [] = user
credentials user (c ∷ pass) = user ++ b':' ∷ c ∷ pass

unfoldable pub mysql_dsn : Bytes → Bytes → Bytes → Bytes → Bytes
unfolding ensure_mysql_port
mysql_dsn creds host db [] =
    creds ++ (codes "@tcp(" ++ (ensure_mysql_port host ++ (codes ")/" ++ db)))
mysql_dsn creds host db (c ∷ query) =
    creds ++ (codes "@tcp(" ++ (ensure_mysql_port host ++ (codes ")/" ++ (db ++ b'?' ∷ c ∷ query))))

-- The guards of `mysqlDSNFromURL`: the opaque part, the host, the name and the user.
unfoldable pub mysql_user : Bytes × Bytes → Bytes → Bytes → Bytes → Result Bytes
unfolding credentials mysql_dsn
mysql_user ([], pass) host db query = err (other (codes "mysql dsn missing username"))
mysql_user (c ∷ user, pass) host db query =
    ok (mysql_dsn (credentials (c ∷ user) pass) host db query)

unfoldable pub mysql_db : Bytes → Option UserInfo → Bytes → Bytes → Bytes → Result Bytes
unfolding mysql_user extract_user_info
mysql_db [] user host db query = err (other (codes "mysql dsn missing database name"))
mysql_db (c ∷ trimmed) user host db query = mysql_user (extract_user_info user) host db query

unfoldable pub mysql_host : Bytes → Url → Bytes → Result Bytes
unfolding mysql_db
mysql_host [] u query = err (other (codes "mysql dsn missing host"))
mysql_host (c ∷ host) u query =
    let db = trim_prefix u.path (codes "/") in mysql_db (trim_space db) u.user (c ∷ host) db query

unfoldable pub mysql_opaque : Bytes → Url → Bytes → Result Bytes
unfolding mysql_host
mysql_opaque [] u query = mysql_host u.host u query
mysql_opaque (c ∷ opaque) u query = ok (c ∷ opaque)

unfoldable pub mysql_parsed : Result Bytes → Result ParsedDsn
mysql_parsed (err e) = err e
mysql_parsed (ok dsn) = ok (sql_parsed dialect_mysql dsn)

-- The options of a Redis, by its address and by its database.
unfoldable pub redis_options : Bytes → Result ℤ → Bytes → Bytes → Result ParsedDsn
redis_options [] db password prefix = err (other (codes "redis dsn missing host"))
redis_options (c ∷ addr) (err e) password prefix = err e
redis_options (c ∷ addr) (ok n) password prefix =
    ok (redis_parsed (record { addr = c ∷ addr; password = password; prefix = prefix; db = n }))

-- The guard on the user's name.
unfoldable pub redis_user : Bytes × Bytes → Url → Bytes → Result ParsedDsn
unfolding redis_options ensure_redis_port extract_redis_db
redis_user (c ∷ name, password) u prefix =
    err (other (codes "redis username is not supported (use password-only auth)"))
redis_user ([], password) u prefix =
    redis_options (ensure_redis_port u.host) (extract_redis_db u.path) password prefix
