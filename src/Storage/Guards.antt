-- ===== src/Storage/Guards.antt =====
-- What the guards of each backend leave of a DSN.
use tsdns.Prelude.{
  ℤ, pos, ◌≡◌, ◌≢◌, refl, ap, Bool, true, false, ◌⊎◌, inl, inr, is_negative, Option, none, some, [],
  ◌∷◌, Bytes, if◌then◌else◌, Result, ok, err, Error, arith,
}
use mathlib.Core.Path.{subst}
use tsdns.Text.Bytes.{codes, contains}
use tsdns.Text.Space.{trim_space}
use tsdns.Repository.Redis.Setup.{Options as RedisOptions}
use tsdns.Repository.Sql.Setup.{dialect_sqlite, dialect_postgres, dialect_mysql}
use tsdns.Storage.Hosts.{ensure_redis_port, checked_db, redis_db_of, extract_redis_db}
use tsdns.Storage.Ports.{ensure_port_lem}
use tsdns.Storage.Backends.{
  Url, ParsedDsn, sql_parsed, redis_parsed, sqlite_parsed, postgres_parsed, redis_options,
  redis_user,
}

-- What passes the guards of its backend.
pub data IsOpenable : ParsedDsn → Type 0 where
  sqlite :
      (dsn : Bytes) → dsn ≢ [] → trim_space dsn ≡ dsn → IsOpenable (sql_parsed dialect_sqlite dsn)
  postgres :
      (dsn : Bytes) → dsn ≢ [] → trim_space dsn ≡ dsn → IsOpenable (sql_parsed dialect_postgres dsn)
  mysql : (dsn : Bytes) → trim_space dsn ≢ [] → IsOpenable (sql_parsed dialect_mysql dsn)
  redis :
      (opt : RedisOptions)
      → contains opt.addr b':' ≡ true
      → is_negative opt.db ≡ false
      → trim_space opt.prefix ≡ opt.prefix
      → IsOpenable (redis_parsed opt)

-- The other case: a DSN of MySQL is the opaque part of the URL as it stands, and that is white space.
abbrev pub IsBlankOpaque : Url → ParsedDsn → Type 0
IsBlankOpaque u p =
    (u.opaque ≢ []) × (trim_space u.opaque ≡ []) × (p ≡ sql_parsed dialect_mysql u.opaque)

-- The value of a chain of tests is that of one of its branches.
pub branches :
    {A : Type 0} (a b c d : Bool) (w x y z : Result A) (e : Error) (p : A)
    → (if a then w else if b then x else if c then y else if d then z else err e) ≡ ok p
    → (w ≡ ok p) ⊎ ((x ≡ ok p) ⊎ ((y ≡ ok p) ⊎ (z ≡ ok p)))
branches true b c d w x y z e p h = inl h
branches false true c d w x y z e p h = inr (inl h)
branches false false true d w x y z e p h = inr (inr (inl h))
branches false false false true w x y z e p h = inr (inr (inr h))
branches false false false false w x y z e p h = absurd (cc h)

pub sqlite_parsed-IsOpenable :
    (dsn : Bytes) (p : ParsedDsn) → trim_space dsn ≡ dsn → sqlite_parsed dsn ≡ ok p → IsOpenable p
unfolding sqlite_parsed
sqlite_parsed-IsOpenable [] p t h = absurd (cc h)
sqlite_parsed-IsOpenable (c ∷ dsn) p t h =
    let same : sql_parsed dialect_sqlite (c ∷ dsn) ≡ p = cc h in
    subst IsOpenable same (IsOpenable.sqlite (c ∷ dsn) (λ e. cc e) t)

pub postgres_parsed-IsOpenable :
    (host dsn : Bytes) (p : ParsedDsn)
    → dsn ≢ []
    → trim_space dsn ≡ dsn
    → postgres_parsed host dsn ≡ ok p
    → IsOpenable p
unfolding postgres_parsed
postgres_parsed-IsOpenable [] dsn p n t h = absurd (cc h)
postgres_parsed-IsOpenable (c ∷ host) dsn p n t h =
    let same : sql_parsed dialect_postgres dsn ≡ p = cc h in
    subst IsOpenable same (IsOpenable.postgres dsn n t)

checked_db-ok : (o : Option ℤ) (n : ℤ) → checked_db o ≡ ok n → is_negative n ≡ false
unfolding checked_db
checked_db-ok none n h = absurd (cc h)
checked_db-ok (some m) n h = ground arith

redis_db_of-ok : (s : Bytes) (n : ℤ) → redis_db_of s ≡ ok n → is_negative n ≡ false
unfolding redis_db_of
redis_db_of-ok [] n h = let same : n ≡ pos 0 = cc h in ap is_negative same
redis_db_of-ok (c ∷ s) n h = checked_db-ok _ n h

redis_port :
    (host : Bytes) → ensure_redis_port host ≢ [] → contains (ensure_redis_port host) b':' ≡ true
unfolding ensure_redis_port
redis_port [] n = absurd (n refl)
redis_port (c ∷ host) n = (ensure_port_lem (codes "6379") (c ∷ host)).1

redis_options-IsOpenable :
    (addr : Bytes) (db : Result ℤ) (password prefix : Bytes) (p : ParsedDsn)
    → (addr ≢ [] → contains addr b':' ≡ true)
    → ((n : ℤ) → db ≡ ok n → is_negative n ≡ false)
    → trim_space prefix ≡ prefix
    → redis_options addr db password prefix ≡ ok p
    → IsOpenable p
unfolding redis_options
redis_options-IsOpenable [] db password prefix p port small t h = absurd (cc h)
redis_options-IsOpenable (c ∷ addr) (err e) password prefix p port small t h = absurd (cc h)
redis_options-IsOpenable (c ∷ addr) (ok n) password prefix p port small t h =
    let opt : RedisOptions = record {
      addr = c ∷ addr;
      password = password;
      prefix = prefix;
      db = n;
    } in
    let same : redis_parsed opt ≡ p = cc h in
    subst IsOpenable same (IsOpenable.redis opt (port (λ e. cc e)) (small n refl) t)

pub redis_user-IsOpenable :
    (info : Bytes × Bytes) (u : Url) (prefix : Bytes) (p : ParsedDsn)
    → trim_space prefix ≡ prefix
    → redis_user info u prefix ≡ ok p
    → IsOpenable p
unfolding redis_user extract_redis_db
redis_user-IsOpenable (c ∷ name, password) u prefix p t h = absurd (cc h)
redis_user-IsOpenable ([], password) u prefix p t h =
    redis_options-IsOpenable (ensure_redis_port u.host) (extract_redis_db u.path) password prefix p
      (redis_port u.host) (redis_db_of-ok _) t h
