-- ===== src/Storage/Reading.antt =====
-- What is read of a DSN, for every backend.
use tsdns.Prelude.{
  ◌≡◌, ◌≢◌, refl, ◌⊎◌, Bool, true, false, inl, inr, [], ◌∷◌, Bytes, if◌then◌else◌, Result, ok, err,
  other, ◌||◌,
}
use tsdns.Text.Bytes.{codes, equal}
use tsdns.Text.Space.{trim_space}
use tsdns.Text.Space.Laws.{trim_space-trim_space}
use tsdns.Api.Targets.{equal_fold}
use tsdns.Storage.Hosts.{to_lower}
use tsdns.Storage.Backends.{
  Url, Urls, ParsedDsn, extract_user_info, sqlite_dsn_from_url, parse_sqlite_dsn,
  parse_postgres_dsn, mysql_parsed, redis_user,
}
use tsdns.Storage.{
  build_mysql_query, mysql_dsn_from_url, parse_redis_dsn, parse_scheme, parse_url,
  parse_trimmed_dsn, parse_dsn,
}
use tsdns.Storage.Mysql.{mysql_opaque-IsMysqlDsn, mysql_parsed_cases}
use tsdns.Storage.Guards.{
  IsOpenable, IsBlankOpaque, branches, sqlite_parsed-IsOpenable, postgres_parsed-IsOpenable,
  redis_user-IsOpenable,
}

module _ {V : Type 0} (urls : Urls V) where
  redis_scheme-IsOpenable :
      (b : Bool) (u : Url) (prefix : Bytes) (p : ParsedDsn)
      → trim_space prefix ≡ prefix
      → (if b
          then redis_user (extract_user_info u.user) u prefix
          else err (other (codes "unsupported storage scheme")))
        ≡ ok p
      → IsOpenable p
  redis_scheme-IsOpenable true u prefix p t h = redis_user-IsOpenable _ u prefix p t h
  redis_scheme-IsOpenable false u prefix p t h = absurd (cc h)

  parse_redis_dsn-IsOpenable :
      (u : Url) (p : ParsedDsn) → parse_redis_dsn urls u ≡ ok p → IsOpenable p
  unfolding parse_redis_dsn
  parse_redis_dsn-IsOpenable u p h =
      redis_scheme-IsOpenable (equal_fold (codes "REDIS") u.scheme) u _ p (trim_space-trim_space _)
        h

  -- What is read with a URL.
  abbrev IsReadOf : Url → ParsedDsn → Type 0
  IsReadOf u p = IsOpenable p ⊎ IsBlankOpaque u p

  parse_scheme-IsReadOf :
      (scheme : Bytes) (u : Url) (dsn : Bytes) (p : ParsedDsn)
      → dsn ≢ []
      → trim_space dsn ≡ dsn
      → parse_scheme urls scheme u dsn ≡ ok p
      → IsReadOf u p
  unfolding parse_scheme parse_sqlite_dsn parse_postgres_dsn mysql_dsn_from_url
  parse_scheme-IsReadOf scheme u dsn p n t h =
      elim (branches (equal scheme (codes "sqlite"))
        (equal scheme (codes "postgres") || equal scheme (codes "postgresql"))
        (equal scheme (codes "mysql") || equal scheme (codes "mariadb"))
        (equal scheme (codes "redis")) (parse_sqlite_dsn u) (parse_postgres_dsn u dsn)
        (mysql_parsed (mysql_dsn_from_url urls u)) (parse_redis_dsn urls u)
        (other (codes "unsupported storage scheme")) p h) [
          | inl sqlite ↦
              inl (
                sqlite_parsed-IsOpenable _ p (trim_space-trim_space (sqlite_dsn_from_url u)) sqlite)
          | inr rest ↦ elim rest [
            | inl postgres ↦ inl (postgres_parsed-IsOpenable u.host dsn p n t postgres)
            | inr rest ↦ elim rest [
              | inl mysql ↦
                  mysql_parsed_cases u _ p
                    (mysql_opaque-IsMysqlDsn u.opaque u
                      (build_mysql_query urls (urls.query u.raw_query)))
                    mysql
              | inr redis ↦ inl (parse_redis_dsn-IsOpenable u p redis)
            ]
          ]
        ]

  with_scheme-IsReadOf :
      (b : Bool) (u : Url) (dsn : Bytes) (p : ParsedDsn)
      → dsn ≢ []
      → trim_space dsn ≡ dsn
      → (if b
          then err (other (codes "storage dsn must include a scheme"))
          else parse_scheme urls (to_lower u.scheme) u dsn)
        ≡ ok p
      → IsReadOf u p
  with_scheme-IsReadOf true u dsn p n t h = absurd (cc h)
  with_scheme-IsReadOf false u dsn p n t h = parse_scheme-IsReadOf _ u dsn p n t h

  -- The URL that was read, and what was made of it.
  abbrev pub IsRead : Result Url → ParsedDsn → Type 0
  IsRead x p = (u : Url) × (x ≡ ok u) × (IsOpenable p ⊎ IsBlankOpaque u p)

  parse_url-IsRead :
      (x : Result Url) (dsn : Bytes) (p : ParsedDsn)
      → dsn ≢ []
      → trim_space dsn ≡ dsn
      → parse_url urls x dsn ≡ ok p
      → IsRead x p
  unfolding parse_url
  parse_url-IsRead (err e) dsn p n t h = absurd (cc h)
  parse_url-IsRead (ok u) dsn p n t h =
      (u, refl, with_scheme-IsReadOf (equal u.scheme []) u dsn p n t h)

  parse_trimmed_dsn-IsRead :
      (dsn : Bytes) (p : ParsedDsn)
      → trim_space dsn ≡ dsn
      → parse_trimmed_dsn urls dsn ≡ ok p
      → IsRead (urls.parse dsn) p
  unfolding parse_trimmed_dsn
  parse_trimmed_dsn-IsRead [] p t h = absurd (cc h)
  parse_trimmed_dsn-IsRead (c ∷ dsn) p t h =
      parse_url-IsRead (urls.parse (c ∷ dsn)) (c ∷ dsn) p (λ e. cc e) t h

  -- What `parseDSN` returns, for every text and every URL parser, passes the guards of its backend: it
  -- is a trimmed DSN of SQLite or of PostgreSQL that is not empty, a DSN of MySQL that is not blank, or
  -- the options of a Redis with a colon in the address, a database that is not negative, and a trimmed
  -- prefix. The one exception is the DSN of MySQL that is the opaque part of the URL, if that is
  -- white space.
  pub parse_dsn-IsRead :
      (dsn : Bytes) (p : ParsedDsn)
      → parse_dsn urls dsn ≡ ok p
      → IsRead (urls.parse (trim_space dsn)) p
  unfolding parse_dsn
  parse_dsn-IsRead dsn p h =
      parse_trimmed_dsn-IsRead (trim_space dsn) p (trim_space-trim_space dsn) h
