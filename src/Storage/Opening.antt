-- ===== src/Storage/Opening.antt =====
-- A DSN that is read passes the guards of the constructor of its repository.
use tsdns.Prelude.{
  ℤ, ◌≡◌, ◌≢◌, refl, sym, ap, ◌∙◌, ◌⊎◌, inl, inr, [], ◌∷◌, Bytes, Result, ok, err, other,
}
use tsdns.Text.Bytes.{codes}
use tsdns.Text.Space.{trim_space}
use tsdns.Repository.Redis.Client.{Redis}
use tsdns.Repository.Redis.Setup.{
  Options as RedisOptions, pinged, prefix_or_default, new_repository_trimmed as new_redis_trimmed,
  new_repository as new_redis_repository,
}
use tsdns.Repository.Sql.Setup.{
  dialect_sqlite, dialect_postgres, dialect_mysql, Options as SqlOptions, Drivers, open_db,
  migrated, new_repository_trimmed as new_sql_trimmed, new_repository as new_sql_repository,
}
use tsdns.Storage.Backends.{
  Url, Urls, Backend, no_backend, sql_backend, redis_backend, ParsedDsn, sql_parsed,
}
use tsdns.Storage.{parse_dsn, Opened, sql_result, redis_result, open_backend, open_parsed, open_dsn}
use tsdns.Storage.Mysql.{has_text}
use tsdns.Storage.Guards.{IsOpenable, IsBlankOpaque}
use tsdns.Storage.Reading.{parse_dsn-IsRead}

-- No dialect is blank.
sqlite_named : trim_space dialect_sqlite ≢ []
unfolding trim_space
sqlite_named e = cc e

postgres_named : trim_space dialect_postgres ≢ []
unfolding trim_space
postgres_named e = cc e

mysql_named : trim_space dialect_mysql ≢ []
unfolding trim_space
mysql_named e = cc e

module _ {V : Type 0} {S : Type 0} {D : Type 0} (urls : Urls V) (drivers : Drivers S)
    (client : Redis D) (new_client : Bytes → Bytes → ℤ → D) where
  -- What the drivers return for a backend, without the guards of the constructors.
  abbrev pub dialled : Backend → ParsedDsn → Result (Opened S D × Backend)
  dialled sql_backend p = sql_result (
      migrated drivers p.sql_dialect
        (open_db drivers (record { dialect = p.sql_dialect; dsn = p.sql_dsn })))
  dialled redis_backend p = redis_result (
      pinged client new_client (prefix_or_default p.redis_opt.prefix p.redis_opt.prefix)
        (client.ping (new_client p.redis_opt.addr p.redis_opt.password p.redis_opt.db)))
  dialled no_backend p = err (other (codes "unsupported storage backend"))

  sql_guards :
      (d : Bytes) (t : Bytes) (opt : SqlOptions)
      → d ≢ []
      → t ≢ []
      → new_sql_trimmed drivers d t opt ≡ migrated drivers opt.dialect (open_db drivers opt)
  unfolding new_sql_trimmed
  sql_guards [] t opt n m = absurd (n refl)
  sql_guards (c ∷ d) [] opt n m = absurd (m refl)
  sql_guards (c ∷ d) (x ∷ t) opt n m = refl

  redis_guards :
      (t : Bytes) (opt : RedisOptions)
      → t ≢ []
      → trim_space opt.prefix ≡ opt.prefix
      → new_redis_trimmed client new_client t opt
        ≡ pinged client new_client
            (prefix_or_default opt.prefix opt.prefix)
            (client.ping (new_client opt.addr opt.password opt.db))
  unfolding new_redis_trimmed
  redis_guards [] opt n e = absurd (n refl)
  redis_guards (c ∷ t) opt n e =
      ap
        (λ x.
          pinged client new_client (prefix_or_default x opt.prefix)
            (client.ping (new_client opt.addr opt.password opt.db)))
        e

  trimmed_text : (s : Bytes) → s ≢ [] → trim_space s ≡ s → trim_space s ≢ []
  trimmed_text s n t e = n (sym t ∙ e)

  open_backend-dialled :
      (p : ParsedDsn)
      → IsOpenable p
      → open_backend urls drivers client new_client p.backend p ≡ dialled p.backend p
  unfolding open_backend new_sql_repository new_redis_repository
  open_backend-dialled _ (IsOpenable.sqlite dsn n t) = ap sql_result (
      sql_guards (trim_space dialect_sqlite) (trim_space dsn)
        (record { dialect = dialect_sqlite; dsn = dsn }) sqlite_named (trimmed_text dsn n t))
  open_backend-dialled _ (IsOpenable.postgres dsn n t) = ap sql_result (
      sql_guards (trim_space dialect_postgres) (trim_space dsn)
        (record { dialect = dialect_postgres; dsn = dsn }) postgres_named (trimmed_text dsn n t))
  open_backend-dialled _ (IsOpenable.mysql dsn n) = ap sql_result (
      sql_guards (trim_space dialect_mysql) (trim_space dsn)
        (record { dialect = dialect_mysql; dsn = dsn }) mysql_named n)
  open_backend-dialled _ (IsOpenable.redis opt c d t) =
      ap redis_result (redis_guards (trim_space opt.addr) opt (has_text opt.addr c) t)

  -- The guard of `NewRepository` for a blank DSN.
  refused :
      (d : Bytes) (opt : SqlOptions)
      → d ≢ []
      → sql_result {D = D} (new_sql_trimmed drivers d [] opt)
        ≡ err (other (codes "sql dsn is required"))
  unfolding new_sql_trimmed sql_result
  refused [] opt n = absurd (n refl)
  refused (c ∷ d) opt n = refl

  open_backend_blank :
      (dsn : Bytes)
      → trim_space dsn ≡ []
      → open_backend urls drivers client new_client sql_backend (sql_parsed dialect_mysql dsn)
        ≡ err (other (codes "sql dsn is required"))
  unfolding open_backend new_sql_repository
  open_backend_blank dsn blank =
      ap
        (λ t. sql_result (
          new_sql_trimmed drivers (trim_space dialect_mysql) t
            (record { dialect = dialect_mysql; dsn = dsn })))
        blank
      ∙ refused (trim_space dialect_mysql) (record { dialect = dialect_mysql; dsn = dsn })
          mysql_named

  -- What `Open` returns for a DSN that is read: what the drivers return, and none of the errors of the
  -- guards in the constructors of the repositories, where a Redis without a prefix gets the default
  -- one; or, for a DSN of MySQL that is the opaque part of the URL and white space, the error of a
  -- blank DSN.
  pub open_dsn-dialled :
      (dsn : Bytes) (p : ParsedDsn)
      → parse_dsn urls dsn ≡ ok p
      → (open_dsn urls drivers client new_client dsn ≡ dialled p.backend p)
        ⊎ ((u : Url) × (urls.parse (trim_space dsn) ≡ ok u)
            × IsBlankOpaque u p
            × (open_dsn urls drivers client new_client dsn
                ≡ err (other (codes "sql dsn is required"))))
  unfolding open_dsn open_parsed
  open_dsn-dialled dsn p h =
      let (u, read, cases) = parse_dsn-IsRead urls dsn p h in
      let opened = ap (open_parsed urls drivers client new_client) h in
      elim cases [
        | inl openable ↦ inl (opened ∙ open_backend-dialled p openable)
        | inr (n, blank, same) ↦ inr (
          u,
          read,
          (n, blank, same),
          opened
              ∙ ap (λ q. open_backend urls drivers client new_client q.backend q) same
              ∙ open_backend_blank u.opaque blank,
        )
      ]
