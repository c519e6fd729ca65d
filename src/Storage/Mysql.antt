-- ===== src/Storage/Mysql.antt =====
-- What the guards of MySQL leave of a DSN.
use tsdns.Prelude.{
  ◌≡◌, ◌≢◌, refl, ap, ◌∙◌, true, false, ◌⊎◌, inl, inr, Option, [], ◌∷◌, ◌++◌, Bytes, Result, ok,
  err,
}
use mathlib.Core.Path.{subst}
use tsdns.Text.Bytes.{codes, contains}
use tsdns.Text.Space.{trim_space}
use tsdns.Text.Space.Kept.{contains-trim_space}
use tsdns.Repository.Sql.Setup.{dialect_mysql}
use tsdns.Storage.Hosts.{ensure_port, ensure_mysql_port}
use tsdns.Storage.Ports.{contains_append_left, contains_append_right, ensure_port_lem}
use tsdns.Storage.Backends.{
  Url, UserInfo, ParsedDsn, sql_parsed, extract_user_info, credentials, mysql_dsn, mysql_user,
  mysql_db, mysql_host, mysql_opaque, mysql_parsed,
}
use tsdns.Storage.Guards.{IsOpenable, IsBlankOpaque}

pub has_text : (s : Bytes) → contains s b':' ≡ true → trim_space s ≢ []
has_text s h e =
    let none_left : contains (trim_space s) b':' ≡ false =
      ap (λ t. contains t b':') e ∙ unfold contains in refl in
    cc (contains-trim_space s, h, none_left)

-- The port of a host stands behind a colon.
host_colon :
    (creds host rest : Bytes)
    → contains (creds ++ (codes "@tcp(" ++ (ensure_mysql_port host ++ rest))) b':' ≡ true
unfolding ensure_mysql_port
host_colon creds host rest = contains_append_right creds _ b':' (
    contains_append_right (codes "@tcp(") _ b':' (
      contains_append_left (ensure_port (codes "3306") host) rest b':'
        (ensure_port_lem (codes "3306") host).1))

mysql_dsn-has_text : (creds host db query : Bytes) → trim_space (mysql_dsn creds host db query) ≢ []
unfolding mysql_dsn
mysql_dsn-has_text creds host db [] = has_text _ (host_colon creds host (codes ")/" ++ db))
mysql_dsn-has_text creds host db (c ∷ query) =
    has_text _ (host_colon creds host (codes ")/" ++ (db ++ b'?' ∷ c ∷ query)))

mysql_user-has_text :
    (info : Bytes × Bytes) (host db query dsn : Bytes)
    → mysql_user info host db query ≡ ok dsn
    → trim_space dsn ≢ []
unfolding mysql_user
mysql_user-has_text ([], pass) host db query dsn h = λ e. cc h
mysql_user-has_text (c ∷ user, pass) host db query dsn h =
    let same : mysql_dsn (credentials (c ∷ user) pass) host db query ≡ dsn = cc h in
    subst (λ d. trim_space d ≢ []) same
      (mysql_dsn-has_text (credentials (c ∷ user) pass) host db query)

mysql_db-has_text :
    (t : Bytes) (user : Option UserInfo) (host db query dsn : Bytes)
    → mysql_db t user host db query ≡ ok dsn
    → trim_space dsn ≢ []
unfolding mysql_db
mysql_db-has_text [] user host db query dsn h = λ e. cc h
mysql_db-has_text (c ∷ t) user host db query dsn h =
    mysql_user-has_text (extract_user_info user) host db query dsn h

mysql_host-has_text :
    (host : Bytes) (u : Url) (query dsn : Bytes)
    → mysql_host host u query ≡ ok dsn
    → trim_space dsn ≢ []
unfolding mysql_host
mysql_host-has_text [] u query dsn h = λ e. cc h
mysql_host-has_text (c ∷ host) u query dsn h = mysql_db-has_text _ u.user (c ∷ host) _ query dsn h

-- What a DSN of MySQL is, for the opaque part of its URL.
abbrev IsMysqlDsn : Bytes → Bytes → Type 0
IsMysqlDsn opaque dsn =
    (trim_space dsn ≢ []) ⊎ ((opaque ≢ []) × (trim_space opaque ≡ []) × (dsn ≡ opaque))

opaque_cases : (opaque t : Bytes) → opaque ≢ [] → trim_space opaque ≡ t → IsMysqlDsn opaque opaque
opaque_cases opaque [] n e = inr (n, e, refl)
opaque_cases opaque (c ∷ t) n e = inl (λ blank. cc (e, blank))

pub mysql_opaque-IsMysqlDsn :
    (opaque : Bytes) (u : Url) (query dsn : Bytes)
    → mysql_opaque opaque u query ≡ ok dsn
    → IsMysqlDsn opaque dsn
unfolding mysql_opaque
mysql_opaque-IsMysqlDsn [] u query dsn h = inl (mysql_host-has_text u.host u query dsn h)
mysql_opaque-IsMysqlDsn (c ∷ opaque) u query dsn h =
    let same : c ∷ opaque ≡ dsn = cc h in
    subst (IsMysqlDsn (c ∷ opaque)) same (opaque_cases (c ∷ opaque) _ (λ e. cc e) refl)

mysql_dsn_cases :
    (u : Url) (dsn : Bytes)
    → IsMysqlDsn u.opaque dsn
    → IsOpenable (sql_parsed dialect_mysql dsn) ⊎ IsBlankOpaque u (sql_parsed dialect_mysql dsn)
mysql_dsn_cases u dsn (inl text) = inl (IsOpenable.mysql dsn text)
mysql_dsn_cases u dsn (inr (n, blank, same)) = inr (n, blank, ap (sql_parsed dialect_mysql) same)

pub mysql_parsed_cases :
    (u : Url) (x : Result Bytes) (p : ParsedDsn)
    → ((dsn : Bytes) → x ≡ ok dsn → IsMysqlDsn u.opaque dsn)
    → mysql_parsed x ≡ ok p
    → IsOpenable p ⊎ IsBlankOpaque u p
unfolding mysql_parsed
mysql_parsed_cases u (err e) p n h = absurd (cc h)
mysql_parsed_cases u (ok dsn) p n h =
    let same : sql_parsed dialect_mysql dsn ≡ p = cc h in
    subst (λ q. IsOpenable q ⊎ IsBlankOpaque u q) same (mysql_dsn_cases u dsn (n dsn refl))
