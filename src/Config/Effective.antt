-- ===== src/Config/Effective.antt =====
-- What each setting of a loaded configuration is, by the name of its environment variable.
use tsdns.Prelude.{
  ◌≡◌, ◌≢◌, ◌⊎◌, ◌↔◌, ◌&&◌, inl, inr, refl, sym, ap, ◌∙◌, false, Bool-cases, [], ◌∷◌, Bytes,
  if◌then◌else◌, Result, ok, arith,
}
use mathlib.Core.Path.{subst}
use tsdns.Text.Bytes.{codes, equal, equal_iff}
use tsdns.Text.Space.{trim_space}
use tsdns.Config.{Config, Env, apply_env, is_blank, or_field, load}
use tsdns.Config.Sources.{IsComplete, from_file, load-IsComplete, load_complete}

pub data Setting : Type 0 where
  tsdns_listen cache_refresh_interval api_listen api_socket api_url api_token log_level log_format
        storage_dsn :
      Setting

-- The names of the environment variables.
abbrev pub variable : Setting → Bytes
variable Setting.tsdns_listen = codes "TSDNS_LISTEN"
variable Setting.cache_refresh_interval = codes "TSDNS_CACHE_REFRESH_INTERVAL"
variable Setting.api_listen = codes "TSDNS_API_LISTEN"
variable Setting.api_socket = codes "TSDNS_API_SOCKET"
variable Setting.api_url = codes "TSDNS_API_URL"
variable Setting.api_token = codes "TSDNS_API_TOKEN"
variable Setting.log_level = codes "TSDNS_LOG_LEVEL"
variable Setting.log_format = codes "TSDNS_LOG_FORMAT"
variable Setting.storage_dsn = codes "TSDNS_STORAGE_DSN"

abbrev pub value : Setting → Config → Bytes
value Setting.tsdns_listen c = c.tsdns_listen
value Setting.cache_refresh_interval c = c.cache_refresh_interval
value Setting.api_listen c = c.api_listen
value Setting.api_socket c = c.api_socket
value Setting.api_url c = c.api_url
value Setting.api_token c = c.api_token
value Setting.log_level c = c.log_level
value Setting.log_format c = c.log_format
value Setting.storage_dsn c = c.storage_dsn

-- The value of the variable, unless it is empty; else that of the file, or the default.
abbrev pub effective : Env → Config → Setting → Bytes
effective env c k = if equal (env (variable k)) [] then value k c else env (variable k)

-- No setting that is needed is white space.
abbrev pub IsFull : Config → Type 0
IsFull c =
    (trim_space c.tsdns_listen ≢ [])
    × (trim_space c.cache_refresh_interval ≢ [])
    × (trim_space c.storage_dsn ≢ [])
    × ((trim_space c.api_listen ≢ []) ⊎ (trim_space c.api_socket ≢ []))

or_field_lem : (v field : Bytes) → or_field v field ≡ (if equal v [] then field else v)
unfolding equal
or_field_lem [] field = refl
or_field_lem (c ∷ v) field = refl

apply_env-effective :
    (env : Env) (c : Config) (k : Setting) → value k (apply_env env c) ≡ effective env c k
unfolding apply_env
apply_env-effective env c Setting.tsdns_listen = or_field_lem _ _
apply_env-effective env c Setting.cache_refresh_interval = or_field_lem _ _
apply_env-effective env c Setting.api_listen = or_field_lem _ _
apply_env-effective env c Setting.api_socket = or_field_lem _ _
apply_env-effective env c Setting.api_url = or_field_lem _ _
apply_env-effective env c Setting.api_token = or_field_lem _ _
apply_env-effective env c Setting.log_level = or_field_lem _ _
apply_env-effective env c Setting.log_format = or_field_lem _ _
apply_env-effective env c Setting.storage_dsn = or_field_lem _ _

-- Two configurations with the same settings are the same.
same_settings : (a b : Config) → ((k : Setting) → value k a ≡ value k b) → a ≡ b
same_settings a b h = cc (
  h Setting.tsdns_listen,
  h Setting.cache_refresh_interval,
  h Setting.api_listen,
  h Setting.api_socket,
  h Setting.api_url,
  h Setting.api_token,
  h Setting.log_level,
  h Setting.log_format,
  h Setting.storage_dsn,
)

blank_iff : (s : Bytes) → (is_blank s ≡ false) ↔ (trim_space s ≢ [])
blank_iff s = (
  λ h e. cc (h, (equal_iff (trim_space s) []).1 e),
  λ n. elim (Bool-cases (is_blank s)) [
    | inl blank ↦ absurd (n ((equal_iff (trim_space s) []).0 blank))
    | inr text ↦ text
  ],
)

either_iff :
    (s t : Bytes)
    → ((is_blank s && is_blank t) ≡ false) ↔ ((trim_space s ≢ []) ⊎ (trim_space t ≢ []))
either_iff s t = (
  λ h. elim (Bool-cases (is_blank s)) [
    | inl blank ↦ inr ((blank_iff t).0 (ground (arith, h, blank)))
    | inr text ↦ inl ((blank_iff s).0 text)
  ],
  λ o. elim o [
    | inl n ↦ ground (arith, (blank_iff s).1 n)
    | inr n ↦ ground (arith, (blank_iff t).1 n)
  ],
)

IsComplete-IsFull : (c : Config) → IsComplete c ↔ IsFull c
IsComplete-IsFull c = (
  λ h. ((blank_iff _).0 h.0, (blank_iff _).0 h.1, (blank_iff _).0 h.2, (either_iff _ _).0 h.3),
  λ h. ((blank_iff _).1 h.0, (blank_iff _).1 h.1, (blank_iff _).1 h.2, (either_iff _ _).1 h.3),
)

-- `Load` returns a configuration exactly if the file can be read, or none is named, each setting is the
-- value of its variable, or, if that is empty, the one of the file or the default, and the address,
-- the interval, the DSN, and one of the API's address and socket are not white space.
pub load-effective :
    (read : Bytes → Config → Result Config) (env : Env) (path : Bytes) (out : Config)
    → (load read env path ≡ ok out) ↔ (
        (c : Config) × (from_file read path ≡ ok c)
        × ((k : Setting) → value k out ≡ effective env c k)
        × IsFull out)
load-effective read env path out = (there, back)
  where
    there :
        load read env path ≡ ok out
        → (c : Config) × (from_file read path ≡ ok c)
          × ((k : Setting) → value k out ≡ effective env c k)
          × IsFull out
    there h =
        let (c, file, applied, complete) = load-IsComplete read env path out h in
        (
          c,
          file,
          λ k. ap (value k) applied ∙ apply_env-effective env c k,
          (IsComplete-IsFull out).0 complete,
        )

    back :
        ((c : Config) × (from_file read path ≡ ok c)
          × ((k : Setting) → value k out ≡ effective env c k)
          × IsFull out)
        → load read env path ≡ ok out
    back (c, file, settings, full) =
        let same : out ≡ apply_env env c =
          same_settings out (apply_env env c)
            (λ k. settings k ∙ sym (apply_env-effective env c k)) in
        load_complete read env path c file (subst IsComplete same ((IsComplete-IsFull out).1 full))
        ∙ ap ok (sym same)
