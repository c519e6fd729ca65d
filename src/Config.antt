-- ===== src/Config.antt =====
-- internal/config/config.go: defaults, file, environment and validation.
pub mod Sources
pub mod Effective
use tsdns.Prelude.{
  ℕ, Bool, true, false, ◌&&◌, Option, none, some, List, [], ◌∷◌, Bytes, if◌then◌else◌, Result, ok,
  err, Error, other,
}
use tsdns.Text.Bytes.{codes, equal}
use tsdns.Text.Space.{trim_space}

-- The fields of `Config`, by the path of their YAML keys.
pub record Config : Type 0 where
  pub tsdns_listen : Bytes
  pub cache_refresh_interval : Bytes
  pub api_listen : Bytes
  pub api_socket : Bytes
  pub api_url : Bytes
  pub api_token : Bytes
  pub log_level : Bytes
  pub log_format : Bytes
  pub storage_dsn : Bytes

abbrev pub default_config : Config
default_config = record {
  tsdns_listen = codes "0.0.0.0:41144";
  cache_refresh_interval = codes "30s";
  api_listen = codes "127.0.0.1:8080";
  api_socket = [];
  api_url = codes "http://127.0.0.1:8080";
  api_token = [];
  log_level = codes "info";
  log_format = codes "text";
  storage_dsn = codes "sqlite:./data/tsdns.sqlite";
}

-- The value of an environment variable, empty if it is not set.
abbrev pub Env : Type 0
Env = Bytes → Bytes

-- One of the tests of `ApplyEnv`.
abbrev pub or_field : Bytes → Bytes → Bytes
or_field [] field = field
or_field (c ∷ v) field = c ∷ v

unfoldable pub apply_env : Env → Config → Config
apply_env env c = record {
  tsdns_listen = or_field (env (codes "TSDNS_LISTEN")) c.tsdns_listen;
  cache_refresh_interval =
      or_field (env (codes "TSDNS_CACHE_REFRESH_INTERVAL")) c.cache_refresh_interval;
  api_listen = or_field (env (codes "TSDNS_API_LISTEN")) c.api_listen;
  api_socket = or_field (env (codes "TSDNS_API_SOCKET")) c.api_socket;
  api_url = or_field (env (codes "TSDNS_API_URL")) c.api_url;
  api_token = or_field (env (codes "TSDNS_API_TOKEN")) c.api_token;
  log_level = or_field (env (codes "TSDNS_LOG_LEVEL")) c.log_level;
  log_format = or_field (env (codes "TSDNS_LOG_FORMAT")) c.log_format;
  storage_dsn = or_field (env (codes "TSDNS_STORAGE_DSN")) c.storage_dsn;
}

abbrev pub listen_required : Error
listen_required = other (codes "config: tsdns.listen is required")

abbrev pub cache_required : Error
cache_required = other (codes "config: tsdns.cache_refresh_interval is required")

abbrev pub storage_required : Error
storage_required = other (codes "config: storage.dsn is required")

abbrev pub api_method_required : Error
api_method_required =
    other (codes "config: at least one API listen method (api.listen or api.socket) is required")

abbrev pub is_blank : Bytes → Bool
is_blank s = equal (trim_space s) []

-- The error of the first test that fails.
unfoldable pub validate : Config → Option Error
validate c =
    if is_blank c.tsdns_listen
    then some listen_required
    else if is_blank c.cache_refresh_interval
    then some cache_required
    else if is_blank c.storage_dsn
    then some storage_required
    else if is_blank c.api_listen && is_blank c.api_socket
    then some api_method_required
    else none

-- `Load` behind the call of `Validate`.
unfoldable pub load_validated : Option Error → Config → Result Config
load_validated (some e) c = err e
load_validated none c = ok c

-- The reading of the file and its YAML are parameters: `read path c` is what the file makes of `c`,
-- or the error of either.
module _ (read : Bytes → Config → Result Config) (env : Env) where
  unfoldable pub load_env : Result Config → Result Config
  unfolding apply_env validate load_validated
  load_env (err e) = err e
  load_env (ok c) = load_validated (validate (apply_env env c)) (apply_env env c)

  unfoldable pub load : Bytes → Result Config
  unfolding load_env
  load [] = load_env (ok default_config)
  load (c ∷ path) = load_env (read (c ∷ path) default_config)
