-- ===== src/Examples/Configs.antt =====
-- A configuration whose token comes from the environment.
use tsdns.Prelude.{◌≡◌, refl, [], Bytes, if◌then◌else◌, Result, ok}
use tsdns.Text.Bytes.{codes, equal}
use tsdns.Config.{Config, default_config, Env, apply_env, load}
use tsdns.Config.Sources.{from_file}
use tsdns.Config.Effective.{Setting, value, effective, IsFull, load-effective}
use tsdns.Prelude.{◌↔◌}

abbrev as_is : Bytes → Config → Result Config
as_is path c = ok c

abbrev env : Env
env name = if equal name (codes "TSDNS_API_TOKEN") then codes "secret" else []

load-effective_example :
    (load as_is env (codes "tsdns.yaml") ≡ ok (apply_env env default_config)) ↔ (
      (c : Config) × (from_file as_is (codes "tsdns.yaml") ≡ ok c)
      × ((k : Setting) → value k (apply_env env default_config) ≡ effective env c k)
      × IsFull (apply_env env default_config))
load-effective_example =
    load-effective as_is env (codes "tsdns.yaml") (apply_env env default_config)

-- The token is that of the variable, and the address is the default.
token_of_env :
    (effective env default_config Setting.api_token ≡ codes "secret")
    × (effective env default_config Setting.tsdns_listen ≡ codes "0.0.0.0:41144")
unfolding equal
token_of_env = (refl, refl)
