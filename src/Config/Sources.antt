-- ===== src/Config/Sources.antt =====
-- Where the values of a loaded configuration come from.
use tsdns.Prelude.{
  false, ◌&&◌, ◌≡◌, refl, sym, ap, ◌∙◌, Option, none, some, [], ◌∷◌, Bytes, Result, ok, err, Error,
  arith,
}
use mathlib.Core.Path.{subst}
use tsdns.Config.{
  Config, default_config, Env, apply_env, is_blank, validate, load_validated, load_env, load,
}

-- What a configuration has that passes the validation.
abbrev pub IsComplete : Config → Type 0
IsComplete c =
    (is_blank c.tsdns_listen ≡ false)
    × (is_blank c.cache_refresh_interval ≡ false)
    × (is_blank c.storage_dsn ≡ false)
    × ((is_blank c.api_listen && is_blank c.api_socket) ≡ false)

validate-IsComplete : (c : Config) → validate c ≡ none → IsComplete c
unfolding validate
validate-IsComplete c h = ground arith

IsComplete-validate : (c : Config) → IsComplete c → validate c ≡ none
unfolding validate
IsComplete-validate c h = rw (h.0, h.1, h.2, h.3)

-- What the file, if there is one, makes of the defaults.
abbrev pub from_file : (Bytes → Config → Result Config) → Bytes → Result Config
from_file read [] = ok default_config
from_file read (c ∷ path) = read (c ∷ path) default_config

load_validated_ok :
    (o : Option Error) (c out : Config) → load_validated o c ≡ ok out → (o ≡ none) × (c ≡ out)
unfolding load_validated
load_validated_ok (some e) c out h = absurd (cc h)
load_validated_ok none c out h = (refl, cc h)

load_env_ok :
    (read : Bytes → Config → Result Config) (env : Env) (x : Result Config) (out : Config)
    → load_env read env x ≡ ok out
    → (c : Config) × (x ≡ ok c) × (out ≡ apply_env env c) × IsComplete out
unfolding load_env
load_env_ok read env (err e) out h = absurd (cc h)
load_env_ok read env (ok c) out h =
    let (valid, same) = load_validated_ok (validate (apply_env env c)) (apply_env env c) out h in
    (c, refl, sym same, subst IsComplete same (validate-IsComplete (apply_env env c) valid))

-- A configuration that is loaded is complete, and is what the environment makes of the file's values,
-- or of the defaults where no file is named: a variable that is not empty wins.
pub load-IsComplete :
    (read : Bytes → Config → Result Config) (env : Env) (path : Bytes) (out : Config)
    → load read env path ≡ ok out
    → (c : Config) × (from_file read path ≡ ok c) × (out ≡ apply_env env c) × IsComplete out
unfolding load
load-IsComplete read env [] out h = load_env_ok read env (ok default_config) out h
load-IsComplete read env (p ∷ path) out h =
    load_env_ok read env (read (p ∷ path) default_config) out h

-- Loading succeeds whenever the file can be read and the result with the environment is complete.
pub load_complete :
    (read : Bytes → Config → Result Config) (env : Env) (path : Bytes) (c : Config)
    → from_file read path ≡ ok c
    → IsComplete (apply_env env c)
    → load read env path ≡ ok (apply_env env c)
unfolding load load_env load_validated
load_complete read env path c h full =
    let valid = IsComplete-validate (apply_env env c) full in
    let loaded : load_env read env (ok c) ≡ ok (apply_env env c) =
      ap (λ o. load_validated o (apply_env env c)) valid in
    go path h ∙ loaded
  where
    go : (p : Bytes) → from_file read p ≡ ok c → load read env p ≡ load_env read env (ok c)
    go [] e = ap (load_env read env) e
    go (x ∷ p) e = ap (load_env read env) e
