-- ===== src/Cli/Serve/Started.antt =====
-- What `serve` sets up, and what the server serves when it has started.
use tsdns.Prelude.{
  ℤ, ◌≡◌, refl, ap, sym, ◌∙◌, true, Option, none, some, List, [], ◌∷◌, Bytes, Result, ok, err,
  Error,
}
use mathlib.Core.Path.{subst}
use tsdns.Core.Regexp.{Regexp}
use tsdns.Core.Server.{Server}
use tsdns.Core.Server.Contract.{Contract}
use tsdns.Core.Server.Refresh.{cached, load_cache-cached}
use tsdns.Core.Running.{start_listening}
use tsdns.Core.Builder.{built}
use tsdns.Core.Builder.Settings.{Setting, server_at, resolved}
use tsdns.Config.{Config}
use tsdns.Cli.Records.{Direct}
use tsdns.Cli.Serve.{SetUp, must_build, set_up_server, set_up_opened, set_up}

module _ {R : Type 0} (direct : Direct R) (parse_duration : Bytes → Result ℤ)
    (resolve : Bytes → Option Error) where
  open direct use {repo, open_repo}

  -- The server of a configuration, on an opened storage.
  abbrev pub configured : Config → R → ℤ → Server R
  configured cfg r interval =
      built r
        (record { repository = some r; addr = cfg.tsdns_listen; cache_refresh_interval = interval })

  -- What is set up, by the three calls that may fail.
  abbrev pub outcome : Config → Result R → Result ℤ → Option Error → SetUp R
  outcome cfg (err e) interval address = SetUp.failed e
  outcome cfg (ok r) (err e) address = SetUp.failed e
  outcome cfg (ok r) (ok i) (some e) = SetUp.panicked e
  outcome cfg (ok r) (ok i) none = SetUp.ready (configured cfg r i)

  abbrev settings : R → ℤ → List (Setting R)
  settings r i = Setting.repository r ∷ Setting.cache_refresh_interval i ∷ []

  built_at :
      (cfg : Config) (r : R) (i : ℤ) (o : Option Error)
      → resolve cfg.tsdns_listen ≡ o
      → set_up_server direct parse_duration resolve cfg r (ok i) ≡ outcome cfg (ok r) (ok i) o
  unfolding set_up_server must_build
  built_at cfg r i o h =
      ap must_build (resolved resolve (settings r i) cfg.tsdns_listen o h) ∙ made o
    where
      made :
          (e : Option Error)
          → must_build (server_at (settings r i) cfg.tsdns_listen e) ≡ outcome cfg (ok r) (ok i) e
      made (some e) = refl
      made none = refl

  set_up-outcome :
      (cfg : Config)
      → set_up direct parse_duration resolve (ok cfg)
        ≡ outcome cfg
            (open_repo cfg.storage_dsn)
            (parse_duration cfg.cache_refresh_interval)
            (resolve cfg.tsdns_listen)
  unfolding set_up set_up_opened set_up_server
  set_up-outcome cfg = opened (open_repo cfg.storage_dsn)
    where
      opened :
          (x : Result R)
          → set_up_opened direct parse_duration resolve cfg x
            ≡ outcome cfg x (parse_duration cfg.cache_refresh_interval) (resolve cfg.tsdns_listen)
      opened (err e) = refl
      opened (ok r) = timed (parse_duration cfg.cache_refresh_interval)
        where
          timed :
              (i : Result ℤ)
              → set_up_server direct parse_duration resolve cfg r i
                ≡ outcome cfg (ok r) i (resolve cfg.tsdns_listen)
          timed (err e) = refl
          timed (ok i) = built_at cfg r i _ refl

  outcome-ready :
      (cfg : Config) (x : Result R) (y : Result ℤ) (o : Option Error) (s : Server R)
      → outcome cfg x y o ≡ SetUp.ready s
      → (r : R) × (i : ℤ) × (x ≡ ok r) × (y ≡ ok i) × (o ≡ none) × (configured cfg r i ≡ s)
  outcome-ready cfg (err e) y o s h = absurd (cc h)
  outcome-ready cfg (ok r) (err e) o s h = absurd (cc h)
  outcome-ready cfg (ok r) (ok i) (some e) s h = absurd (cc h)
  outcome-ready cfg (ok r) (ok i) none s h = (r, i, refl, refl, refl, cc h)

  -- What a server has that `serve` started for a configuration: its storage is the one that the DSN
  -- opens, and its address and its interval are those of the configuration; and its tables hold for
  -- each domain what the storage does.
  abbrev pub IsStarted : Contract repo → Config → Server R → Server R → Type 0
  IsStarted laws cfg s t =
      (r : R) × (open_repo cfg.storage_dsn ≡ ok r)
      × (resolve cfg.tsdns_listen ≡ none)
      × (s.repository ≡ r)
      × (s.addr ≡ cfg.tsdns_listen)
      × (parse_duration cfg.cache_refresh_interval ≡ ok s.cache_refresh_interval)
      × ((d : Bytes) → cached t d ≡ laws.view r d)

  -- If `serve` sets a server up for a configuration, on a storage that meets its contract and whose
  -- opening gives valid states, and the server starts, then it stands on the storage that the DSN
  -- opens, with the address and the interval of the configuration, and its cache holds for each
  -- domain what the storage does.
  pub set_up-IsStarted :
      (laws : Contract repo) (re : Regexp) (cfg : Config) (s : Server R)
      → ((dsn : Bytes) (r : R) → open_repo dsn ≡ ok r → laws.IsValid r)
      → set_up direct parse_duration resolve (ok cfg) ≡ SetUp.ready s
      → (start_listening repo re none s).0 ≡ ok tt
      → IsStarted laws cfg s (start_listening repo re none s).1
  unfolding start_listening
  set_up-IsStarted laws re cfg s valid h started =
      let (r, i, opened, timed, address, same) =
        outcome-ready cfg (open_repo cfg.storage_dsn) (parse_duration cfg.cache_refresh_interval)
          (resolve cfg.tsdns_listen) s (sym (set_up-outcome cfg) ∙ h) in
      let stands : s.repository ≡ r = sym (ap (λ t. t.repository) same) in
      (
        r,
        opened,
        address,
        stands,
        sym (ap (λ t. t.addr) same),
        timed ∙ ap (λ t. ok t.cache_refresh_interval) same,
        λ d.
            load_cache-cached repo re laws (record s { listening = true }) d
              (subst laws.IsValid (sym stands) (valid cfg.storage_dsn r opened)) started
            ∙ ap (λ q. laws.view q d) stands,
      )
