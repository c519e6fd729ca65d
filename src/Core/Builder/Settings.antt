-- ===== src/Core/Builder/Settings.antt =====
-- What a server is built to, by the address and by all settings that were made.
use tsdns.Prelude.{
  ℤ, ◌||◌, ◌≡◌, refl, ap, ◌∙◌, Option, none, some, List, [], ◌∷◌, Bytes, if◌then◌else◌, Result, ok,
  err, Error, invalid_ip, repository_required, Bool-cases, inl, inr, arith,
}
use tsdns.Text.Bytes.{codes, equal}
use tsdns.Core.Server.{Server}
use tsdns.Core.Builder.{
  ServerBuilder, is_ip, join_host_port, default_port, default_interval, new_server_addr, new_server,
  with_repository, with_cache_refresh_interval, built, build_server, build_checked, build,
}

-- A call of one of the With functions.
pub data Setting (R : Type 0) : Type 0 where
  repository : R → Setting R
  cache_refresh_interval : ℤ → Setting R

module _ {R : Type 0} where
  abbrev pub apply : Setting R → ServerBuilder R → ServerBuilder R
  apply (Setting.repository r) b = with_repository r b
  apply (Setting.cache_refresh_interval i) b = with_cache_refresh_interval i b

  abbrev pub apply_all : List (Setting R) → ServerBuilder R → ServerBuilder R
  apply_all [] b = b
  apply_all (s ∷ ss) b = apply_all ss (apply s b)

  -- The last of each setting, or what was set before.
  abbrev pub last_repository : List (Setting R) → Option R → Option R
  last_repository [] o = o
  last_repository (Setting.repository r ∷ ss) o = last_repository ss (some r)
  last_repository (Setting.cache_refresh_interval i ∷ ss) o = last_repository ss o

  abbrev pub last_interval : List (Setting R) → ℤ → ℤ
  last_interval [] i = i
  last_interval (Setting.repository r ∷ ss) i = last_interval ss i
  last_interval (Setting.cache_refresh_interval j ∷ ss) i = last_interval ss j

  -- The server for an address, if there is a repository.
  abbrev pub server_for : Bytes → ℤ → Option R → Result (Server R)
  server_for addr i none = err repository_required
  server_for addr i (some r) =
      ok (built r (record { repository = some r; addr = addr; cache_refresh_interval = i }))

  apply_all-error :
      (ss : List (Setting R)) (b : ServerBuilder R) (e : Error)
      → b.error ≡ some e
      → build (apply_all ss b) ≡ err e
  unfolding build build_checked with_repository with_cache_refresh_interval
  apply_all-error [] b e h = ap (λ o. build_checked o b.server) h
  apply_all-error (s ∷ ss) b e h = apply_all-error ss (apply s b) e (kept s)
    where
      kept : (x : Setting R) → (apply x b).error ≡ some e
      kept (Setting.repository r) = ground (arith, h)
      kept (Setting.cache_refresh_interval i) = ground (arith, h)

  apply_all-draft :
      (ss : List (Setting R)) (addr : Bytes) (i : ℤ) (o : Option R)
      → build (
          apply_all ss (record {
            server = some (record { repository = o; addr = addr; cache_refresh_interval = i });
            error = none;
          }))
        ≡ server_for addr (last_interval ss i) (last_repository ss o)
  unfolding build build_checked build_server with_repository with_cache_refresh_interval
  apply_all-draft [] addr i none = refl
  apply_all-draft [] addr i (some r) = refl
  apply_all-draft (Setting.repository r ∷ ss) addr i o = apply_all-draft ss addr i (some r)
  apply_all-draft (Setting.cache_refresh_interval j ∷ ss) addr i o = apply_all-draft ss addr j o

  -- What is built for an address, by the error of its resolution.
  abbrev pub server_at : List (Setting R) → Bytes → Option Error → Result (Server R)
  server_at ss addr (some e) = err e
  server_at ss addr none =
      server_for addr (last_interval ss default_interval) (last_repository ss none)

  pub resolved :
      (resolve : Bytes → Option Error) (ss : List (Setting R)) (addr : Bytes) (o : Option Error)
      → resolve addr ≡ o
      → build (apply_all ss (new_server_addr resolve addr)) ≡ server_at ss addr o
  unfolding new_server_addr
  resolved resolve ss addr (some e) h = apply_all-error ss (new_server_addr resolve addr) e h
  resolved resolve ss addr none h =
      ap
        (λ o. build (
          apply_all ss (record {
            server = some (record {
              repository = none;
              addr = addr;
              cache_refresh_interval = default_interval;
            });
            error = o;
          })))
        h
      ∙ apply_all-draft ss addr default_interval none

  -- Whatever settings are made in whatever order, `Build` fails for a text that is no IP address, and
  -- with the first error if its address with the port 41144 cannot be resolved, and without a
  -- repository; else it returns a server with that address, the last repository and the last
  -- interval, 30 seconds if none was set, and empty tables.
  pub build-new_server :
      (resolve : Bytes → Option Error) (ip : Bytes) (ss : List (Setting R))
      → build (apply_all ss (new_server resolve ip)) ≡ (
          if equal ip (codes "0.0.0.0") || is_ip ip
          then server_at ss
              (join_host_port ip default_port)
              (resolve (join_host_port ip default_port))
          else err invalid_ip)
  unfolding new_server
  build-new_server resolve ip ss = elim (Bool-cases (equal ip (codes "0.0.0.0"))) [
    | inl any ↦ rw any (resolved resolve ss _ _ refl)
    | inr other ↦ elim (Bool-cases (is_ip ip)) [
      | inl valid ↦ rw (other, valid) (resolved resolve ss _ _ refl)
      | inr wrong ↦ rw (other, wrong) (apply_all-error ss _ invalid_ip refl)
    ]
  ]
