-- ===== src/Storage/Ports.antt =====
-- Hosts with the default port behind them.
use tsdns.Prelude.{
  ℕ, ◌≡◌, ap, ◌∙◌, Bool, true, false, ◌||◌, inl, inr, Bool-cases, [], ◌∷◌, ◌++◌, Bytes,
  if◌then◌else◌, arith,
}
use tsdns.Text.Bytes.{contains}
use tsdns.Text.Bytes.Laws.{last_index-none}
use tsdns.Storage.Hosts.{splits_host_port, ensure_port}

pub contains_append_left : (s t : Bytes) (b : ℕ) → contains s b ≡ true → contains (s ++ t) b ≡ true
unfolding contains
contains_append_left [] t b h = absurd (cc h)
contains_append_left (c ∷ s) t b h = ground (arith, contains_append_left s t b)

pub contains_append_right : (s t : Bytes) (b : ℕ) → contains t b ≡ true → contains (s ++ t) b ≡ true
unfolding contains
contains_append_right [] t b h = h
contains_append_right (c ∷ s) t b h = ground (arith, contains_append_right s t b h)

-- `SplitHostPort` fails without a colon.
splits-false : (s : Bytes) → contains s b':' ≡ false → splits_host_port s ≡ false
unfolding splits_host_port
splits-false s h = rw (splits_host_port, last_index-none s b':' h)

-- For every host, the default port is put behind it if it has no colon, and it is kept otherwise,
-- whatever `SplitHostPort` says of it; the result has a colon.
pub ensure_port_lem :
    (port host : Bytes)
    → (ensure_port port host ≡ (if contains host b':' then host else host ++ b':' ∷ port))
      × (contains (ensure_port port host) b':' ≡ true)
unfolding ensure_port
ensure_port_lem port host = elim (Bool-cases (contains host b':')) [
  | inl h ↦ (
    kept (splits_host_port host) (contains host b':') h ∙ rw h,
    ap (λ s. contains s b':') (kept (splits_host_port host) (contains host b':') h) ∙ h,
  )
  | inr h ↦
      let put : ensure_port port host ≡ (if contains host b':' then host else host ++ b':' ∷ port) =
        rw (splits-false host h, h) in
      (
        put,
        ap (λ s. contains s b':') (put ∙ rw h)
            ∙ contains_append_right host (b':' ∷ port) b':' (unfold contains in ground arith),
      )
]
  where
    kept :
        (splits has : Bool)
        → has ≡ true
        → (if splits || has then host else host ++ b':' ∷ port) ≡ host
    kept splits has h = ground arith
