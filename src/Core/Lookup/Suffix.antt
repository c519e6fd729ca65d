-- ===== src/Core/Lookup/Suffix.antt =====
-- A wildcard `*s` matches the hosts that end in `s`.
use tsdns.Prelude.{
  true, ◌||◌, ◌≡◌, ◌↔◌, refl, sym, ap, ◌∙◌, [], ◌∷◌, ◌++◌, reverse, reverse-append, reverse-reverse,
  append-nil, Bytes,
}
use tsdns.Text.Bytes.{codes, equal, has_prefix, has_suffix, trim_prefix, cut_prefix}
use tsdns.Text.Bytes.Laws.{has_prefix_iff}
use tsdns.Core.Record.{Record}
use tsdns.Core.Lookup.{wildcard_matches}

-- The two sides of `strings.HasSuffix`.
pub has_suffix_iff : (s p : Bytes) → (has_suffix s p ≡ true) ↔ ((u : Bytes) × (s ≡ u ++ p))
unfolding has_suffix
has_suffix_iff s p = (there, back)
  where
    there : has_prefix (reverse s) (reverse p) ≡ true → (u : Bytes) × (s ≡ u ++ p)
    there h =
        let (u, e) = (has_prefix_iff (reverse s) (reverse p)).0 h in
        (
          reverse u,
          sym (reverse-reverse s)
              ∙ ap reverse e
              ∙ reverse-append (reverse p) u
              ∙ ap (◌++◌ (reverse u)) (reverse-reverse p),
        )

    back : ((u : Bytes) × (s ≡ u ++ p)) → has_prefix (reverse s) (reverse p) ≡ true
    back (u, e) =
        (has_prefix_iff (reverse s) (reverse p)).1 (reverse u, ap reverse e ∙ reverse-append u p)

trim_star : (s : Bytes) → trim_prefix (b'*' ∷ s) (codes "*") ≡ s
unfolding trim_prefix cut_prefix
trim_star s = refl

suffix_or_nil : (host s : Bytes) → (equal s [] || has_suffix host s) ≡ has_suffix host s
suffix_or_nil host [] =
    unfold equal in sym ((has_suffix_iff host []).1 (host, sym (append-nil host)))
suffix_or_nil host (c ∷ s) = unfold equal in refl

pub wildcard_matches_lem :
    (host s : Bytes) (rec : Record)
    → rec.domain ≡ b'*' ∷ s
    → wildcard_matches host rec ≡ has_suffix host s
unfolding wildcard_matches has_prefix
wildcard_matches_lem host s rec e = rw (e, trim_star, suffix_or_nil)

-- The wildcard `*s` matches exactly the hosts that end in `s`; the wildcard `*` matches all.
pub wildcard_matches_iff :
    (host s : Bytes) (rec : Record)
    → rec.domain ≡ b'*' ∷ s
    → (wildcard_matches host rec ≡ true) ↔ ((u : Bytes) × (host ≡ u ++ s))
wildcard_matches_iff host s rec e = rw (wildcard_matches_lem host s rec e) (has_suffix_iff host s)
