-- ===== src/Cli/Import/Fields.antt =====
-- `strings.Fields` gives back the texts that were joined by blanks.
use tsdns.Prelude.{
  ℕ, zero, ◌≡◌, ◌≢◌, refl, sym, ap, ◌∙◌, List, [], ◌∷◌, ◌++◌, append_assoc, append-nil, Bytes, All,
  arith,
}
use tsdns.Text.Space.{space_width}
use tsdns.Text.Space.Graphic.{IsGraphic}
use tsdns.Core.Response.Laws.{joined}
use tsdns.Cli.Import.{fields_from, fields}

-- A visible ASCII text that is not empty.
abbrev pub IsWord : Bytes → Type 0
IsWord w = (w ≢ []) × All IsGraphic w

space_width_head : (c : ℕ) (s : Bytes) → IsGraphic c → space_width (c ∷ s) ≡ 0
unfolding space_width
space_width_head c [] h = ground arith
space_width_head c (b ∷ []) h = ground arith
space_width_head c (b ∷ a ∷ s) h = ground arith

space_width_blank : (s : Bytes) → space_width (b' ' ∷ s) ≡ 1
unfolding space_width
space_width_blank [] = refl
space_width_blank (b ∷ []) = refl
space_width_blank (b ∷ a ∷ s) = refl

fields_from-append :
    (w cur s : Bytes)
    → All IsGraphic w
    → fields_from zero cur (w ++ s) ≡ fields_from zero (cur ++ w) s
unfolding fields_from
fields_from-append [] cur s h = ap (λ x. fields_from zero x s) (sym (append-nil cur))
fields_from-append (c ∷ w) cur s h =
    rw (space_width_head c (w ++ s) h.0, fields_from)
      (fields_from-append w (cur ++ c ∷ []) s h.1
        ∙ ap (λ x. fields_from zero x s) (append_assoc cur (c ∷ []) w))

fields_from_end : (cur : Bytes) → cur ≢ [] → fields_from zero cur [] ≡ cur ∷ []
unfolding fields_from
fields_from_end [] n = absurd (n refl)
fields_from_end (c ∷ cur) n = refl

fields_from_blank :
    (cur s : Bytes) → cur ≢ [] → fields_from zero cur (b' ' ∷ s) ≡ cur ∷ fields_from zero [] s
unfolding fields_from
fields_from_blank [] s n = absurd (n refl)
fields_from_blank (c ∷ cur) s n = rw (space_width_blank s, fields_from) refl

pub fields-joined : (ws : List Bytes) → All IsWord ws → fields (joined ws) ≡ ws
unfolding fields fields_from
fields-joined [] h = refl
fields-joined (w ∷ []) h =
    ap (fields_from zero []) (sym (append-nil w))
    ∙ fields_from-append w [] [] h.0.1
    ∙ fields_from_end w h.0.0
fields-joined (w ∷ v ∷ ws) h =
    fields_from-append w [] _ h.0.1
    ∙ fields_from_blank w _ h.0.0
    ∙ ap (◌∷◌ w) (fields-joined (v ∷ ws) h.1)
