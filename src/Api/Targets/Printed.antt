-- ===== src/Api/Targets/Printed.antt =====
-- Targets that were printed are read back.
use tsdns.Prelude.{
  ℕ, ℤ, false, ◌≡◌, ◌≢◌, refl, sym, ap, ◌∙◌, none, some, List, [], ◌∷◌, ◌++◌, append_assoc, Bytes,
  All, map, arith,
}
use tsdns.Text.Bytes.{codes}
use tsdns.Text.Decimal.{itoa}
use tsdns.Text.Decimal.RoundTrip.{IsDigit, itoa_digits, itoa-ne-nil}
use tsdns.Net.Addr.{AddrPort, v4, IsV4}
use tsdns.Net.V4.{show_v4}
use tsdns.Net.AddrPort.{parse_addr_port, show_addr_port}
use tsdns.Net.AddrPort.Laws.{parse_addr_port-show_addr_port}
use tsdns.Api.Targets.{drop_letter, equal_fold, parse_target, parsed, put_target, parse_targets}

drop_letter_digit : (c : ℕ) (s : Bytes) → IsDigit c → drop_letter b'N' (c ∷ s) ≡ none
unfolding drop_letter
drop_letter_digit c [] h = ground arith
drop_letter_digit c (d ∷ s) h = ground arith

-- A text that starts with a digit is not the word NORESPONSE.
digit_no_word : (c : ℕ) (s : Bytes) → IsDigit c → equal_fold (codes "NORESPONSE") (c ∷ s) ≡ false
unfolding equal_fold
digit_no_word c s h = ground (arith, drop_letter_digit c s h)

pub digits_no_word :
    (ds r : Bytes) → ds ≢ [] → All IsDigit ds → equal_fold (codes "NORESPONSE") (ds ++ r) ≡ false
digits_no_word [] r n h = absurd (n refl)
digits_no_word (c ∷ ds) r n h = digit_no_word c (ds ++ r) h.0

v4_no_word :
    (a b c d p : ℕ)
    → equal_fold (codes "NORESPONSE") (show_addr_port (record { addr = v4 a b c d; port = p }))
      ≡ false
unfolding show_addr_port show_v4
v4_no_word a b c d p =
    ap (equal_fold (codes "NORESPONSE")) (append_assoc (itoa a) _ (b':' ∷ itoa p))
    ∙ digits_no_word (itoa a) _ (itoa-ne-nil a) (itoa_digits a)

-- The targets are IPv4 targets.
abbrev pub AllV4 : List AddrPort → Type 0
AllV4 = All (λ t. (a : ℕ) × (b : ℕ) × (c : ℕ) × (d : ℕ) × IsV4 t a b c d)

parse_target_printed :
    (q : ℤ) (t : AddrPort) (a b c d : ℕ)
    → IsV4 t a b c d
    → parse_target q (show_addr_port t) ≡ some t
unfolding parse_target
parse_target_printed q t a b c d v =
    let same : t ≡ record { addr = v4 a b c d; port = t.port } =
      ap (λ x. record { addr = x; port = t.port }) v.0 in
    let read : parse_addr_port (show_addr_port t) ≡ some t =
      ap (λ x. parse_addr_port (show_addr_port x)) same
      ∙ parse_addr_port-show_addr_port a b c d v.1 v.2 v.3 v.4 t.port v.5
      ∙ ap some (sym same) in
    ground (arith, read)

no_word_printed :
    (t : AddrPort) (a b c d : ℕ)
    → IsV4 t a b c d
    → equal_fold (codes "NORESPONSE") (show_addr_port t) ≡ false
no_word_printed t a b c d v =
    ap (λ x. equal_fold (codes "NORESPONSE") (show_addr_port (record { addr = x; port = t.port })))
      v.0
    ∙ v4_no_word a b c d t.port

-- The texts that IPv4 targets are listed as are read as these targets by an upsert request, whatever
-- its port.
pub parse_targets-show_addr_port :
    (q : ℤ) (ts : List AddrPort) → AllV4 ts → parse_targets q (map show_addr_port ts) ≡ parsed ts
unfolding parse_targets put_target
parse_targets-show_addr_port q [] h = refl
parse_targets-show_addr_port q (t ∷ ts) h =
    let (a, b, c, d, v) = h.0 in
    rw (
      no_word_printed t a b c d v,
      parse_target_printed q t a b c d v,
      parse_targets-show_addr_port q ts h.1,
    )
