-- ===== src/Cli/Records/Escape.antt =====
-- `url.PathEscape`, with which internal/cli/records.go puts a domain into a path.
use tsdns.Prelude.{
  ℕ, zero, suc, ◌+◌, ◌-◌, ◌*◌, ◌/◌, ◌%◌, ◌<◌, ◌≡◌, refl, ap, ◌∙◌, Bool, true, false, ◌&&◌, ◌||◌,
  Option, none, some, [], ◌∷◌, Bytes, ◌==◌, leb, ltb, if◌then◌else◌, ◌>>=◌, All, arith,
}
use tsdns.Text.Bytes.{contains}

-- Letters, digits, and the signs that a segment may hold.
unfoldable pub is_segment_byte : ℕ → Bool
is_segment_byte c =
    (leb b'a' c && leb c b'z')
    || (leb b'A' c && leb c b'Z')
    || (leb b'0' c && leb c b'9')
    || c == b'-'
    || c == b'_'
    || c == b'.'
    || c == b'~'
    || c == b'$'
    || c == b'&'
    || c == b'+'
    || c == b':'
    || c == b'='
    || c == b'@'

abbrev hex_digit : ℕ → ℕ
hex_digit n = if ltb n 10 then b'0' + n else b'A' + (n - 10)

-- A byte of the segment, as it stands or as a `%` and two digits.
unfoldable pub escape_byte : Bool → ℕ → Bytes → Bytes
escape_byte true c rest = c ∷ rest
escape_byte false c rest = b'%' ∷ hex_digit (c / 16) ∷ hex_digit (c % 16) ∷ rest

unfoldable pub path_escape : Bytes → Bytes
unfolding is_segment_byte escape_byte
path_escape [] = []
path_escape (c ∷ s) = escape_byte (is_segment_byte c) c (path_escape s)

abbrev hex_value : ℕ → ℕ
hex_value c = if leb c b'9' then c - b'0' else if leb c b'F' then c - b'A' + 10 else c - b'a' + 10

abbrev is_hex : ℕ → Bool
is_hex c = (leb b'0' c && leb c b'9') || (leb b'A' c && leb c b'F') || (leb b'a' c && leb c b'f')

-- `url.PathUnescape`, with which the server reads the segment of a path, behind a `%`: `k` digits are
-- still to be read, and those before have the value `v`.
pub unescape_from : ℕ → ℕ → Bytes → Option Bytes
unescape_from zero v [] = some []
unescape_from (suc k) v [] = none
unescape_from zero v (c ∷ s) = elim (c == b'%') [
  | true ↦ unescape_from 2 0 s
  | false ↦ do rest ← unescape_from zero 0 s; some (c ∷ rest)
]
unescape_from (suc zero) v (c ∷ s) = elim (is_hex c) [
  | true ↦ do rest ← unescape_from zero 0 s; some ((v * 16 + hex_value c) ∷ rest)
  | false ↦ none
]
unescape_from (suc (suc k)) v (c ∷ s) = elim (is_hex c) [
  | true ↦ unescape_from (suc k) (hex_value c) s
  | false ↦ none
]

unfoldable pub path_unescape : Bytes → Option Bytes
unfolding unescape_from
path_unescape = unescape_from 0 0

segment_byte_ne : (c : ℕ) → is_segment_byte c ≡ true → ((c == b'%') ≡ false) × ((c == b'/') ≡ false)
unfolding is_segment_byte
segment_byte_ne c h = ground arith

hex_digit_lem : (n : ℕ) → n < 16 → (is_hex (hex_digit n) ≡ true) × (hex_value (hex_digit n) ≡ n)
hex_digit_lem n h = ground arith

prepended : ℕ → Option Bytes → Option Bytes
prepended c o = do rest ← o; some (c ∷ rest)

unescape_plain :
    (c : ℕ) (s : Bytes)
    → (c == b'%') ≡ false
    → unescape_from 0 0 (c ∷ s) ≡ prepended c (unescape_from 0 0 s)
unfolding unescape_from prepended
unescape_plain c s h =
    ap
      (λ (b : Bool). elim b [
        | true ↦ unescape_from 2 0 s
        | false ↦ prepended c (unescape_from 0 0 s)
      ])
      h

unescape_first :
    (c : ℕ) (s : Bytes)
    → is_hex c ≡ true
    → unescape_from 2 0 (c ∷ s) ≡ unescape_from 1 (hex_value c) s
unfolding unescape_from
unescape_first c s h =
    ap (λ (b : Bool). elim b [ true ↦ unescape_from 1 (hex_value c) s | false ↦ none ]) h

unescape_second :
    (v c : ℕ) (s : Bytes)
    → is_hex c ≡ true
    → unescape_from 1 v (c ∷ s) ≡ prepended (v * 16 + hex_value c) (unescape_from 0 0 s)
unfolding unescape_from prepended
unescape_second v c s h =
    ap
      (λ (b : Bool). elim b [
        | true ↦ prepended (v * 16 + hex_value c) (unescape_from 0 0 s)
        | false ↦ none
      ])
      h

unescape_escaped :
    (c : ℕ) (s : Bytes)
    → c < 256
    → unescape_from 2 0 (hex_digit (c / 16) ∷ hex_digit (c % 16) ∷ s)
      ≡ prepended c (unescape_from 0 0 s)
unescape_escaped c s h =
    let high = hex_digit_lem (c / 16) (omega arith) in
    let low = hex_digit_lem (c % 16) (omega arith) in
    unescape_first (hex_digit (c / 16)) (hex_digit (c % 16) ∷ s) high.0
    ∙ unescape_second (hex_value (hex_digit (c / 16))) (hex_digit (c % 16)) s low.0
    ∙ ap (λ n. prepended n (unescape_from 0 0 s)) (omega (arith, high.1, low.1))

escape_byte-no_slash :
    (plain : Bool) (c : ℕ) (rest : Bytes)
    → is_segment_byte c ≡ plain
    → c < 256
    → contains rest b'/' ≡ false
    → contains (escape_byte plain c rest) b'/' ≡ false
unfolding escape_byte contains
escape_byte-no_slash true c rest e h one = ground (arith, segment_byte_ne c e, one)
escape_byte-no_slash false c rest e h one = ground (arith, one)

unescape-escape_byte :
    (plain : Bool) (c : ℕ) (rest : Bytes)
    → is_segment_byte c ≡ plain
    → c < 256
    → unescape_from 0 0 (escape_byte plain c rest) ≡ prepended c (unescape_from 0 0 rest)
unfolding escape_byte unescape_from
unescape-escape_byte true c rest e h = unescape_plain c rest (segment_byte_ne c e).0
unescape-escape_byte false c rest e h = unescape_escaped c rest h

-- A domain, whatever its bytes are, is one segment of a path when it is escaped, and the server
-- reads it back from there.
pub path_unescape-path_escape :
    (domain : Bytes)
    → All (λ c. c < 256) domain
    → (contains (path_escape domain) b'/' ≡ false)
      × (path_unescape (path_escape domain) ≡ some domain)
unfolding path_escape path_unescape prepended
path_unescape-path_escape [] h = (unfold contains in refl, unfold unescape_from in refl)
path_unescape-path_escape (c ∷ s) h =
    let (one, back) = path_unescape-path_escape s h.1 in
    (
      escape_byte-no_slash (is_segment_byte c) c (path_escape s) refl h.0 one,
      unescape-escape_byte (is_segment_byte c) c (path_escape s) refl h.0 ∙ ap (prepended c) back,
    )
