-- ===== src/Net/V6.antt =====
-- The text of an IPv6 address, and `parseIPv6`.
use tsdns.Prelude.{
  ℕ, zero, suc, ◌+◌, ◌-◌, ◌*◌, ◌/◌, ◌%◌, Bool, true, false, ◌&&◌, ◌||◌, Option, none, some, List,
  [], ◌∷◌, ◌++◌, Bytes, ◌==◌, ltb, leb, if◌then◌else◌, length, take, drop, ◌>>=◌,
}
use tsdns.Text.Bytes.{codes, index}
use tsdns.Net.Addr.{Addr, v4, v6}
use tsdns.Net.V4.{show_v4, parse_v4}

abbrev hex_digit : ℕ → ℕ
hex_digit n = if ltb n 10 then b'0' + n else b'a' + (n - 10)

-- `appendHex`: a group of 16 bits without leading zeros.
hex : ℕ → Bytes
hex n =
    let d0 = hex_digit (n % 16) in
    let d1 = hex_digit (n / 16 % 16) in
    let d2 = hex_digit (n / 256 % 16) in
    let d3 = hex_digit (n / 4096 % 16) in
    if leb 4096 n
    then d3 ∷ d2 ∷ d1 ∷ d0 ∷ []
    else if leb 256 n
    then d2 ∷ d1 ∷ d0 ∷ []
    else if leb 16 n
    then d1 ∷ d0 ∷ []
    else d0 ∷ []

-- The number of zeros at the front.
zero_run : List ℕ → ℕ
zero_run [] = 0
zero_run (g ∷ gs) = let rest = zero_run gs in if g == 0 then suc rest else 0

-- The start and the length of the longest run of at least two zeros, the first of such; the
-- length is 0 if there is none. `i` is the position of the list in the address.
longest_run : ℕ → List ℕ → ℕ × ℕ → ℕ × ℕ
longest_run i [] best = best
longest_run i (g ∷ gs) (start, len) =
    let l = zero_run (g ∷ gs) in
    longest_run (i + 1) gs (if leb 2 l && ltb len l then (i, l) else (start, len))

-- Groups joined by colons.
colons : List ℕ → Bytes
colons [] = []
colons (g ∷ []) = hex g
colons (g ∷ h ∷ gs) = hex g ++ b':' ∷ colons (h ∷ gs)

-- `appendTo6`, without the zone.
show_groups : List ℕ → Bytes
unfolding hex zero_run longest_run colons
show_groups gs =
    let (start, len) = longest_run 0 gs (0, 0) in
    if len == 0
    then colons gs
    else colons (take start gs) ++ b':' ∷ b':' ∷ colons (drop (start + len) gs)

show_zone : Bytes → Bytes
show_zone [] = []
show_zone (c ∷ z) = b'%' ∷ c ∷ z

-- The last two groups of an address of the form ::ffff:a.b.c.d.
four_in_six : List ℕ → Option (ℕ × ℕ)
four_in_six (a ∷ b ∷ c ∷ d ∷ e ∷ f ∷ g ∷ h ∷ []) =
    if a == 0 && b == 0 && c == 0 && d == 0 && e == 0 && f == 0xFFFF then some (g, h) else none
four_in_six _ = none

show_pair : ℕ × ℕ → Bytes
show_pair (g, h) = codes "::ffff:" ++ show_v4 (g / 256) (g % 256) (h / 256) (h % 256)

-- `Addr.String`; an address of the form ::ffff:a.b.c.d shows its last part in decimal.
unfoldable pub show_v6 : List ℕ → Bytes → Bytes
unfolding show_groups show_zone four_in_six show_pair
show_v6 gs zone =
    elim (four_in_six gs) [ some p ↦ show_pair p | none ↦ show_groups gs ] ++ show_zone zone

hex_value : ℕ → Option ℕ
hex_value c =
    if leb b'0' c && leb c b'9'
    then some (c - b'0')
    else if leb b'a' c && leb c b'f'
    then some (c - b'a' + 10)
    else if leb b'A' c && leb c b'F'
    then some (c - b'A' + 10)
    else none

-- The hexadecimal digits at the front: their number, their value and what follows. More than four
-- digits are an error.
group : ℕ → ℕ → Bytes → Option (ℕ × ℕ × Bytes)
group off acc [] = some (off, acc, [])
group off acc (c ∷ s) = elim (hex_value c) [
  | none ↦ some (off, acc, c ∷ s)
  | some d ↦ if ltb 3 off then none else group (off + 1) (acc * 16 + d) s
]

-- What the loop of `parseIPv6` keeps: the unread text, the groups and the place of the ellipsis.
abbrev Progress : Type 0
Progress = Bytes × List ℕ × Option ℕ

abbrev has_some : Option ℕ → Bool
has_some none = false
has_some (some e) = true

with_v4 : List ℕ → Option ℕ → Option Addr → Option Progress
with_v4 gs ell (some (v4 a b c d)) = some ([], gs ++ (a * 256 + b) ∷ (c * 256 + d) ∷ [], ell)
with_v4 gs ell _ = none

-- An IPv4 address at the end stands for the last two groups.
tail_v4 : List ℕ → Option ℕ → Bytes → Option Progress
tail_v4 gs ell s =
    if (has_some ell || length gs == 6) && leb (length gs) 6
    then with_v4 gs ell (parse_v4 s)
    else none

-- Behind a group: the end, or a colon and more, or an ellipsis. `next` is the next round.
after_colon :
    (Bytes → List ℕ → Option ℕ → Option Progress) → Bytes → List ℕ → Option ℕ → Option Progress
after_colon next [] gs ell = none
after_colon next (c ∷ []) gs ell =
    if c == b':'
    then (if has_some ell then none else some ([], gs, some (length gs)))
    else next (c ∷ []) gs ell
after_colon next (c ∷ d ∷ s) gs ell =
    if c == b':'
    then (if has_some ell then none else next (d ∷ s) gs (some (length gs)))
    else next (c ∷ d ∷ s) gs ell

-- One round on the text `s`, of which `rest` stands behind a group of `off` digits.
one_group :
    (Bytes → List ℕ → Option ℕ → Option Progress)
    → Bytes
    → List ℕ
    → Option ℕ
    → ℕ × ℕ × Bytes
    → Option Progress
one_group next s gs ell (zero, value, rest) = none
one_group next s gs ell (suc off, value, []) = some ([], gs ++ value ∷ [], ell)
one_group next s gs ell (suc off, value, c ∷ rest) =
    if c == b'.'
    then tail_v4 gs ell s
    else if c == b':'
    then after_colon next rest (gs ++ value ∷ []) ell
    else none

-- The loop; each round adds a group, so that eight rounds are all.
groups : ℕ → Bytes → List ℕ → Option ℕ → Option Progress
groups zero s gs ell = some (s, gs, ell)
groups (suc f) s gs ell = do g ← group 0 0 s; one_group (groups f) s gs ell g

abbrev zeros : ℕ → List ℕ
zeros zero = []
zeros (suc n) = 0 ∷ zeros n

-- The ellipsis stands for at least one group of zeros.
expand : Progress → Option (List ℕ)
expand (c ∷ s, gs, ell) = none
expand ([], gs, none) = if length gs == 8 then some gs else none
expand ([], gs, some e) =
    if ltb (length gs) 8 then some (take e gs ++ (zeros (8 - length gs) ++ drop e gs)) else none

-- A text without its zone.
parse_groups : Bytes → Option (List ℕ)
unfolding hex_value group with_v4 tail_v4 after_colon one_group groups expand
parse_groups [] = none
parse_groups (c ∷ []) = none
parse_groups (c ∷ d ∷ []) =
    if c == b':' && d == b':'
    then some (zeros 8)
    else (do p ← groups 8 (c ∷ d ∷ []) [] none; expand p)
parse_groups (c ∷ d ∷ e ∷ s) =
    if c == b':' && d == b':'
    then (do p ← groups 8 (e ∷ s) [] (some 0); expand p)
    else (do p ← groups 8 (c ∷ d ∷ e ∷ s) [] none; expand p)

with_zone : Bytes → Bytes → Option Addr
unfolding parse_groups
with_zone s [] = none
with_zone s (c ∷ z) = do gs ← parse_groups s; some (v6 gs (c ∷ z))

unfoldable pub parse_v6 : Bytes → Option Addr
unfolding parse_groups with_zone
parse_v6 s = elim (index s b'%') [
  | none ↦ (do gs ← parse_groups s; some (v6 gs []))
  | some i ↦ with_zone (take i s) (drop (i + 1) s)
]
