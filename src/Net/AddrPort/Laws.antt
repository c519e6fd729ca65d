-- ===== src/Net/AddrPort/Laws.antt =====
-- The text of an IPv4 address with its port is read back.
use tsdns.Prelude.{
  ℕ, zero, suc, ◌+◌, ◌/◌, ◌%◌, ◌<◌, Bool, true, ◌&&◌, ◌≡◌, ◌≢◌, refl, sym, ap, ◌∙◌, some, List, [],
  ◌∷◌, ◌++◌, append-nil, Bytes, All, ltb, if◌then◌else◌, length, arith, drop_behind, take_append,
}
use native.Mathlib.Numerals.{add-one}
use tsdns.Text.Bytes.{equal, equal_iff}
use tsdns.Text.Bytes.Laws.{last_index_append}
use tsdns.Text.Decimal.{itoa}
use tsdns.Text.Decimal.RoundTrip.{
  IsDigit, contains_digits, itoa_digits, itoa-ne-nil, parse_uint-itoa,
}
use tsdns.Net.Addr.{v4, is6}
use tsdns.Net.V4.{show_v4, fields, four, parse_v4}
use tsdns.Net.AddrPort.{show_addr_port, parse_as, parse_addr, bare, host_addr, parse_addr_port}

checked_to : (ℕ → Bool) → ℕ → Bool
checked_to test zero = true
checked_to test (suc bound) = checked_to test bound && test bound

checked_to_lem :
    (test : ℕ → Bool) (bound c : ℕ) → c < bound → checked_to test bound ≡ true → test c ≡ true
unfolding checked_to
checked_to_lem test zero c below held = absurd (omega arith)
checked_to_lem test (suc bound) c below held = ground (arith, checked_to_lem test bound c)

-- The digits of a byte.
byte_text : ℕ → Bytes
byte_text n =
    if ltb n 10
    then (b'0' + n) ∷ []
    else if ltb n 100
    then (b'0' + n / 10) ∷ (b'0' + n % 10) ∷ []
    else (b'0' + n / 100) ∷ (b'0' + n / 10 % 10) ∷ (b'0' + n % 10) ∷ []

byte_text_table : checked_to (λ n. equal (itoa n) (byte_text n)) 256 ≡ true
unfolding checked_to itoa byte_text equal
byte_text_table = refl

itoa_byte : (n : ℕ) → n < 256 → itoa n ≡ byte_text n
itoa_byte n h = (equal_iff _ _).0 (checked_to_lem _ 256 n h byte_text_table)

byte_width : ℕ → ℕ
byte_width n = if ltb n 10 then 1 else if ltb n 100 then 2 else 3

-- A field is read up to the byte behind its digits.
fields-byte_text :
    (done : List ℕ) (n : ℕ) (rest : Bytes)
    → n < 256
    → fields done 0 0 (byte_text n ++ rest) ≡ fields done n (byte_width n) rest
unfolding fields byte_text byte_width
fields-byte_text done n rest h = ground arith

fields_dot :
    (done : List ℕ) (n : ℕ) (rest : Bytes)
    → n < 256
    → length done < 3
    → fields done 0 0 (itoa n ++ b'.' ∷ rest) ≡ fields (done ++ n ∷ []) 0 0 rest
fields_dot done n rest h l =
    rw (itoa_byte n h, fields-byte_text done n (b'.' ∷ rest) h)
      (unfold fields byte_width in ground arith)

fields_end :
    (done : List ℕ) (n : ℕ)
    → n < 256
    → length done ≡ 3
    → fields done 0 0 (itoa n) ≡ some (done ++ n ∷ [])
fields_end done n h l =
    sym (ap (fields done 0 0) (append-nil (itoa n)))
    ∙ rw (itoa_byte n h, fields-byte_text done n [] h) (unfold fields byte_width in ground arith)

module _ (a b c d : ℕ) (ha : a < 256) (hb : b < 256) (hc : c < 256) (hd : d < 256) where
  parse_v4-show_v4 : parse_v4 (show_v4 a b c d) ≡ some (v4 a b c d)
  unfolding parse_v4 show_v4
  parse_v4-show_v4 =
      rw
        (
          fields_dot [] a _ ha (omega arith),
          fields_dot (a ∷ []) b _ hb (omega arith),
          fields_dot (a ∷ b ∷ []) c _ hc (omega arith),
          fields_end (a ∷ b ∷ c ∷ []) d hd (omega arith),
        )
        (unfold four in refl)

parse_as_digits : (s ds r : Bytes) → All IsDigit ds → parse_as s (ds ++ b'.' ∷ r) ≡ parse_v4 s
unfolding parse_as
parse_as_digits s [] r h = refl
parse_as_digits s (c ∷ ds) r h = ground (arith, parse_as_digits s ds r h.1)

host_addr_digits : (ds r : Bytes) → ds ≢ [] → All IsDigit ds → host_addr (ds ++ r) ≡ bare (ds ++ r)
unfolding host_addr
host_addr_digits [] r n h = absurd (n refl)
host_addr_digits (c ∷ ds) r n h = ground arith

module _ (a b c d : ℕ) (ha : a < 256) (hb : b < 256) (hc : c < 256) (hd : d < 256) where
  pub parse_addr-show_v4 : parse_addr (show_v4 a b c d) ≡ some (v4 a b c d)
  unfolding parse_addr show_v4
  parse_addr-show_v4 =
      parse_as_digits _ (itoa a) _ (itoa_digits a) ∙ parse_v4-show_v4 a b c d ha hb hc hd

  bare-show_v4 : bare (show_v4 a b c d) ≡ some (v4 a b c d)
  unfolding bare is6
  bare-show_v4 = rw parse_addr-show_v4

  host_addr-show_v4 : host_addr (show_v4 a b c d) ≡ some (v4 a b c d)
  unfolding show_v4
  host_addr-show_v4 = host_addr_digits (itoa a) _ (itoa-ne-nil a) (itoa_digits a) ∙ bare-show_v4

  -- `ParseAddrPort` reads back the text of every IPv4 address with a port.
  pub parse_addr_port-show_addr_port :
      (p : ℕ)
      → p < 65536
      → parse_addr_port (show_addr_port (record { addr = v4 a b c d; port = p }))
        ≡ some (record { addr = v4 a b c d; port = p })
  unfolding parse_addr_port show_addr_port
  parse_addr_port-show_addr_port p hp = rw (
    last_index_append (show_v4 a b c d) b':' (itoa p)
        (contains_digits (itoa p) b':' (omega arith) (itoa_digits p)),
    take_append,
    host_addr-show_v4,
    add-one,
    drop_behind,
    parse_uint-itoa p hp,
  )
