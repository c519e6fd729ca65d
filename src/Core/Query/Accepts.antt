-- ===== src/Core/Query/Accepts.antt =====
-- What `parseQuery` makes of each form of a query.
use tsdns.Prelude.{
  ℕ, suc, ◌-◌, ◌<◌, true, false, ◌≡◌, ◌≢◌, refl, sym, ap, ◌∙◌, none, some, [], ◌∷◌, ◌++◌,
  append_assoc, Bytes, All, arith, length, drop, get_or, ==_refl, reverse, reverse-append,
  take_append, drop_behind, length-append,
}
use native.Mathlib.Numerals.{add-one, add-two}
use tsdns.Text.Bytes.{has_prefix, index, contains}
use tsdns.Text.Bytes.Laws.{index_append, last_index_append}
use tsdns.Text.Space.{space_width, space_width_back, trim_space}
use tsdns.Text.Space.Laws.{trim_space_stop, space_width_append}
use tsdns.Text.Decimal.{itoa}
use tsdns.Text.Decimal.RoundTrip.{
  IsDigit, contains_digits, itoa_digits, itoa-ne-nil, parse_uint-itoa,
}
use tsdns.Core.Query.{
  byte_at, with_port, cut_bracketed, cut_host_port, parse_bracketed, parse_host_port, parse_trimmed,
  parse_query,
}

-- The part behind the two bytes that follow `h`, and the second of them.
drop_second : (h : Bytes) (b c : ℕ) (p : Bytes) → drop (suc (suc (length h))) (h ++ b ∷ c ∷ p) ≡ p
drop_second [] b c p = refl
drop_second (x ∷ h) b c p = drop_second h b c p

byte_at_second :
    (h : Bytes) (b c : ℕ) (p : Bytes) → byte_at (h ++ b ∷ c ∷ p) (suc (length h)) c ≡ true
unfolding byte_at
byte_at_second [] b c p = ==_refl c
byte_at_second (x ∷ h) b c p = byte_at_second h b c p

suc-sub-one : (n : ℕ) → suc n - 1 ≡ n
suc-sub-one n = omega arith

with_port-itoa : (h : Bytes) (n : ℕ) → n < 65536 → with_port h (itoa n) ≡ some (h, n)
unfolding with_port
with_port-itoa h n l = rw (parse_uint-itoa n l)

length_pos : (s : Bytes) → s ≢ [] → 0 < length s
length_pos [] n = absurd (n refl)
length_pos (c ∷ s) n = omega arith

cut_host_port_lem :
    (h p : Bytes) → h ≢ [] → p ≢ [] → cut_host_port (h ++ b':' ∷ p) (length h) ≡ with_port h p
unfolding cut_host_port
cut_host_port_lem h p hn pn =
    rw (add-one, take_append, drop_behind)
      (ground (arith, length-append h (b':' ∷ p), length_pos h hn, length_pos p pn))

host_port_split :
    (h p : Bytes)
    → h ≢ []
    → p ≢ []
    → contains p b':' ≡ false
    → parse_host_port (h ++ b':' ∷ p) ≡ with_port h p
unfolding parse_host_port
host_port_split h p hn pn c = rw (last_index_append h b':' p c) (cut_host_port_lem h p hn pn)

cut_bracketed_lem :
    (h p : Bytes)
    → h ≢ []
    → cut_bracketed (b'[' ∷ (h ++ b']' ∷ b':' ∷ p)) (suc (length h)) ≡ with_port h p
unfolding cut_bracketed
cut_bracketed_lem h p hn =
    rw
      (
        suc-sub-one,
        add-two,
        add-one,
        take_append,
        drop_second,
        byte_at_second (b'[' ∷ h) b']' b':' p,
      )
      (ground (arith, length-append h (b']' ∷ b':' ∷ p), length_pos h hn))

bracketed_split :
    (h p : Bytes)
    → h ≢ []
    → contains h b']' ≡ false
    → parse_bracketed (b'[' ∷ (h ++ b']' ∷ b':' ∷ p)) ≡ with_port h p
unfolding parse_bracketed has_prefix index
bracketed_split h p hn c = rw (index_append h b']' (b':' ∷ p) c) (cut_bracketed_lem h p hn)

-- Digits at the end of a text are no white space.
last-IsDigit :
    (c : ℕ) (s : Bytes)
    → All IsDigit (c ∷ s)
    → (q : Bytes) × (d : ℕ) × (c ∷ s ≡ q ++ d ∷ []) × IsDigit d
last-IsDigit c [] h = ([], c, refl, h.0)
last-IsDigit c (x ∷ s) h = let (q, d, e, k) = last-IsDigit x s h.1 in (c ∷ q, d, ap (◌∷◌ c) e, k)

space_width_back_digit : (d : ℕ) (r : Bytes) → IsDigit d → space_width_back (d ∷ r) ≡ 0
unfolding space_width_back
space_width_back_digit d [] h = ground arith
space_width_back_digit d (b ∷ []) h = ground arith
space_width_back_digit d (b ∷ a ∷ r) h = ground arith

back_digits : (a p : Bytes) → p ≢ [] → All IsDigit p → space_width_back (reverse (a ++ p)) ≡ 0
back_digits a [] n h = absurd (n refl)
back_digits a (c ∷ s) n h =
    let (q, d, e, k) = last-IsDigit c s h in
    rw (e, ← append_assoc, reverse-append) (space_width_back_digit d (reverse (a ++ q)) k)

-- A text that ends in a number and starts with no white space is trimmed already.
trim_number : (s a : Bytes) (n : ℕ) → s ≡ a ++ itoa n → space_width s ≡ 0 → trim_space s ≡ s
trim_number s a n e h =
    trim_space_stop s h (rw e (back_digits a (itoa n) (itoa-ne-nil n) (itoa_digits n)))

pub append-ne-nil : (h : Bytes) (b : ℕ) (s : Bytes) → h ++ b ∷ s ≢ []
append-ne-nil [] b s e = cc
append-ne-nil (c ∷ h) b s e = cc

has_prefix_append :
    (h : Bytes) (b p : ℕ) (s : Bytes)
    → h ≢ []
    → has_prefix h (p ∷ []) ≡ false
    → has_prefix (h ++ b ∷ s) (p ∷ []) ≡ false
unfolding has_prefix
has_prefix_append [] b p s n e = absurd (n refl)
has_prefix_append (c ∷ h) b p s n e = ground arith

space_width_bracket : (c : ℕ) (s : Bytes) → c ≡ b'[' → space_width (c ∷ s) ≡ 0
unfolding space_width
space_width_bracket c [] e = ground arith
space_width_bracket c (x ∷ []) e = ground arith
space_width_bracket c (x ∷ y ∷ s) e = ground arith

no_bracket : (s : Bytes) → has_prefix s (b'[' ∷ []) ≡ false → parse_bracketed s ≡ none
unfolding parse_bracketed
no_bracket s h = rw h

trimmed_bracketed :
    (s h : Bytes) (n : ℕ) → s ≢ [] → parse_bracketed s ≡ some (h, n) → parse_trimmed s ≡ (h, n)
unfolding parse_trimmed
trimmed_bracketed [] h n ne e = absurd (ne refl)
trimmed_bracketed (c ∷ s) h n ne e = rw e

trimmed_host_port :
    (s : Bytes)
    → s ≢ []
    → parse_bracketed s ≡ none
    → parse_trimmed s ≡ get_or (parse_host_port s) (s, 0)
unfolding parse_trimmed
trimmed_host_port [] ne e = absurd (ne refl)
trimmed_host_port (c ∷ s) ne e = rw e

-- A query `h:n` has no white space at its ends.
pub query_front :
    (h : Bytes) (n : ℕ) → h ≢ [] → space_width h ≡ 0 → space_width (h ++ b':' ∷ itoa n) ≡ 0
query_front h n ne w = space_width_append h b':' (itoa n) ne (omega arith) w

pub query_back : (h : Bytes) (n : ℕ) → space_width_back (reverse (h ++ b':' ∷ itoa n)) ≡ 0
query_back h n =
    rw (sym (append_assoc h (b':' ∷ []) (itoa n)))
      (back_digits (h ++ b':' ∷ []) (itoa n) (itoa-ne-nil n) (itoa_digits n))

module _ (h : Bytes) (n : ℕ) (fits : n < 65536) (ne : h ≢ []) where
  -- A query `h:n` of a host `h` and a port `n` is read as that host and that port: `h` is not
  -- empty and starts with no white space and no `[`, and `n` is below 65536.
  pub parse_query_host_port :
      space_width h ≡ 0
      → has_prefix h (b'[' ∷ []) ≡ false
      → parse_query (h ++ b':' ∷ itoa n) ≡ (h, n)
  unfolding parse_query
  parse_query_host_port w b = rw (
    trim_number _ (h ++ b':' ∷ []) n (sym (append_assoc h (b':' ∷ []) (itoa n)))
        (space_width_append h b':' _ ne (omega arith) w),
    trimmed_host_port (h ++ b':' ∷ itoa n) (append-ne-nil h b':' _)
        (no_bracket _ (has_prefix_append h b':' b'[' _ ne b)),
    host_port_split h _ ne (itoa-ne-nil n) (contains_digits _ b':' (omega arith) (itoa_digits n)),
    with_port-itoa h n fits,
  )

  -- A bracketed query `[h]:n` is read as the host without its brackets and the port: `h` is not
  -- empty and holds no `]`, and `n` is below 65536.
  pub parse_query_bracketed :
      contains h b']' ≡ false → parse_query (b'[' ∷ (h ++ b']' ∷ b':' ∷ itoa n)) ≡ (h, n)
  unfolding parse_query
  parse_query_bracketed c =
      rw
        (trim_number _ (b'[' ∷ (h ++ b']' ∷ b':' ∷ [])) n
          (ap (◌∷◌ b'[') (sym (append_assoc h (b']' ∷ b':' ∷ []) (itoa n))))
          (space_width_bracket b'[' _ refl))
        (trimmed_bracketed _ h n (cc) (bracketed_split h _ ne c ∙ with_port-itoa h n fits))
