-- ===== src/Core/Query/Sound.antt =====
-- Every result of `parseQuery` stands in the query.
use tsdns.Prelude.{
  ℕ, zero, suc, ◌+◌, ◌-◌, ◌<◌, true, false, ◌≡◌, refl, sym, ap, ◌∙◌, some, [], ◌∷◌, ◌++◌, Bytes,
  ◌==◌, Bool-cases, ==_iff, Option-cases, inl, inr, arith, length, length-take, take, drop, ◌>>=◌,
  ◌⊎◌,
}
use mathlib.Core.Path.{subst}
use native.Mathlib.Numerals.{add-one, add-two}
use tsdns.Text.Bytes.{has_prefix, index, last_index, contains}
use tsdns.Text.Bytes.Laws.{index_split, last_index_split}
use tsdns.Text.Space.{trim_space}
use tsdns.Text.Decimal.{parse_uint}
use tsdns.Text.Decimal.RoundTrip.{parse_uint-lt}
use tsdns.Core.Query.{
  byte_at, with_port, cut_bracketed, cut_host_port, parse_bracketed, parse_host_port, parse_trimmed,
  parse_query,
}

suc-sub-one : (n : ℕ) → suc n - 1 ≡ n
suc-sub-one n = omega arith

-- A host and a port that stand in `s` as `host:port`, at the last colon.
pub record IsHostPort (s : Bytes) (r : Bytes × ℕ) : Type 0 where
  pub port_text : Bytes
  pub splits : s ≡ r.0 ++ b':' ∷ port_text
  pub host_ne_nil : 0 < length r.0
  pub last_colon : contains port_text b':' ≡ false
  pub reads : parse_uint 16 port_text ≡ some r.1

-- A host and a port that stand in `s` as `[host]:port`, at the first closing bracket.
pub record IsBracketed (s : Bytes) (r : Bytes × ℕ) : Type 0 where
  pub port_text : Bytes
  pub splits : s ≡ b'[' ∷ (r.0 ++ b']' ∷ b':' ∷ port_text)
  pub host_ne_nil : 0 < length r.0
  pub first_bracket : contains r.0 b']' ≡ false
  pub reads : parse_uint 16 port_text ≡ some r.1

with_port_inv :
    (h p : Bytes) (r : Bytes × ℕ)
    → with_port h p ≡ some r
    → (h ≡ r.0) × (parse_uint 16 p ≡ some r.1)
unfolding with_port
with_port_inv h p r e = ground arith

cut_host_port_guard :
    (s : Bytes) (i : ℕ) (r : Bytes × ℕ)
    → cut_host_port s i ≡ some r
    → (0 < i) × (i + 1 < length s) × (with_port (take i s) (drop (i + 1) s) ≡ some r)
unfolding cut_host_port
cut_host_port_guard s i r h = ground arith

cut_host_port_inv :
    (s : Bytes) (i : ℕ) (r : Bytes × ℕ)
    → last_index s b':' ≡ some i
    → cut_host_port s i ≡ some r
    → IsHostPort s r
cut_host_port_inv s i r e h =
    let (pos, room, w) = cut_host_port_guard s i r h in
    let (host, port) = with_port_inv (take i s) (drop (i + 1) s) r w in
    let (splits, rest) = last_index_split s b':' i e in
    record {
      port_text = drop (suc i) s;
      splits = rw (← host) splits;
      host_ne_nil = rw (← host, length-take i s (omega arith)) pos;
      last_colon = rest;
      reads = rw add-one at port;
    }

parse_host_port_inv : (s : Bytes) (r : Bytes × ℕ) → parse_host_port s ≡ some r → IsHostPort s r
unfolding parse_host_port
parse_host_port_inv s r e = elim (Option-cases (last_index s b':')) [
  | inl n ↦ absurd (ground arith)
  | inr (i, p) ↦ cut_host_port_inv s i r p (rw p at e)
]

-- The text from position `i` on, where the byte there is `b`.
byte_at_split : (s : Bytes) (i b : ℕ) → byte_at s i b ≡ true → drop i s ≡ b ∷ drop (suc i) s
unfolding byte_at
byte_at_split [] i b h = cc
byte_at_split (c ∷ s) zero b h = ground arith
byte_at_split (c ∷ s) (suc i) b h = byte_at_split s i b h

cut_bracketed_guard :
    (s : Bytes) (i : ℕ) (r : Bytes × ℕ)
    → cut_bracketed s i ≡ some r
    → (1 < i)
      × (i + 1 < length s)
      × (byte_at s (i + 1) b':' ≡ true)
      × (with_port (take (i - 1) (drop 1 s)) (drop (i + 2) s) ≡ some r)
unfolding cut_bracketed
cut_bracketed_guard s i r h = ground arith

cut_bracketed_inv :
    (s : Bytes) (i : ℕ) (r : Bytes × ℕ)
    → index (b'[' ∷ s) b']' ≡ some (suc i)
    → cut_bracketed (b'[' ∷ s) (suc i) ≡ some r
    → IsBracketed (b'[' ∷ s) r
cut_bracketed_inv s i r e h =
    let (pos, room, colon, w) = cut_bracketed_guard (b'[' ∷ s) (suc i) r h in
    let (host, port) = with_port_inv (take (suc i - 1) s) (drop (suc i + 2) (b'[' ∷ s)) r w in
    let host' : take i s ≡ r.0 = rw suc-sub-one at host in
    let (splits, inside) = index_split (b'[' ∷ s) b']' (suc i) e in
    let after = byte_at_split (b'[' ∷ s) (suc (suc i)) b':' (rw add-one at colon) in
    record {
      port_text = drop (suc (suc i)) s;
      splits = rw (← host') (splits ∙ ap (λ t. b'[' ∷ (take i s ++ b']' ∷ t)) after);
      host_ne_nil = rw (← host', length-take i s (omega arith)) (omega arith);
      first_bracket = rw (← host') (unfold contains in inside);
      reads = rw add-two at port;
    }

index_zero : (c : ℕ) (s : Bytes) (b : ℕ) → index (c ∷ s) b ≡ some 0 → c ≡ b
unfolding index
index_zero c s b h = ground arith

IsBracketed-at :
    (s : Bytes) (i : ℕ) (r : Bytes × ℕ)
    → index (b'[' ∷ s) b']' ≡ some i
    → cut_bracketed (b'[' ∷ s) i ≡ some r
    → IsBracketed (b'[' ∷ s) r
IsBracketed-at s zero r e h = absurd (omega (arith, index_zero b'[' s b']' e))
IsBracketed-at s (suc i) r e h = cut_bracketed_inv s i r e h

open_bracket_inv :
    (s : Bytes) (r : Bytes × ℕ)
    → (do end ← index (b'[' ∷ s) b']'; cut_bracketed (b'[' ∷ s) end) ≡ some r
    → IsBracketed (b'[' ∷ s) r
open_bracket_inv s r e = elim (Option-cases (index (b'[' ∷ s) b']')) [
  | inl n ↦ absurd (ground arith)
  | inr (i, p) ↦ IsBracketed-at s i r p (rw p at e)
]

parse_bracketed_inv : (s : Bytes) (r : Bytes × ℕ) → parse_bracketed s ≡ some r → IsBracketed s r
unfolding parse_bracketed has_prefix
parse_bracketed_inv [] r e = cc
parse_bracketed_inv (c ∷ s) r e = elim (Bool-cases (c == b'[')) [
  | inl bracket ↦
      let same : c ≡ b'[' = (==_iff c b'[').0 bracket in
      subst (λ x. parse_bracketed (x ∷ s) ≡ some r → IsBracketed (x ∷ s) r) (sym same)
        (open_bracket_inv s r) e
  | inr other ↦ absurd (ground arith)
]

-- The result for a query is all of it with port 0, or a host and a port that stand in it in one
-- of the two forms.
abbrev pub IsReading : Bytes → Bytes × ℕ → Type 0
IsReading s r = (r ≡ (s, 0)) ⊎ IsHostPort s r ⊎ IsBracketed s r

parse_trimmed-IsReading : (s : Bytes) → IsReading s (parse_trimmed s)
unfolding parse_trimmed
parse_trimmed-IsReading [] = inl refl
parse_trimmed-IsReading (c ∷ s) = elim (Option-cases (parse_bracketed (c ∷ s))) [
  | inr (r, p) ↦ rw p (inr (inr (parse_bracketed_inv (c ∷ s) r p)))
  | inl n ↦ elim (Option-cases (parse_host_port (c ∷ s))) [
    | inr (r, p) ↦ rw (n, p) (inr (inl (parse_host_port_inv (c ∷ s) r p)))
    | inl m ↦ rw (n, m) (inl refl)
  ]
]

-- Whatever bytes a query holds, the host and port that `parseQuery` returns are the trimmed query
-- with port 0, or stand in it as `host:port`, split at the last colon, or as `[host]:port`, split
-- at the first closing bracket, with a host that is not empty and the port read in 16 bits.
pub parse_query-IsReading : (raw : Bytes) → IsReading (trim_space raw) (parse_query raw)
unfolding parse_query
parse_query-IsReading raw = parse_trimmed-IsReading (trim_space raw)

IsReading-lt : (s : Bytes) (r : Bytes × ℕ) → IsReading s r → r.1 < 65536
IsReading-lt s r (inl whole) = rw whole (omega arith)
IsReading-lt s r (inr (inl f)) = parse_uint-lt f.port_text r.1 f.reads
IsReading-lt s r (inr (inr f)) = parse_uint-lt f.port_text r.1 f.reads

-- The port of every query is a port, so the conversion to int32 is exact.
pub parse_query-port-lt : (raw : Bytes) → (parse_query raw).1 < 65536
parse_query-port-lt raw =
    IsReading-lt (trim_space raw) (parse_query raw) (parse_query-IsReading raw)
