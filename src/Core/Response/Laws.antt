-- ===== src/Core/Response/Laws.antt =====
-- Replies list the targets in order, and are never empty for a record that has a target.
use tsdns.Prelude.{
  ℕ, ◌+◌, ◌<◌, ◌≡◌, ◌≢◌, ◌↔◌, refl, sym, ap, ◌∙◌, true, false, some, List, [], ◌∷◌, ◌++◌,
  append_assoc, append-nil, Bytes, ◌==◌, ltb, if◌then◌else◌, arith, map, All, lt→ltb, Bool-cases,
  inl, inr,
}
use tsdns.Text.Decimal.{itoa}
use tsdns.Text.Decimal.RoundTrip.{itoa-ne-nil}
use tsdns.Net.Addr.{Addr, AddrPort, v4, v6, invalid, is6, IsV4}
use tsdns.Net.AddrPort.{show_addr, show_addr_port, parse_addr_port}
use tsdns.Net.AddrPort.Laws.{parse_addr_port-show_addr_port}
use tsdns.Net.V4.{show_v4}
use tsdns.Core.Record.{Record}
use tsdns.Core.Response.{write_addr, use_port, write_port, write_targets, respond, build_response}

-- The port of a target in a reply: its own, or that of the query for the port 0; 0 for none.
abbrev pub effective_port : ℕ → AddrPort → ℕ
effective_port q t = if t.port == 0 then q else t.port

-- The text of one target: its address, in brackets for IPv6, and its effective port if not 0.
abbrev pub target_text : ℕ → AddrPort → Bytes
target_text q t =
    if effective_port q t == 0
    then write_addr t
    else show_addr_port (record { addr = t.addr; port = effective_port q t })

-- Texts joined by blanks.
abbrev pub joined : List Bytes → Bytes
joined [] = []
joined (x ∷ []) = x
joined (x ∷ y ∷ xs) = x ++ b' ' ∷ joined (y ∷ xs)

-- The address parts of `show_addr_port`.
show_addr_port-write_addr :
    (a : Addr) (n m : ℕ)
    → a ≢ invalid
    → show_addr_port (record { addr = a; port = n })
      ≡ write_addr (record { addr = a; port = m }) ++ b':' ∷ itoa n
unfolding write_addr show_addr_port is6
show_addr_port-write_addr invalid n m v = absurd (v refl)
show_addr_port-write_addr (v4 a b c d) n m v = refl
show_addr_port-write_addr (v6 gs z) n m v = ap (◌∷◌ b'[') (sym (append_assoc _ (b']' ∷ []) _))

positive : (q : ℕ) → (q == 0) ≡ false → ltb 0 q ≡ true
positive q h = ground arith

not_positive : (q : ℕ) → (q == 0) ≡ true → ltb 0 q ≡ false
not_positive q h = ground arith

pub not_zero : (n : ℕ) → 0 < n → (n == 0) ≡ false
not_zero n h = ground arith

write_target-target_text :
    (q : ℕ) (t : AddrPort)
    → t.addr ≢ invalid
    → write_addr t ++ write_port (use_port t.port q) ≡ target_text q t
unfolding use_port write_port
write_target-target_text q t v = elim (Bool-cases (t.port == 0)) [
  | inl zero_port ↦ elim (Bool-cases (q == 0)) [
    | inl none_at_all ↦
        rw (zero_port, none_at_all, not_positive q none_at_all) (append-nil (write_addr t))
    | inr from_query ↦
        rw (zero_port, from_query, positive q from_query)
          (sym (show_addr_port-write_addr t.addr q t.port v))
  ]
  | inr own ↦ rw (own, own) (sym (show_addr_port-write_addr t.addr t.port t.port v))
]

-- Texts, each behind a blank.
pub spaced : List Bytes → Bytes
spaced [] = []
spaced (x ∷ xs) = b' ' ∷ (x ++ spaced xs)

pub joined-spaced : (x : Bytes) (xs : List Bytes) → joined (x ∷ xs) ≡ x ++ spaced xs
unfolding spaced
joined-spaced x [] = sym (append-nil x)
joined-spaced x (y ∷ xs) = ap (λ r. x ++ b' ' ∷ r) (joined-spaced y xs)

abbrev pub AllValid : List AddrPort → Type 0
AllValid = All (λ t. t.addr ≢ invalid)

write_targets-spaced :
    (q i : ℕ) (ts : List AddrPort) (sb : Bytes)
    → 0 < i
    → AllValid ts
    → write_targets q i ts sb ≡ sb ++ spaced (map (target_text q) ts)
unfolding write_targets spaced
write_targets-spaced q i [] sb pos v = sym (append-nil sb)
write_targets-spaced q i (t ∷ ts) sb pos v =
    rw (lt→ltb 0 i pos, write_targets-spaced q (i + 1) ts _ (omega arith) v.1)
      (rw (append_assoc (sb ++ b' ' ∷ []) (write_addr t) _, write_target-target_text q t v.0)
        (rw (append_assoc, append_assoc)))

write_targets-joined :
    (q : ℕ) (t : AddrPort) (ts : List AddrPort)
    → AllValid (t ∷ ts)
    → write_targets q 0 (t ∷ ts) [] ≡ joined (map (target_text q) (t ∷ ts))
unfolding write_targets
write_targets-joined q t ts v =
    write_targets-spaced q (0 + 1) ts _ (omega arith) v.1
    ∙ rw (write_target-target_text q t v.0) (sym (joined-spaced _ _))

pub respond-joined :
    (q : ℕ) (ts : List AddrPort) → AllValid ts → respond q ts ≡ joined (map (target_text q) ts)
unfolding respond
respond-joined q [] v = refl
respond-joined q (t ∷ ts) v = write_targets-joined q t ts v

-- The reply to a query with port `q` lists the texts of the record's targets, in their order and
-- joined by blanks, where no target's address is Go's zero value; a target with port 0 takes the
-- port of the query, and is bare if that is 0.
pub build_response-joined :
    (rec : Record) (q : ℕ)
    → AllValid rec.targets
    → build_response rec q ≡ joined (map (target_text q) rec.targets)
unfolding build_response
build_response-joined rec q = respond-joined q rec.targets

pub append-ne-nil_left : (x y : Bytes) → x ≢ [] → x ++ y ≢ []
append-ne-nil_left [] y n = absurd (n refl)
append-ne-nil_left (c ∷ x) y n = λ e. cc

append-ne-nil_right : (x y : Bytes) → y ≢ [] → x ++ y ≢ []
append-ne-nil_right [] y n = n
append-ne-nil_right (c ∷ x) y n = λ e. cc

write_addr-ne-nil : (a : Addr) (p : ℕ) → write_addr (record { addr = a; port = p }) ≢ []
unfolding write_addr is6 show_addr show_v4
write_addr-ne-nil invalid p = λ e. cc
write_addr-ne-nil (v4 a b c d) p = append-ne-nil_left (itoa a) _ (itoa-ne-nil a)
write_addr-ne-nil (v6 gs z) p = λ e. cc

write_targets-ne-nil :
    (q i : ℕ) (ts : List AddrPort) (sb : Bytes) → sb ≢ [] → write_targets q i ts sb ≢ []
unfolding write_targets
write_targets-ne-nil q i [] sb n = n
write_targets-ne-nil q i (t ∷ ts) sb n =
    write_targets-ne-nil q (i + 1) ts _
      (append-ne-nil_left _ _ (append-ne-nil_right _ _ (write_addr-ne-nil t.addr t.port)))

respond-ne-nil : (q : ℕ) (ts : List AddrPort) → ts ≢ [] → respond q ts ≢ []
unfolding respond write_targets
respond-ne-nil q [] n = absurd (n refl)
respond-ne-nil q (t ∷ ts) n =
    write_targets-ne-nil q (0 + 1) ts _ (append-ne-nil_left _ _ (write_addr-ne-nil t.addr t.port))

respond_nil : (q : ℕ) (ts : List AddrPort) → respond q ts ≡ [] → ts ≡ []
respond_nil q [] e = refl
respond_nil q (t ∷ ts) e = absurd (respond-ne-nil q (t ∷ ts) (cc) e)

-- The reply is empty for a record without targets and for no other: a target with port 0 is listed
-- with its address also where the query has no port.
pub build_response-nil_iff :
    (rec : Record) (q : ℕ) → (build_response rec q ≡ []) ↔ (rec.targets ≡ [])
unfolding build_response
build_response-nil_iff rec q =
    (respond_nil q rec.targets, λ e. ap (respond q) e ∙ unfold respond in refl)

pub target_text-IsV4 :
    (q : ℕ) (t : AddrPort) (a b c d : ℕ)
    → IsV4 t a b c d
    → q < 65536
    → 0 < effective_port q t
    → parse_addr_port (target_text q t) ≡ some (record t { port = effective_port q t })
target_text-IsV4 q t a b c d v l pos =
    rw (not_zero (effective_port q t) pos, v.0)
      (parse_addr_port-show_addr_port a b c d v.1 v.2 v.3 v.4 (effective_port q t) (ground arith))

-- What a client reads back from the reply for a single IPv4 target is that target, with the port
-- of the query in place of the port 0, where one of the two ports is not 0.
pub parse_addr_port-build_response :
    (rec : Record) (q : ℕ) (t : AddrPort) (a b c d : ℕ)
    → rec.targets ≡ t ∷ []
    → IsV4 t a b c d
    → q < 65536
    → 0 < effective_port q t
    → parse_addr_port (build_response rec q) ≡ some (record t { port = effective_port q t })
unfolding build_response
parse_addr_port-build_response rec q t a b c d e v l pos =
    rw (e, respond-joined q (t ∷ []) ((λ i. cc (i, v.0)), tt))
      (target_text-IsV4 q t a b c d v l pos)
