-- ===== src/Cli/Import/Replies.antt =====
-- What `buildResponse` lists is a value of a settings file: `importEntries` reads it back.
use tsdns.Prelude.{
  ℕ, ◌≤◌, ◌<◌, ◌==◌, ◌≡◌, ◌≢◌, refl, sym, ap, ◌∙◌, false, Option, some, pos, List, [], ◌∷◌, ◌++◌,
  append_assoc, Bytes, All, All-append, map, arith,
}
use tsdns.Text.Bytes.{codes, replace_byte}
use tsdns.Text.Decimal.{itoa}
use tsdns.Text.Decimal.RoundTrip.{itoa_digits, itoa-ne-nil}
use tsdns.Net.Addr.{AddrPort, v4, IsV4}
use tsdns.Net.V4.{show_v4}
use tsdns.Net.AddrPort.{show_addr_port, parse_addr_port}
use tsdns.Core.Record.{Record}
use tsdns.Core.Response.{build_response}
use tsdns.Core.Response.Laws.{
  effective_port, target_text, joined, joined-spaced, spaced, target_text-IsV4, respond-joined,
  not_zero, AllValid, append-ne-nil_left,
}
use tsdns.Api.Targets.{equal_fold, parse_target}
use tsdns.Api.Targets.Printed.{AllV4, digits_no_word}
use tsdns.Cli.Import.{fields, parse_parts, entry_targets}
use tsdns.Cli.Import.Fields.{IsWord, fields-joined}

-- The bytes of an IPv4 address with its port: digits, dots and a colon.
abbrev IsPlain : ℕ → Type 0
IsPlain c = (46 ≤ c) × (c ≤ 58)

All-weaken : {P Q : ℕ → Type 0} → ((c : ℕ) → P c → Q c) → (s : Bytes) → All P s → All Q s
All-weaken f [] h = tt
All-weaken f (c ∷ s) h = (f c h.0, All-weaken f s h.1)

itoa-IsPlain : (n : ℕ) → All IsPlain (itoa n)
itoa-IsPlain n = All-weaken (λ c h. (omega arith, omega arith)) (itoa n) (itoa_digits n)

append-IsPlain : (n c : ℕ) (s : Bytes) → IsPlain c → All IsPlain s → All IsPlain (itoa n ++ c ∷ s)
append-IsPlain n c s h hs = All-append IsPlain (itoa n) (c ∷ s) (itoa-IsPlain n) (h, hs)

show_addr_port-IsPlain :
    (a b c d p : ℕ) → All IsPlain (show_addr_port (record { addr = v4 a b c d; port = p }))
unfolding show_addr_port show_v4
show_addr_port-IsPlain a b c d p =
    let dot : IsPlain b'.' = (omega arith, omega arith) in
    All-append IsPlain (show_v4 a b c d) _
      (append-IsPlain a _ _ dot
        (append-IsPlain b _ _ dot (append-IsPlain c _ _ dot (itoa-IsPlain d))))
      ((omega arith, omega arith), itoa-IsPlain p)

append-ne-nil : (s r : Bytes) → r ≢ [] → s ++ r ≢ []
append-ne-nil [] r n = n
append-ne-nil (c ∷ s) r n = λ e. cc e

show_addr_port-ne-nil :
    (a b c d p : ℕ) → show_addr_port (record { addr = v4 a b c d; port = p }) ≢ []
unfolding show_addr_port
show_addr_port-ne-nil a b c d p = append-ne-nil (show_v4 a b c d) _ (λ e. cc e)

-- A target as a client gets it that asks with the port `q`.
abbrev pub sent : ℕ → AddrPort → AddrPort
sent q t = record t { port = effective_port q t }

abbrev pub HasPort : ℕ → AddrPort → Type 0
HasPort q t = 0 < effective_port q t

-- The text of an IPv4 target with its effective port.
module _ (q : ℕ) (t : AddrPort) (a b c d : ℕ) (v : IsV4 t a b c d) (h : HasPort q t) where
  target_text-v4 :
      target_text q t ≡ show_addr_port (record { addr = v4 a b c d; port = effective_port q t })
  target_text-v4 = rw (not_zero (effective_port q t) h, v.0) refl

  target_text-IsPlain : All IsPlain (target_text q t)
  target_text-IsPlain = rw target_text-v4 (show_addr_port-IsPlain a b c d (effective_port q t))

  target_text-IsWord : IsWord (target_text q t)
  target_text-IsWord = (
    λ e. show_addr_port-ne-nil a b c d (effective_port q t) (sym target_text-v4 ∙ e),
    All-weaken (λ x p. (omega arith, omega arith)) _ target_text-IsPlain,
  )

abbrev NoComma : Bytes → Type 0
NoComma = All (λ c. (c == b',') ≡ false)

replace_byte-NoComma : (s : Bytes) → NoComma s → replace_byte b',' b' ' s ≡ s
unfolding replace_byte
replace_byte-NoComma [] h = refl
replace_byte-NoComma (c ∷ s) h = rw (h.0, replace_byte-NoComma s h.1)

joined-NoComma : (ws : List Bytes) → All NoComma ws → NoComma (joined ws)
joined-NoComma [] h = tt
joined-NoComma (w ∷ []) h = h.0
joined-NoComma (w ∷ v ∷ ws) h = All-append _ w _ h.0 (refl, joined-NoComma (v ∷ ws) h.1)

-- What holds for the texts of the targets.
texts-All :
    (P : Bytes → Type 0) (q : ℕ)
    → ((t : AddrPort) (a b c d : ℕ) → IsV4 t a b c d → HasPort q t → P (target_text q t))
    → (ts : List AddrPort) → AllV4 ts
    → All (HasPort q) ts
    → All P (map (target_text q) ts)
texts-All P q f [] v h = tt
texts-All P q f (t ∷ ts) v h =
    let (a, b, c, d, v4s) = v.0 in (f t a b c d v4s h.0, texts-All P q f ts v.1 h.1)

parse_target_read :
    (p : Bytes) (t : AddrPort) → parse_addr_port p ≡ some t → parse_target (pos 0) p ≡ some t
unfolding parse_target
parse_target_read p t h = rw (h, parse_target) refl

parse_parts_cons :
    (p : Bytes) (ps : List Bytes) (t : AddrPort) (ts : List AddrPort)
    → parse_target (pos 0) p ≡ some t
    → parse_parts ps ≡ some ts
    → parse_parts (p ∷ ps) ≡ some (t ∷ ts)
unfolding parse_parts
parse_parts_cons p ps t ts h hs = rw (h, hs) refl

parse_parts-texts :
    (q : ℕ) (ts : List AddrPort)
    → q < 65536
    → AllV4 ts
    → All (HasPort q) ts
    → parse_parts (map (target_text q) ts) ≡ some (map (sent q) ts)
unfolding parse_parts
parse_parts-texts q [] l v h = refl
parse_parts-texts q (t ∷ ts) l v h =
    let (a, b, c, d, v4s) = v.0 in
    parse_parts_cons (target_text q t) (map (target_text q) ts) (sent q t) (map (sent q) ts)
      (parse_target_read _ _ (target_text-IsV4 q t a b c d v4s l h.0))
      (parse_parts-texts q ts l v.1 h.1)

texts_no_word :
    (q : ℕ) (t : AddrPort) (a b c d : ℕ) (r : Bytes)
    → IsV4 t a b c d
    → HasPort q t
    → equal_fold (codes "NORESPONSE") (target_text q t ++ r) ≡ false
unfolding show_addr_port show_v4
texts_no_word q t a b c d r v h =
    ap (λ s. equal_fold (codes "NORESPONSE") (s ++ r)) (target_text-v4 q t a b c d v h)
    ∙ ap (equal_fold (codes "NORESPONSE"))
        (append_assoc (show_v4 a b c d) _ r ∙ append_assoc (itoa a) _ _)
    ∙ digits_no_word (itoa a) _ (itoa-ne-nil a) (itoa_digits a)

entry_targets_read :
    (s : Bytes) (o : Option (List AddrPort))
    → s ≢ []
    → equal_fold (codes "NORESPONSE") s ≡ false
    → parse_parts (fields (replace_byte b',' b' ' s)) ≡ o
    → entry_targets s ≡ o
unfolding entry_targets
entry_targets_read [] o n w h = absurd (n refl)
entry_targets_read (c ∷ s) o n w h = rw w h

respond-entry :
    (q : ℕ) (ts : List AddrPort)
    → q < 65536
    → AllV4 ts
    → All (HasPort q) ts
    → entry_targets (joined (map (target_text q) ts)) ≡ some (map (sent q) ts)
unfolding entry_targets
respond-entry q [] l v h = refl
respond-entry q (t ∷ ts) l v h =
    let (a, b, c, d, v4s) = v.0 in
    let texts : List Bytes = map (target_text q) (t ∷ ts) in
    let words : All IsWord texts = texts-All IsWord q (target_text-IsWord q) (t ∷ ts) v h in
    let whole : joined texts ≡ target_text q t ++ spaced (map (target_text q) ts) =
      joined-spaced _ _ in
    let plain : NoComma (joined texts) = joined-NoComma texts (
      texts-All NoComma q
        (λ x a b c d w p. All-weaken (λ y z. ground arith) _ (target_text-IsPlain q x a b c d w p))
        (t ∷ ts) v h) in
    entry_targets_read (joined texts) _ (λ e. append-ne-nil_left _ _ words.0.0 (sym whole ∙ e))
      (ap (equal_fold (codes "NORESPONSE")) whole ∙ texts_no_word q t a b c d _ v4s h.0)
      (ap (λ s. parse_parts (fields s)) (replace_byte-NoComma (joined texts) plain)
        ∙ ap parse_parts (fields-joined texts words)
        ∙ parse_parts-texts q (t ∷ ts) l v h)

-- The reply to a query with the port `q`, as the value of an entry in a settings file, has the
-- targets of the record in their order, with `q` in place of a port 0, where all of them are IPv4
-- targets and have a port then.
pub entry_targets-build_response :
    (rec : Record) (q : ℕ)
    → q < 65536
    → AllV4 rec.targets
    → All (HasPort q) rec.targets
    → entry_targets (build_response rec q) ≡ some (map (sent q) rec.targets)
unfolding build_response
entry_targets-build_response rec q l v h =
    ap entry_targets (respond-joined q rec.targets (valid rec.targets v))
    ∙ respond-entry q rec.targets l v h
  where
    valid : (ts : List AddrPort) → AllV4 ts → AllValid ts
    valid [] w = tt
    valid (t ∷ ts) w = let (a, b, c, d, v4s) = w.0 in ((λ i. cc (i, v4s.0)), valid ts w.1)
