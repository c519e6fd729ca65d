-- ===== src/Repository/Sql/Contents.antt =====
-- What the rows of a domain say of its record.
use tsdns.Prelude.{
  ℕ, suc, ◌<◌, ℤ, ◌==ℤ◌, Bool, ◌≡◌, ◌≢◌, refl, sym, ap, ◌∙◌, Option, none, some, List, [], ◌∷◌,
  ◌++◌, append_assoc, append-nil, Bytes, if◌then◌else◌, All, arith, Bool-cases, inl, inr,
}
use mathlib.Core.Option
use mathlib.Core.Path.{subst}
use tsdns.Net.Addr.{Addr, AddrPort, IsV4}
use tsdns.Net.V4.{show_v4}
use tsdns.Net.AddrPort.Laws.{parse_addr-show_v4}
use tsdns.Net.AddrPort.{show_addr, parse_addr}
use tsdns.Core.Record.{Record}
use tsdns.Core.Server.Contract.{Content, content_of, unless_instance}
use tsdns.Repository.Sql.Statements.{RecordModel, without_instance, IsGroup}
use tsdns.Repository.Sql.{new_group, add_addr, add_ip, add_target}
use tsdns.Repository.Sql.Grouping.{extend}
use tsdns.Repository.Sql.Writing.{IsRow, AreRows, AreRowsOf}

-- The text of the address is read back as the address.
abbrev pub IsKept : AddrPort → Type 0
IsKept t = (show_addr t.addr ≢ []) × (parse_addr (show_addr t.addr) ≡ some t.addr)

read_text :
    (text : Bytes) (a : Addr) → parse_addr text ≡ some a → (text ≢ []) × (parse_addr text ≡ some a)
unfolding parse_addr
read_text [] a e = absurd (cc e)
read_text (c ∷ text) a e = ((λ x. cc x), e)

-- An IPv4 address is read back from its text.
pub IsKept-IsV4 : (t : AddrPort) (a b c d : ℕ) → IsV4 t a b c d → IsKept t
unfolding show_addr
IsKept-IsV4 t a b c d v =
    let text : show_addr t.addr ≡ show_v4 a b c d = ap show_addr v.0 in
    let read : parse_addr (show_addr t.addr) ≡ some t.addr =
      ap parse_addr text ∙ parse_addr-show_v4 a b c d v.1 v.2 v.3 v.4 ∙ ap some (sym v.0) in
    read_text (show_addr t.addr) t.addr read

-- What the rows of a domain stand for.
abbrev pub stored_content : List RecordModel → Option Content
stored_content ms = Option.map content_of (extend none ms)

add_ip-kept :
    (text : Bytes) (a : Addr) (port : ℕ) (r : Record)
    → text ≢ []
    → parse_addr text ≡ some a
    → add_ip text port r ≡ record r { targets = r.targets ++ record { addr = a; port = port } ∷ [] }
unfolding add_ip add_addr
add_ip-kept [] a port r n e = absurd (n refl)
add_ip-kept (c ∷ text) a port r n e = ap (λ o. add_addr o port r) e

add_target-kept :
    (rec : Record) (t : AddrPort) (i : ℕ) (m : RecordModel) (r : Record)
    → IsKept t
    → IsRow rec (show_addr t.addr) i t.port m
    → add_target m r ≡ record r { targets = r.targets ++ t ∷ [] }
unfolding add_target
add_target-kept rec t i m r k is =
    (λ j. add_ip (is.ip j) (is.port_of j) r)
    ∙ add_ip-kept (show_addr t.addr) t.addr t.port r k.0 k.1

extend-AreRows :
    (rec : Record) (i : ℕ) (ts : List AddrPort) (ms : List RecordModel) (r : Record)
    → All IsKept ts
    → AreRows rec i ts ms
    → Option.map content_of (extend (some r) ms)
      ≡ some (record { instance_id = r.instance_id; targets = r.targets ++ ts })
extend-AreRows rec i [] [] r k h =
    ap (λ ts. some (record { instance_id = r.instance_id; targets = ts }))
      (sym (append-nil r.targets))
extend-AreRows rec i [] (m ∷ ms) r k h = absurd h
extend-AreRows rec i (t ∷ ts) [] r k h = absurd h
extend-AreRows rec i (t ∷ ts) (m ∷ ms) r k h =
    ap (λ (x : Record). Option.map content_of (extend (some x) ms))
      (add_target-kept rec t i m r k.0 h.0)
    ∙ extend-AreRows rec (suc i) ts ms (record r { targets = r.targets ++ t ∷ [] }) k.1 h.1
    ∙ ap (λ xs. some (record { instance_id = r.instance_id; targets = xs }))
        (append_assoc r.targets (t ∷ []) ts)

-- The rows that `Create` writes for a record stand for the record, if its addresses are read back.
pub stored_content-AreRowsOf :
    (rec : Record) (ts : List AddrPort) (ms : List RecordModel)
    → All IsKept ts
    → AreRowsOf rec ts ms
    → stored_content ms ≡ some (record { instance_id = rec.instance_id; targets = ts })
unfolding add_target add_ip new_group
stored_content-AreRowsOf rec [] [] k h = absurd h
stored_content-AreRowsOf rec [] (m ∷ []) k h =
    (λ j. some (content_of (add_ip (h.ip j) m.port (new_group m))))
    ∙ ap (λ i. some (record { instance_id = i; targets = [] })) h.instance_id
stored_content-AreRowsOf rec [] (m ∷ x ∷ ms) k h = absurd h
stored_content-AreRowsOf rec (t ∷ ts) [] k h = absurd h
stored_content-AreRowsOf rec (t ∷ ts) (m ∷ ms) k h =
    ap (λ (x : Record). Option.map content_of (extend (some x) ms))
      (add_target-kept rec t 0 m (new_group m) k.0 h.0)
    ∙ extend-AreRows rec 1 ts ms (record (new_group m) { targets = t ∷ [] }) k.1 h.1
    ∙ ap (λ i. some (record { instance_id = i; targets = t ∷ ts })) h.0.instance_id

add_target-instance : (m : RecordModel) (r : Record) → (add_target m r).instance_id ≡ r.instance_id
unfolding add_target add_ip add_addr
add_target-instance m r = add_ip-instance m.ip
  where
    add_addr-instance : (o : Option Addr) → (add_addr o m.port r).instance_id ≡ r.instance_id
    add_addr-instance none = refl
    add_addr-instance (some a) = refl

    add_ip-instance : (ip : Bytes) → (add_ip ip m.port r).instance_id ≡ r.instance_id
    add_ip-instance [] = refl
    add_ip-instance (c ∷ ip) = add_addr-instance (parse_addr (c ∷ ip))

extend-instance :
    (r : Record) (ms : List RecordModel)
    → (x : Record) × (extend (some r) ms ≡ some x) × (x.instance_id ≡ r.instance_id)
extend-instance r [] = (r, refl, refl)
extend-instance r (m ∷ ms) =
    let (x, e, same) = extend-instance (add_target m r) ms in (x, e, same ∙ add_target-instance m r)

-- A group stands for a record of the instance of its first row.
stored_content-instance :
    (m : RecordModel) (ms : List RecordModel)
    → (c : Content) × (stored_content (m ∷ ms) ≡ some c) × (c.instance_id ≡ m.instance_id)
unfolding new_group
stored_content-instance m ms =
    let (x, e, same) = extend-instance (add_target m (new_group m)) ms in
    (content_of x, ap (Option.map content_of) e, same ∙ add_target-instance m (new_group m))

without_instance-same :
    (i j : ℤ) (ms : List RecordModel)
    → All (λ x. x.instance_id ≡ j) ms
    → without_instance i ms ≡ (if j ==ℤ i then [] else ms)
without_instance-same i j [] h = ground arith
without_instance-same i j (m ∷ ms) h =
    let same = ap (λ k. k ==ℤ i) h.0 in ground (arith, without_instance-same i j ms h.1, same)

behind-same :
    (n : ℕ) (j : ℤ) (ms : List RecordModel)
    → All (λ x. (n < x.priority) × (x.instance_id ≡ j)) ms
    → All (λ x. x.instance_id ≡ j) ms
behind-same n j [] h = tt
behind-same n j (m ∷ ms) h = (h.0.1, behind-same n j ms h.1)

without_instance-group :
    (i : ℤ) (m : RecordModel) (ms : List RecordModel)
    → IsGroup (m ∷ ms)
    → without_instance i (m ∷ ms) ≡ (if m.instance_id ==ℤ i then [] else m ∷ ms)
without_instance-group i m ms g =
    without_instance-same i m.instance_id (m ∷ ms)
      (refl, behind-same m.priority m.instance_id ms g.0)

pub without_instance-IsGroup :
    (i : ℤ) (ms : List RecordModel) → IsGroup ms → IsGroup (without_instance i ms)
without_instance-IsGroup i [] g = tt
without_instance-IsGroup i (m ∷ ms) g =
    subst IsGroup (sym (without_instance-group i m ms g))
      (elim (Bool-cases (m.instance_id ==ℤ i)) [ inl own ↦ rw own tt | inr other ↦ rw other g ])

unless_instance-some :
    (i : ℤ) (c : Content) (j : ℤ) (ms : List RecordModel)
    → stored_content ms ≡ some c
    → c.instance_id ≡ j
    → stored_content (if j ==ℤ i then [] else ms) ≡ unless_instance i (stored_content ms)
unless_instance-some i c j ms e same =
    let test = λ (b : Bool). if b then none else some c in
    let left : unless_instance i (stored_content ms) ≡ test (j ==ℤ i) =
      ap (unless_instance i) e ∙ ap (λ k. test (k ==ℤ i)) same in
    elim (Bool-cases (j ==ℤ i)) [
      | inl own ↦ ap (λ b. stored_content (if b then [] else ms)) own ∙ sym (left ∙ ap test own)
      | inr other ↦
          ap (λ b. stored_content (if b then [] else ms)) other ∙ e ∙ sym (left ∙ ap test other)
    ]

-- Deleting an instance leaves nothing of the groups of that instance, and all of the others.
pub stored_content-without_instance :
    (i : ℤ) (ms : List RecordModel)
    → IsGroup ms
    → stored_content (without_instance i ms) ≡ unless_instance i (stored_content ms)
stored_content-without_instance i [] g = refl
stored_content-without_instance i (m ∷ ms) g =
    let (c, e, same) = stored_content-instance m ms in
    ap stored_content (without_instance-group i m ms g)
    ∙ unless_instance-some i c m.instance_id (m ∷ ms) e same
