-- ===== src/Repository/Sql/Rows.antt =====
-- The rows of one domain in a table that statements changed.
use tsdns.Prelude.{
  ℕ, suc, ℤ, ◌<◌, ◌≡◌, refl, sym, ap, ◌∙◌, List, [], ◌∷◌, ◌++◌, append-nil, Bytes, if◌then◌else◌,
  All, arith, Bool-cases, inl, inr,
}
use mathlib.Core.Path.{subst}
use tsdns.Text.Bytes.{equal, equal_iff}
use tsdns.Net.Addr.{AddrPort}
use tsdns.Core.Record.{Record}
use tsdns.Repository.Sql.Statements.{
  RecordModel, rows_of, without_domain, without_instance, IsGroup,
}
use tsdns.Repository.Sql.Writing.{AreRows, AreRowsOf}

-- A table in which the rows of each domain are a group.
abbrev pub IsGrouped : List RecordModel → Type 0
IsGrouped rows = (domain : Bytes) → IsGroup (rows_of domain rows)

rows_of-append :
    (d : Bytes) (xs ys : List RecordModel) → rows_of d (xs ++ ys) ≡ rows_of d xs ++ rows_of d ys
rows_of-append d [] ys = refl
rows_of-append d (x ∷ xs) ys = ground (arith, rows_of-append d xs ys)

pub rows_of-without_domain :
    (domain d : Bytes) (xs : List RecordModel)
    → rows_of d (without_domain domain xs) ≡ (if equal domain d then [] else rows_of d xs)
rows_of-without_domain domain d [] = ground arith
rows_of-without_domain domain d (x ∷ xs) =
    let rest = rows_of-without_domain domain d xs in
    elim (Bool-cases (equal x.domain domain)) [
      | inl gone ↦
          let same = ap (λ y. equal y d) ((equal_iff x.domain domain).0 gone) in
          ground (arith, rest, same)
      | inr kept ↦ ground (arith, rest, (equal_iff x.domain d).0, (equal_iff domain d).0)
    ]

pub rows_of-without_instance :
    (i : ℤ) (d : Bytes) (xs : List RecordModel)
    → rows_of d (without_instance i xs) ≡ without_instance i (rows_of d xs)
rows_of-without_instance i d [] = refl
rows_of-without_instance i d (x ∷ xs) = ground (arith, rows_of-without_instance i d xs)

abbrev AreOf : Bytes → List RecordModel → Type 0
AreOf domain = All (λ m. m.domain ≡ domain)

rows_of-AreOf :
    (domain d : Bytes) (ms : List RecordModel)
    → AreOf domain ms
    → rows_of d ms ≡ (if equal domain d then ms else [])
rows_of-AreOf domain d [] h = ground arith
rows_of-AreOf domain d (m ∷ ms) h =
    let same = ap (λ y. equal y d) h.0 in ground (arith, rows_of-AreOf domain d ms h.1, same)

AreRows-AreOf :
    (rec : Record) (i : ℕ) (ts : List AddrPort) (ms : List RecordModel)
    → AreRows rec i ts ms
    → AreOf rec.domain ms
AreRows-AreOf rec i [] [] h = tt
AreRows-AreOf rec i [] (m ∷ ms) h = absurd h
AreRows-AreOf rec i (t ∷ ts) [] h = absurd h
AreRows-AreOf rec i (t ∷ ts) (m ∷ ms) h = (h.0.domain, AreRows-AreOf rec (suc i) ts ms h.1)

AreRowsOf-AreOf :
    (rec : Record) (ts : List AddrPort) (ms : List RecordModel)
    → AreRowsOf rec ts ms
    → AreOf rec.domain ms
AreRowsOf-AreOf rec [] [] h = absurd h
AreRowsOf-AreOf rec [] (m ∷ []) h = (h.domain, tt)
AreRowsOf-AreOf rec [] (m ∷ x ∷ ms) h = absurd h
AreRowsOf-AreOf rec (t ∷ ts) ms h = AreRows-AreOf rec 0 (t ∷ ts) ms h

-- Behind priority `n` and of the instance `j`.
abbrev AreBehind : ℕ → ℤ → List RecordModel → Type 0
AreBehind n j = All (λ x. (n < x.priority) × (x.instance_id ≡ j))

AreRows-AreBehind :
    (rec : Record) (n i : ℕ) (ts : List AddrPort) (ms : List RecordModel)
    → n < i
    → AreRows rec i ts ms
    → AreBehind n rec.instance_id ms
AreRows-AreBehind rec n i [] [] l h = tt
AreRows-AreBehind rec n i [] (m ∷ ms) l h = absurd h
AreRows-AreBehind rec n i (t ∷ ts) [] l h = absurd h
AreRows-AreBehind rec n i (t ∷ ts) (m ∷ ms) l h =
    let first = h.0.priority in
    ((omega arith, h.0.instance_id), AreRows-AreBehind rec n (suc i) ts ms (omega arith) h.1)

AreRows-IsGroup :
    (rec : Record) (i : ℕ) (ts : List AddrPort) (ms : List RecordModel)
    → AreRows rec i ts ms
    → IsGroup ms
AreRows-IsGroup rec i [] [] h = tt
AreRows-IsGroup rec i [] (m ∷ ms) h = absurd h
AreRows-IsGroup rec i (t ∷ ts) [] h = absurd h
AreRows-IsGroup rec i (t ∷ ts) (m ∷ ms) h =
    let behind = AreRows-AreBehind rec i (suc i) ts ms (omega arith) h.1 in
    (
      subst (λ j. AreBehind m.priority j ms) (sym h.0.instance_id)
          (subst (λ n. AreBehind n rec.instance_id ms) (sym h.0.priority) behind),
      AreRows-IsGroup rec (suc i) ts ms h.1,
    )

AreRowsOf-IsGroup :
    (rec : Record) (ts : List AddrPort) (ms : List RecordModel) → AreRowsOf rec ts ms → IsGroup ms
AreRowsOf-IsGroup rec [] [] h = tt
AreRowsOf-IsGroup rec [] (m ∷ []) h = (tt, tt)
AreRowsOf-IsGroup rec [] (m ∷ x ∷ ms) h = absurd h
AreRowsOf-IsGroup rec (t ∷ ts) ms h = AreRows-IsGroup rec 0 (t ∷ ts) ms h

-- The rows of a domain behind a `Create` that succeeded.
pub rows_of-replaced :
    (rec : Record) (ts : List AddrPort) (d : Bytes) (xs ms : List RecordModel)
    → AreRowsOf rec ts ms
    → rows_of d (without_domain rec.domain xs ++ ms)
      ≡ (if equal rec.domain d then ms else rows_of d xs)
rows_of-replaced rec ts d xs ms h =
    let others = rows_of-without_domain rec.domain d xs in
    let own = rows_of-AreOf rec.domain d ms (AreRowsOf-AreOf rec ts ms h) in
    rows_of-append d (without_domain rec.domain xs) ms
    ∙ ground (arith, others, own, append-nil (rows_of d xs))

pub replaced-IsGrouped :
    (rec : Record) (ts : List AddrPort) (xs ms : List RecordModel)
    → AreRowsOf rec ts ms
    → IsGrouped xs
    → IsGrouped (without_domain rec.domain xs ++ ms)
replaced-IsGrouped rec ts xs ms h v d =
    subst IsGroup (sym (rows_of-replaced rec ts d xs ms h))
      (elim (Bool-cases (equal rec.domain d)) [
        | inl own ↦ rw own (AreRowsOf-IsGroup rec ts ms h)
        | inr other ↦ rw other (v d)
      ])

pub without_domain-IsGrouped :
    (domain : Bytes) (xs : List RecordModel) → IsGrouped xs → IsGrouped (without_domain domain xs)
without_domain-IsGrouped domain xs v d =
    subst IsGroup (sym (rows_of-without_domain domain d xs))
      (elim (Bool-cases (equal domain d)) [ inl own ↦ rw own tt | inr other ↦ rw other (v d) ])
