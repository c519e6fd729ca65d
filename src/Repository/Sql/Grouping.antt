-- ===== src/Repository/Sql/Grouping.antt =====
-- `groupModels`: the record of a domain is made of the domain's rows, in their order.
use tsdns.Prelude.{
  Bool, true, false, ◌||◌, ◌≡◌, refl, sym, ap, ◌∙◌, Option, none, some, List, [], ◌∷◌, ◌++◌, Bytes,
  if◌then◌else◌, get_or, arith, Bool-cases, Option-cases, inl, inr,
}
use mathlib.Core.Option.{some-injective}
use tsdns.Maps.{BytesMap, lookup, lookup-insert}
use tsdns.Text.Bytes.{equal, equal_iff}
use tsdns.Net.Addr.{Addr}
use tsdns.Net.AddrPort.{parse_addr}
use tsdns.Core.Record.{Record}
use tsdns.Core.Cache.Contents.{last_record}
use tsdns.Repository.Sql.Statements.{RecordModel, rows_of}
use tsdns.Repository.Sql.{
  new_group, add_addr, add_ip, add_target, Groups, put_row, group_row, group_rows, collect,
  no_groups, group_models,
}

-- The record that `o` becomes by rows of its domain.
abbrev pub extend : Option Record → List RecordModel → Option Record
extend o [] = o
extend o (m ∷ ms) = extend (some (add_target m (get_or o (new_group m)))) ms

abbrev mem : Bytes → List Bytes → Bool
mem d [] = false
mem d (x ∷ xs) = equal x d || mem d xs

mem-append : (d x : Bytes) (xs : List Bytes) → mem d (xs ++ x ∷ []) ≡ (mem d xs || equal x d)
mem-append d x [] = ground arith
mem-append d x (y ∷ ys) = ground (arith, mem-append d x ys)

-- Every record stands under its own domain, and the domains are listed.
record IsSound (g : Groups) : Type 0 where
  keyed : (d : Bytes) (r : Record) → lookup d g.groups ≡ some r → r.domain ≡ d
  listed : (d : Bytes) → mem d g.order ≡ false → lookup d g.groups ≡ none

add_target-domain : (m : RecordModel) (r : Record) → (add_target m r).domain ≡ r.domain
unfolding add_target add_ip add_addr
add_target-domain m r = add_ip-domain m.ip
  where
    add_addr-domain : (o : Option Addr) → (add_addr o m.port r).domain ≡ r.domain
    add_addr-domain none = refl
    add_addr-domain (some a) = refl

    add_ip-domain : (ip : Bytes) → (add_ip ip m.port r).domain ≡ r.domain
    add_ip-domain [] = refl
    add_ip-domain (c ∷ ip) = add_addr-domain (parse_addr (c ∷ ip))

put_row-lookup :
    (o : Option Record) (m : RecordModel) (g : Groups) (d : Bytes)
    → lookup d (put_row o m g).groups ≡ (
        if equal m.domain d
        then some (add_target m (get_or o (new_group m)))
        else lookup d g.groups)
unfolding put_row
put_row-lookup none m g d = lookup-insert m.domain d (add_target m (new_group m)) g.groups
put_row-lookup (some r) m g d = lookup-insert m.domain d (add_target m r) g.groups

put_row-listed :
    (o : Option Record) (m : RecordModel) (g : Groups) (d : Bytes)
    → IsSound g
    → lookup m.domain g.groups ≡ o
    → mem d (put_row o m g).order ≡ false
    → (equal m.domain d ≡ false) × (lookup d g.groups ≡ none)
unfolding put_row
put_row-listed none m g d s e h = ground (arith, mem-append d m.domain g.order, s.listed d)
put_row-listed (some r) m g d s e h =
    let absent = s.listed d h in
    (
      ground (arith, (equal_iff m.domain d).0, λ (q : m.domain ≡ d). ap (λ x. lookup x g.groups) q),
      absent,
    )

-- The domain of the record that a row makes of the group of its domain.
extended-domain :
    (o : Option Record) (m : RecordModel)
    → ((r : Record) → o ≡ some r → r.domain ≡ m.domain)
    → (add_target m (get_or o (new_group m))).domain ≡ m.domain
extended-domain none m k = add_target-domain m (new_group m) ∙ unfold new_group in refl
extended-domain (some r) m k = add_target-domain m r ∙ k r refl

group_row-IsSound : (g : Groups) (m : RecordModel) → IsSound g → IsSound (group_row g m)
unfolding group_row
group_row-IsSound g m s = record { keyed = keyed; listed = listed }
  where
    o : Option Record
    o = lookup m.domain g.groups

    keyed : (d : Bytes) (r : Record) → lookup d (put_row o m g).groups ≡ some r → r.domain ≡ d
    keyed d r e = elim (Bool-cases (equal m.domain d)) [
      | inl own ↦
          let next : Record = add_target m (get_or o (new_group m)) in
          let row : lookup d (put_row o m g).groups ≡ some next = put_row-lookup o m g d ∙ rw own in
          ap (λ (x : Record). x.domain) (sym (some-injective next r (sym row ∙ e)))
          ∙ extended-domain o m (s.keyed m.domain)
          ∙ (equal_iff m.domain d).0 own
      | inr other ↦
          let row : lookup d (put_row o m g).groups ≡ lookup d g.groups =
            put_row-lookup o m g d ∙ rw other in
          s.keyed d r (sym row ∙ e)
    ]

    listed :
        (d : Bytes) → mem d (put_row o m g).order ≡ false → lookup d (put_row o m g).groups ≡ none
    listed d h =
        let (other, absent) = put_row-listed o m g d s refl h in
        put_row-lookup o m g d ∙ rw (other, absent)

group_rows-IsSound : (g : Groups) (ms : List RecordModel) → IsSound g → IsSound (group_rows g ms)
unfolding group_rows
group_rows-IsSound g [] s = s
group_rows-IsSound g (m ∷ ms) s = group_rows-IsSound (group_row g m) ms (group_row-IsSound g m s)

no_groups-IsSound : IsSound no_groups
unfolding lookup
no_groups-IsSound = record { keyed = λ d r e. cc e; listed = λ d h. refl }

group_rows-lookup :
    (g : Groups) (ms : List RecordModel) (d : Bytes)
    → lookup d (group_rows g ms).groups ≡ extend (lookup d g.groups) (rows_of d ms)
unfolding group_rows group_row
group_rows-lookup g [] d = refl
group_rows-lookup g (m ∷ ms) d =
    let later = group_rows-lookup (group_row g m) ms d in
    let row = put_row-lookup (lookup m.domain g.groups) m g d in
    elim (Bool-cases (equal m.domain d)) [
      | inl own ↦
          let same = ap (λ x. lookup x g.groups) ((equal_iff m.domain d).0 own) in
          let next : Record = add_target m (get_or (lookup d g.groups) (new_group m)) in
          let put : lookup d (put_row (lookup m.domain g.groups) m g).groups ≡ some next =
            row ∙ rw (own, same) in
          later ∙ ap (λ o. extend o (rows_of d ms)) put ∙ rw own
      | inr other ↦
          let put : lookup d (put_row (lookup m.domain g.groups) m g).groups ≡ lookup d g.groups =
            row ∙ rw other in
          later ∙ ap (λ o. extend o (rows_of d ms)) put ∙ rw other
    ]

-- The group of a domain, and the last record for it among the groups.
collect-last_record :
    (order : List Bytes) (groups : BytesMap Record) (d : Bytes)
    → ((x : Bytes) (r : Record) → lookup x groups ≡ some r → r.domain ≡ x)
    → last_record d (collect order groups) ≡ (if mem d order then lookup d groups else none)
unfolding collect
collect-last_record [] groups d k = refl
collect-last_record (x ∷ order) groups d k =
    let rest = collect-last_record order groups d k in
    let same = λ (e : equal x d ≡ true). ap (λ y. lookup y groups) ((equal_iff x d).0 e) in
    elim (Option-cases (lookup x groups)) [
      | inl absent ↦ ground (arith, rest, same)
      | inr (r, e) ↦ let named = ap (λ y. equal y d) (k x r e) in ground (arith, rest, named, same)
    ]

-- Of all records that `groupModels` makes, the last one for a domain is made of the domain's rows,
-- in the order in which they were selected.
pub last_record-group_models :
    (ms : List RecordModel) (d : Bytes)
    → last_record d (group_models ms) ≡ extend none (rows_of d ms)
unfolding group_models
last_record-group_models ms d =
    let g = group_rows no_groups ms in
    let s = group_rows-IsSound no_groups ms no_groups-IsSound in
    let stored : lookup d g.groups ≡ extend none (rows_of d ms) =
      group_rows-lookup no_groups ms d
      ∙ ap (λ o. extend o (rows_of d ms)) (no_groups-IsSound.listed d refl) in
    let listed = s.listed d in
    collect-last_record g.order g.groups d s.keyed ∙ ground (arith, listed) ∙ stored
