-- ===== src/Repository/Sql/Storage.antt =====
-- The SQL repository meets the contract of the server, where the database meets its laws.
use tsdns.Prelude.{
  ℕ, ℤ, ◌≡◌, refl, sym, ap, ◌∙◌, Option, none, some, List, Bytes, if◌then◌else◌, Result, ok, err,
  All, Bool-cases, inl, inr,
}
use mathlib.Core.Option
use mathlib.Core.Path.{subst}
use tsdns.Text.Bytes.{equal}
use tsdns.Core.Record.{Record}
use tsdns.Core.Cache.Contents.{last_record}
use tsdns.Core.Server.Contract.{Content, content_of, unless_instance, Contract}
use tsdns.Repository.Sql.Statements.{RecordModel, Database, rows_of, IsGroup, TableLaws}
use tsdns.Repository.Sql.{
  group_models, found_rows, rows_affected, dropped, find, create, delete, delete_by_instance_id,
  sql_repository,
}
use tsdns.Repository.Sql.Grouping.{last_record-group_models}
use tsdns.Repository.Sql.Atomic.{create-AreRowsOf, create_cases}
use tsdns.Repository.Sql.Rows.{
  IsGrouped, rows_of-without_domain, rows_of-without_instance, rows_of-replaced, replaced-IsGrouped,
  without_domain-IsGrouped,
}
use tsdns.Repository.Sql.Contents.{
  IsKept, stored_content, stored_content-AreRowsOf, without_instance-IsGroup,
  stored_content-without_instance,
}

found_rows-ok :
    (selected : Result (List RecordModel)) (rs : List Record)
    → found_rows selected ≡ ok rs
    → (ms : List RecordModel) × (selected ≡ ok ms) × (group_models ms ≡ rs)
unfolding found_rows
found_rows-ok (err e) rs h = absurd (cc h)
found_rows-ok (ok ms) rs h = (ms, refl, cc h)

rows_affected-ok : (x : Result (Result ℕ)) → rows_affected x ≡ ok tt → (n : Result ℕ) × (x ≡ ok n)
unfolding rows_affected
rows_affected-ok (err e) h = absurd (cc h)
rows_affected-ok (ok n) h = (n, refl)

dropped-ok : (x : Result ℕ) → dropped x ≡ ok tt → (n : ℕ) × (x ≡ ok n)
unfolding dropped
dropped-ok (err e) h = absurd (cc h)
dropped-ok (ok n) h = (n, refl)

module _ {D : Type 0} (db : Database D) (laws : TableLaws db) where
  open laws use {rows}

  abbrev pub IsValid : D → Type 0
  IsValid d = IsGrouped (rows d)

  -- What the table holds for a domain.
  abbrev pub view : D → Bytes → Option Content
  view d domain = stored_content (rows_of domain (rows d))

  pub find_view :
      (d : D) (rs : List Record) (domain : Bytes)
      → IsValid d
      → (find db d).0 ≡ ok rs
      → Option.map content_of (last_record domain rs) ≡ view d domain
  unfolding find
  find_view d rs domain v h =
      let (ms, selected, grouped) = found_rows-ok (db.select_all d).0 rs h in
      ap (λ x. Option.map content_of (last_record domain x)) (sym grouped)
      ∙ ap (Option.map content_of) (last_record-group_models ms domain)
      ∙ ap stored_content (laws.select_all_order d ms domain selected (v domain))

  pub create_keeps : (d : D) (rec : Record) → IsValid d → IsValid (create db (some rec) d).1
  create_keeps d rec v = elim (create_cases db laws rec d) [
    | inl kept ↦ subst IsGrouped (sym kept) v
    | inr (ms, are, put) ↦
        subst IsGrouped (sym put) (replaced-IsGrouped rec rec.targets (rows d) ms are v)
  ]

  pub create_view :
      (d : D) (rec : Record) (domain : Bytes)
      → All IsKept rec.targets
      → (create db (some rec) d).0 ≡ ok tt
      → view (create db (some rec) d).1 domain
        ≡ (if equal rec.domain domain then some (content_of rec) else view d domain)
  create_view d rec domain k h =
      let (ms, are, put) = create-AreRowsOf db laws rec d h in
      let replaced =
        ap (rows_of domain) put ∙ rows_of-replaced rec rec.targets domain (rows d) ms are in
      ap stored_content replaced ∙ elim (Bool-cases (equal rec.domain domain)) [
        | inl own ↦ rw own (stored_content-AreRowsOf rec rec.targets ms k are)
        | inr other ↦ rw other
      ]

  pub delete_rows :
      (x : Result (Result ℕ)) (d : D) (domain : Bytes)
      → (db.delete_domain domain d).0 ≡ x
      → IsGrouped (rows d)
      → IsGrouped (rows (db.delete_domain domain d).1)
  delete_rows (err e) d domain h v = subst IsGrouped (sym (laws.delete_domain_err d domain e h)) v
  delete_rows (ok n) d domain h v =
      subst IsGrouped (sym (laws.delete_domain_ok d domain n h))
        (without_domain-IsGrouped domain (rows d) v)

  pub delete_view :
      (d : D) (domain other : Bytes)
      → (delete db domain d).0 ≡ ok tt
      → view (delete db domain d).1 other ≡ (if equal domain other then none else view d other)
  unfolding delete
  delete_view d domain other h =
      let (n, gone) = rows_affected-ok (db.delete_domain domain d).0 h in
      ap (λ r. stored_content (rows_of other r)) (laws.delete_domain_ok d domain n gone)
      ∙ ap stored_content (rows_of-without_domain domain other (rows d))
      ∙ elim (Bool-cases (equal domain other)) [ inl own ↦ rw own | inr kept ↦ rw kept ]

  pub delete_instance_rows :
      (x : Result ℕ) (d : D) (i : ℤ)
      → (db.delete_instance i d).0 ≡ x
      → IsGrouped (rows d)
      → IsGrouped (rows (db.delete_instance i d).1)
  delete_instance_rows (err e) d i h v = subst IsGrouped (sym (laws.delete_instance_err d i e h)) v
  delete_instance_rows (ok n) d i h v =
      subst IsGrouped (sym (laws.delete_instance_ok d i n h)) (λ domain.
        subst IsGroup (sym (rows_of-without_instance i domain (rows d)))
          (without_instance-IsGroup i (rows_of domain (rows d)) (v domain)))

  pub delete_instance_view :
      (d : D) (i : ℤ) (domain : Bytes)
      → IsValid d
      → (delete_by_instance_id db i d).0 ≡ ok tt
      → view (delete_by_instance_id db i d).1 domain ≡ unless_instance i (view d domain)
  unfolding delete_by_instance_id
  delete_instance_view d i domain v h =
      let (n, gone) = dropped-ok (db.delete_instance i d).0 h in
      ap (λ r. stored_content (rows_of domain r)) (laws.delete_instance_ok d i n gone)
      ∙ ap stored_content (rows_of-without_instance i domain (rows d))
      ∙ stored_content-without_instance i (rows_of domain (rows d)) (v domain)

  -- The laws of the contract, one for each method.
  unfoldable pub sql_contract : Contract (sql_repository db)
  unfolding find delete delete_by_instance_id
  sql_contract = record {
    IsValid = IsValid;
    view = view;
    Storable = λ rec. All IsKept rec.targets;
    find_keeps = λ d v. subst IsGrouped (sym (laws.select_all_keeps d)) v;
    create_keeps = λ d rec k v. create_keeps d rec v;
    delete_keeps = λ d domain v. delete_rows (db.delete_domain domain d).0 d domain refl v;
    delete_by_instance_id_keeps =
        λ d i v. delete_instance_rows (db.delete_instance i d).0 d i refl v;
    find_view = find_view;
    create_view = λ d rec domain v k h. create_view d rec domain k h;
    delete_view = λ d domain other v h. delete_view d domain other h;
    delete_by_instance_id_view = delete_instance_view;
  }

  -- In a table whose domains are groups, if `Create` succeeds for a record whose addresses are read
  -- back from their texts, and `Find` succeeds behind it, then `Find` returns the record's instance
  -- and targets for its domain, and for every other domain what the table held before; where the
  -- database meets the laws of its statements.
  pub find-create :
      (d : D) (rec : Record) (rs : List Record) (domain : Bytes)
      → IsValid d
      → All IsKept rec.targets
      → (create db (some rec) d).0 ≡ ok tt
      → (find db (create db (some rec) d).1).0 ≡ ok rs
      → Option.map content_of (last_record domain rs)
        ≡ (if equal rec.domain domain then some (content_of rec) else view d domain)
  find-create d rec rs domain v k created found =
      find_view (create db (some rec) d).1 rs domain (create_keeps d rec v) found
      ∙ create_view d rec domain k created

  -- In a table whose domains are groups, if `DeleteByInstanceID` succeeds, and `Find` behind it, then
  -- `Find` returns what the table held before for each domain, but nothing for a domain of the
  -- instance; where the database meets the laws of its statements.
  pub find-delete_by_instance_id :
      (d : D) (i : ℤ) (rs : List Record) (domain : Bytes)
      → IsValid d
      → (delete_by_instance_id db i d).0 ≡ ok tt
      → (find db (delete_by_instance_id db i d).1).0 ≡ ok rs
      → Option.map content_of (last_record domain rs) ≡ unless_instance i (view d domain)
  unfolding sql_contract
  find-delete_by_instance_id d i rs domain v deleted found =
      let keeps = sql_contract.delete_by_instance_id_keeps d i v in
      find_view (delete_by_instance_id db i d).1 rs domain keeps found
      ∙ delete_instance_view d i domain v deleted
