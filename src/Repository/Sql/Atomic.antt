-- ===== src/Repository/Sql/Atomic.antt =====
-- `Create`: the rows that its transaction leaves, when it commits and when it rolls back.
use tsdns.Prelude.{
  ◌≡◌, refl, sym, ap, ◌∙◌, ◌⊎◌, inl, inr, some, List, [], ◌∷◌, ◌++◌, Bytes, Result, ok, err,
}
use tsdns.Text.Space.{trim_space}
use tsdns.Core.Record.{Record}
use tsdns.Repository.Sql.Statements.{RecordModel, Database, without_domain, TableLaws}
use tsdns.Repository.Sql.{replace_rows, run_in_tx, create_trimmed, create}
use tsdns.Repository.Sql.Writing.{AreRowsOf, replace_rows-rows}

module _ {D : Type 0} (db : Database D) (laws : TableLaws db) where
  open laws use {rows}

  -- The rows of the record have taken the place of those of its domain.
  abbrev pub IsReplaced : Record → D → D → Type 0
  IsReplaced rec d d' =
      (ms : List RecordModel) × AreRowsOf rec rec.targets ms
      × (rows d' ≡ without_domain rec.domain (rows d) ++ ms)

  -- All of a transaction or nothing of it, by its result: an error of the commit does not tell which.
  abbrev pub IsAtomic : Record → D → Result (Unit {0}) × D → Type 0
  IsAtomic rec d (err e, d') = (rows d' ≡ rows d) ⊎ IsReplaced rec d d'
  IsAtomic rec d (ok _, d') = IsReplaced rec d d'

  -- The end of a transaction, whose function has replaced the rows if it succeeded.
  finish-IsAtomic :
      (rec : Record) (d e : D) (done : Result (Unit {0})) (x : Result (Unit {0}) × D)
      → (done ≡ ok tt → IsReplaced rec d e)
      → db.finish d e done ≡ x
      → IsAtomic rec d x
  finish-IsAtomic rec d e (err y) (err z, d') replaced h =
      inl (ap (λ (x : Result (Unit {0}) × D). rows x.1) (sym h) ∙ (laws.rollback d e y).1)
  finish-IsAtomic rec d e (err y) (ok _, d') replaced h =
      let failed : err y ≡ ok tt =
        sym (laws.rollback d e y).0 ∙ ap (λ (x : Result (Unit {0}) × D). x.0) h in
      absurd (cc failed)
  finish-IsAtomic rec d e (ok _) (ok _, d') replaced h =
      let (ms, are, put) = replaced refl in
      let result = ap (λ (x : Result (Unit {0}) × D). x.0) h in
      (
        ms,
        are,
        ap (λ (x : Result (Unit {0}) × D). rows x.1) (sym h) ∙ laws.commit_ok d e result ∙ put,
      )
  finish-IsAtomic rec d e (ok _) (err z, d') replaced h =
      let state = ap (λ (x : Result (Unit {0}) × D). rows x.1) (sym h) in
      elim (laws.commit_err d e z (ap (λ (x : Result (Unit {0}) × D). x.0) h)) [
        | inl back ↦ inl (state ∙ back)
        | inr taken ↦ let (ms, are, put) = replaced refl in inr (ms, are, state ∙ taken ∙ put)
      ]

  run_in_tx-IsAtomic :
      (begun : Result (Unit {0})) (rec : Record) (d : D) → IsAtomic rec d (run_in_tx db begun rec d)
  unfolding run_in_tx
  run_in_tx-IsAtomic (err e) rec d = inl refl
  run_in_tx-IsAtomic (ok _) rec d =
      let (done, d') = replace_rows db rec d in
      finish-IsAtomic rec d d' done _ (replace_rows-rows db laws rec d) refl

  IsAtomic-begun :
      (rec : Record) (d begun : D) (x : Result (Unit {0}) × D)
      → rows begun ≡ rows d
      → IsAtomic rec begun x
      → IsAtomic rec d x
  IsAtomic-begun rec d begun (err e, d') same (inl back) = inl (back ∙ same)
  IsAtomic-begun rec d begun (err e, d') same (inr (ms, are, put)) =
      inr (ms, are, put ∙ ap (λ r. without_domain rec.domain r ++ ms) same)
  IsAtomic-begun rec d begun (ok _, d') same (ms, are, put) =
      (ms, are, put ∙ ap (λ r. without_domain rec.domain r ++ ms) same)

  create_trimmed-IsAtomic :
      (domain : Bytes) (rec : Record) (d : D) → IsAtomic rec d (create_trimmed db domain rec d)
  unfolding create_trimmed
  create_trimmed-IsAtomic [] rec d = inl refl
  create_trimmed-IsAtomic (c ∷ domain) rec d =
      IsAtomic-begun rec d (db.begin d).1 _ (laws.begin_keeps d)
        (run_in_tx-IsAtomic (db.begin d).0 rec (db.begin d).1)

  -- `Create` of a record, at whichever of its statements it fails, on a database that meets the laws
  -- of its statements: if it succeeds, the rows that the record's domain had are gone, and one row for
  -- each target in their order, or one without an address, stands behind the other rows; if it
  -- returns an error, the table is as it was before, or all of that has been done.
  pub create-IsAtomic : (rec : Record) (d : D) → IsAtomic rec d (create db (some rec) d)
  unfolding create
  create-IsAtomic rec d = create_trimmed-IsAtomic (trim_space rec.domain) rec d

  IsAtomic-ok :
      (rec : Record) (d : D) (x : Result (Unit {0}) × D)
      → x.0 ≡ ok tt
      → IsAtomic rec d x
      → IsReplaced rec d x.1
  IsAtomic-ok rec d (err e, d') h a = absurd (cc h)
  IsAtomic-ok rec d (ok _, d') h a = a

  pub create-AreRowsOf :
      (rec : Record) (d : D)
      → (create db (some rec) d).0 ≡ ok tt
      → IsReplaced rec d (create db (some rec) d).1
  create-AreRowsOf rec d h = IsAtomic-ok rec d (create db (some rec) d) h (create-IsAtomic rec d)

  IsAtomic-either :
      (rec : Record) (d : D) (x : Result (Unit {0}) × D)
      → IsAtomic rec d x
      → (rows x.1 ≡ rows d) ⊎ IsReplaced rec d x.1
  IsAtomic-either rec d (err e, d') a = a
  IsAtomic-either rec d (ok _, d') a = inr a

  -- Whatever `Create` returns, the table is one of two.
  pub create_cases :
      (rec : Record) (d : D)
      → (rows (create db (some rec) d).1 ≡ rows d) ⊎ IsReplaced rec d (create db (some rec) d).1
  create_cases rec d = IsAtomic-either rec d (create db (some rec) d) (create-IsAtomic rec d)
