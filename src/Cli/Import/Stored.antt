-- ===== src/Cli/Import/Stored.antt =====
-- What a repository holds behind an import.
use tsdns.Prelude.{
  ℕ, ◌+◌, ℤ, ◌≡◌, refl, ap, ◌∙◌, Option, none, some, List, [], ◌∷◌, Bytes, if◌then◌else◌, length,
  Result, ok, err, arith,
}
use mathlib.Core.Option
use mathlib.Core.Path.{subst}
use tsdns.Text.Bytes.{equal}
use tsdns.Net.Addr.{AddrPort}
use tsdns.Core.Record.{Record, RecordRepository}
use tsdns.Core.Server.Contract.{Content, Contract}
use tsdns.Importer.{Entry}
use tsdns.Cli.Import.{
  entry_targets, import_record, unless_create_fails, import_entry, import_entries,
}

-- What the last entry for a domain says, or `o` if there is none.
abbrev pub last_content : ℤ → Bytes → List Entry → Option Content → Option Content
last_content i d [] o = o
last_content i d (e ∷ es) o = last_content i d es (
    if equal e.ident d
    then Option.map (λ ts. record { instance_id = i; targets = ts }) (entry_targets e.value)
    else o)

module _ {R : Type 0} (repo : RecordRepository R) (i : ℤ) (laws : Contract repo) where
  open laws use {IsValid, view, Storable}

  -- The repository can store all records of the entries.
  abbrev pub AllStorable : List Entry → Type 0
  AllStorable [] = Unit
  AllStorable (e ∷ es) =
      ((ts : List AddrPort) → entry_targets e.value ≡ some ts → Storable (import_record i e ts))
      × AllStorable es

  -- What an import that succeeded has done.
  abbrev pub IsImported : List Entry → ℕ → R → Result ℕ × R → Type 0
  IsImported es n r x =
      (x.0 ≡ ok (n + length es))
      × IsValid x.1
      × ((d : Bytes) → view x.1 d ≡ last_content i d es (view r d))

  created :
      (x : Result (Unit {0}) × R) (next : R → Result ℕ × R) (m : ℕ)
      → (unless_create_fails repo i x next).0 ≡ ok m
      → (x.0 ≡ ok tt) × ((next x.1).0 ≡ ok m) × (next x.1 ≡ unless_create_fails repo i x next)
  created (err e, r) next m h = absurd (cc h)
  created (ok _, r) next m h = (refl, h, refl)

  -- What the first of the entries, with the targets `o`, and the entries behind it have done.
  abbrev IsStep : Option (List AddrPort) → Entry → List Entry → ℕ → R → Result ℕ × R → Type 0
  IsStep o e es n r x =
      (x.0 ≡ ok (n + length (e ∷ es)))
      × IsValid x.1
      × ((d : Bytes)
          → view x.1 d
            ≡ last_content i d es (
                if equal e.ident d
                then Option.map (λ ts. record { instance_id = i; targets = ts }) o
                else view r d))

  step :
      (o : Option (List AddrPort)) (e : Entry) (es : List Entry) (n m : ℕ) (r : R)
      → IsValid r
      → ((ts : List AddrPort) → o ≡ some ts → Storable (import_record i e ts))
      → ((r' : R)
          → IsValid r'
          → (import_entries repo i es (n + 1) r').0 ≡ ok m
          → IsImported es (n + 1) r' (import_entries repo i es (n + 1) r'))
      → (import_entry repo i o e (import_entries repo i es (n + 1)) r).0 ≡ ok m
      → IsStep o e es n r (import_entry repo i o e (import_entries repo i es (n + 1)) r)
  step none e es n m r v s ih h = absurd (cc h)
  step (some ts) e es n m r v s ih h =
      let rec : Record = import_record i e ts in
      let (done, behind, same) =
        created (repo.create (some rec) r) (import_entries repo i es (n + 1)) m h in
      let (count, valid, held) =
        ih (repo.create (some rec) r).1 (laws.create_keeps r rec (s ts refl) v) behind in
      subst (IsStep (some ts) e es n r) same (
        count ∙ ap ok (omega arith),
        valid,
        λ d. held d ∙ ap (last_content i d es) (laws.create_view r rec d v (s ts refl) done),
      )

  -- If an import succeeds, in a valid state of a repository that meets the contract and can store the
  -- records of all entries, it has imported all of them, the state is valid, and the repository holds
  -- for each domain what the last entry for it says, and for a domain without an entry what it held
  -- before.
  pub import_entries-IsImported :
      (es : List Entry) (n m : ℕ) (r : R)
      → IsValid r
      → AllStorable es
      → (import_entries repo i es n r).0 ≡ ok m
      → IsImported es n r (import_entries repo i es n r)
  unfolding import_entries
  import_entries-IsImported [] n m r v s h = (ap ok (omega arith), v, λ d. refl)
  import_entries-IsImported (e ∷ es) n m r v s h =
      step (entry_targets e.value) e es n m r v s.0
        (λ r' v' h'. import_entries-IsImported es (n + 1) m r' v' s.1 h') h
