-- ===== src/Cli/Import.antt =====
-- `importEntries` of internal/cli/import.go: the entries of a settings file into a repository.
pub mod Stored
pub mod Command
pub mod Imported
pub mod Fields
pub mod Replies
use tsdns.Prelude.{
  ℕ, zero, suc, ◌+◌, ℤ, pos, Bool, true, false, Option, none, some, List, [], ◌∷◌, ◌++◌, Bytes,
  if◌then◌else◌, ◌>>=◌, Result, ok, err, Error, other,
}
use tsdns.Text.Bytes.{codes, replace_byte}
use tsdns.Text.Space.{space_width}
use tsdns.Net.Addr.{AddrPort}
use tsdns.Core.Record.{Record, RecordRepository}
use tsdns.Api.Targets.{equal_fold, parse_target}
use tsdns.Importer.{Entry}

abbrev flush : Bytes → List Bytes → List Bytes
flush [] fs = fs
flush (c ∷ cur) fs = (c ∷ cur) ∷ fs

-- `strings.FieldsSeq` behind the bytes `cur` of a field; `k` bytes of a space are still to be skipped.
unfoldable pub fields_from : ℕ → Bytes → Bytes → List Bytes
fields_from k cur [] = flush cur []
fields_from (suc k) cur (c ∷ s) = fields_from k cur s
fields_from zero cur (c ∷ s) = elim (space_width (c ∷ s)) [
  | zero ↦ fields_from zero (cur ++ c ∷ []) s
  | suc w ↦ flush cur (fields_from w [] s)
]

unfoldable pub fields : Bytes → List Bytes
unfolding fields_from
fields = fields_from 0 []

-- The loop over the parts; a part without a port has port 0.
unfoldable pub parse_parts : List Bytes → Option (List AddrPort)
parse_parts [] = some []
parse_parts (p ∷ ps) = do t ← parse_target (pos 0) p; ts ← parse_parts ps; some (t ∷ ts)

-- The targets of a value, of which commas and white space separate the parts.
unfoldable pub entry_targets : Bytes → Option (List AddrPort)
unfolding parse_parts fields
entry_targets [] = some []
entry_targets (c ∷ value) =
    if equal_fold (codes "NORESPONSE") (c ∷ value)
    then some []
    else parse_parts (fields (replace_byte b',' b' ' (c ∷ value)))

abbrev pub import_record : ℤ → Entry → List AddrPort → Record
import_record instance_id e targets = record {
  id = pos 0;
  instance_id = instance_id;
  domain = e.ident;
  targets = targets;
  created_at = 0;
  updated_at = 0;
  deleted_at = none;
}

-- The error of a part that is no address; the texts around errors are left out.
abbrev pub invalid_part : Error
invalid_part = other (codes "invalid IP")

module _ {R : Type 0} (repo : RecordRepository R) (instance_id : ℤ) where
  -- The return on an error of `Create`.
  abbrev pub unless_create_fails : Result (Unit {0}) × R → (R → Result ℕ × R) → Result ℕ × R
  unless_create_fails (err e, r) next = (err e, r)
  unless_create_fails (ok _, r) next = next r

  -- One round, behind the parsing of the value.
  abbrev pub import_entry : Option (List AddrPort) → Entry → (R → Result ℕ × R) → R → Result ℕ × R
  import_entry none e next r = (err invalid_part, r)
  import_entry (some targets) e next r =
      unless_create_fails (repo.create (some (import_record instance_id e targets)) r) next

  -- The loop, where `imported` entries were imported before.
  unfoldable pub import_entries : List Entry → ℕ → R → Result ℕ × R
  import_entries [] imported r = (ok imported, r)
  import_entries (e ∷ es) imported r =
      import_entry (entry_targets e.value) e (import_entries es (imported + 1)) r
