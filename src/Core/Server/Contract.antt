-- ===== src/Core/Server/Contract.antt =====
-- What the server relies on a repository for: a map from domains to what is stored for them. The
-- backends of repository/ are to meet it.
use tsdns.Prelude.{ℤ, ◌==ℤ◌, ◌≡◌, Option, none, some, List, Bytes, if◌then◌else◌, ok}
use mathlib.Core.Option
use tsdns.Text.Bytes.{equal}
use tsdns.Net.Addr.{AddrPort}
use tsdns.Core.Record.{Record, RecordRepository}
use tsdns.Core.Cache.Contents.{last_record}

-- What a repository keeps of a record besides its domain, its number and its times.
pub record Content : Type 0 where
  pub instance_id : ℤ
  pub targets : List AddrPort

abbrev pub content_of : Record → Content
content_of r = record { instance_id = r.instance_id; targets = r.targets }

-- What is left of an entry when the records of an instance are deleted.
abbrev pub unless_instance : ℤ → Option Content → Option Content
unless_instance i none = none
unless_instance i (some c) = if c.instance_id ==ℤ i then none else some c

-- `view r d` is what is stored for the domain `d`. `IsValid` is the backend's own invariant, which
-- every call keeps, also one that fails. A record is `Storable` if the backend's encoding keeps its
-- content. A call that succeeds has the effect that is stated.
pub record Contract {R : Type 0} (repo : RecordRepository R) : Type 1 where
  pub IsValid : R → Type 0
  pub view : R → Bytes → Option Content
  pub Storable : Record → Type 0
  pub find_keeps : (r : R) → IsValid r → IsValid (repo.find r).1
  pub create_keeps :
      (r : R) (rec : Record) → Storable rec → IsValid r → IsValid (repo.create (some rec) r).1
  pub delete_keeps : (r : R) (domain : Bytes) → IsValid r → IsValid (repo.delete domain r).1
  pub delete_by_instance_id_keeps :
      (r : R) (i : ℤ) → IsValid r → IsValid (repo.delete_by_instance_id i r).1
  pub find_view :
      (r : R) (rs : List Record) (d : Bytes)
      → IsValid r
      → (repo.find r).0 ≡ ok rs
      → Option.map content_of (last_record d rs) ≡ view r d
  pub create_view :
      (r : R) (rec : Record) (d : Bytes)
      → IsValid r
      → Storable rec
      → (repo.create (some rec) r).0 ≡ ok tt
      → view (repo.create (some rec) r).1 d
        ≡ (if equal rec.domain d then some (content_of rec) else view r d)
  pub delete_view :
      (r : R) (domain d : Bytes)
      → IsValid r
      → (repo.delete domain r).0 ≡ ok tt
      → view (repo.delete domain r).1 d ≡ (if equal domain d then none else view r d)
  pub delete_by_instance_id_view :
      (r : R) (i : ℤ) (d : Bytes)
      → IsValid r
      → (repo.delete_by_instance_id i r).0 ≡ ok tt
      → view (repo.delete_by_instance_id i r).1 d ≡ unless_instance i (view r d)
