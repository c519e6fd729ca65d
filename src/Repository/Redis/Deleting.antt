-- ===== src/Repository/Redis/Deleting.antt =====
-- `Delete` and `DeleteByInstanceID` keep the invariant of the store.
use tsdns.Prelude.{
  ℤ, ◌==ℤ◌, ==ℤ_iff, ◌≡◌, sym, ap, ◌∙◌, true, false, Option, none, some, List, Bytes, if◌then◌else◌,
  Bool-cases, inl, inr, arith,
}
use tsdns.Text.Bytes.{equal, equal_iff}
use tsdns.Repository.Redis.Client.{Keys, after_commands, occurs}
use tsdns.Repository.Redis.Encoding.{instance_id_field}
use tsdns.Repository.Redis.Commands.{delete_commands, removal_commands}
use tsdns.Repository.Redis.Writing.{
  field_of, is_owned, deleted_field, deleted_listed, deleted_owned, removed_field, removed_listed,
  removed_owned,
}
use tsdns.Repository.Redis.Indexed.{id_of, is_some, owned_by, id_text, IsListed, IsIndexed}

module _ (prefix : Bytes) where
  module _ (domain : Bytes) (old : ℤ) (ks : Keys) where
    abbrev deleted : Keys
    deleted = after_commands (delete_commands prefix domain old) ks

    deleted_own : (d f : Bytes) → equal domain d ≡ true → field_of prefix deleted d f ≡ none
    deleted_own d f own = deleted_field prefix domain old ks d f ∙ rw own

    deleted_other :
        (d f : Bytes)
        → equal domain d ≡ false
        → field_of prefix deleted d f ≡ field_of prefix ks d f
    deleted_other d f other = deleted_field prefix domain old ks d f ∙ rw other

    deleted-IsListed : IsListed prefix ks → IsListed prefix deleted
    deleted-IsListed v = record {
      whole = λ d f gone. elim (Bool-cases (equal domain d)) [
        | inl own ↦ deleted_own d f own
        | inr other ↦
            deleted_other d f other
            ∙ v.whole d f (sym (deleted_other d instance_id_field other) ∙ gone)
      ];
      listed = λ d. deleted_listed prefix domain old ks d ∙ elim (Bool-cases (equal domain d)) [
        | inl own ↦ rw own (sym (ap is_some (deleted_own d instance_id_field own)))
        | inr other ↦
            rw other (v.listed d ∙ sym (ap is_some (deleted_other d instance_id_field other)))
      ];
      readable = λ d t text. elim (Bool-cases (equal domain d)) [
        | inl own ↦ cc (deleted_own d instance_id_field own, text)
        | inr other ↦ v.readable d t (sym (deleted_other d instance_id_field other) ∙ text)
      ];
    }

    -- `old` is the instance of the hash that is deleted.
    pub deleted-IsIndexed :
        (v : Bytes)
        → id_text prefix ks domain ≡ some v
        → id_of v ≡ old
        → IsIndexed prefix ks
        → IsIndexed prefix deleted
    deleted-IsIndexed t text same v = record {
      is_listed_too = deleted-IsListed v.is_listed_too;
      owned = λ i d. deleted_owned prefix domain old ks i d ∙ elim (Bool-cases (equal domain d)) [
        | inl own ↦ rw own (
            ground (arith, before i d own)
            ∙ sym (ap (owned_by i) (deleted_own d instance_id_field own)))
        | inr other ↦ rw other (
            ground arith
            ∙ v.owned i d
            ∙ sym (ap (owned_by i) (deleted_other d instance_id_field other)))
      ];
    }
      where
        before : (i : ℤ) (d : Bytes) → equal domain d ≡ true → is_owned prefix ks i d ≡ old ==ℤ i
        before i d own =
            let here : domain ≡ d = (equal_iff domain d).0 own in
            v.owned i d
            ∙ ap (owned_by i) (ap (id_text prefix ks) (sym here) ∙ text)
            ∙ ap (λ j. j ==ℤ i) same

  module _ (j : ℤ) (ds : List Bytes) (ks : Keys) where
    abbrev removed : Keys
    removed = after_commands (removal_commands prefix j ds) ks

    removed_own : (d f : Bytes) → occurs d ds ≡ true → field_of prefix removed d f ≡ none
    removed_own d f own = removed_field prefix j ds ks d f ∙ rw own

    removed_other :
        (d f : Bytes) → occurs d ds ≡ false → field_of prefix removed d f ≡ field_of prefix ks d f
    removed_other d f other = removed_field prefix j ds ks d f ∙ rw other

    removed-IsListed : IsListed prefix ks → IsListed prefix removed
    removed-IsListed v = record {
      whole = λ d f gone. elim (Bool-cases (occurs d ds)) [
        | inl own ↦ removed_own d f own
        | inr other ↦
            removed_other d f other
            ∙ v.whole d f (sym (removed_other d instance_id_field other) ∙ gone)
      ];
      listed = λ d. removed_listed prefix j ds ks d ∙ elim (Bool-cases (occurs d ds)) [
        | inl own ↦ rw own (sym (ap is_some (removed_own d instance_id_field own)))
        | inr other ↦
            rw other (v.listed d ∙ sym (ap is_some (removed_other d instance_id_field other)))
      ];
      readable = λ d t text. elim (Bool-cases (occurs d ds)) [
        | inl own ↦ cc (removed_own d instance_id_field own, text)
        | inr other ↦ v.readable d t (sym (removed_other d instance_id_field other) ∙ text)
      ];
    }

    owned-none :
        (i : ℤ) (o : Option Bytes)
        → owned_by j o ≡ true
        → (if j ==ℤ i then false else owned_by i o) ≡ false
    owned-none i none h = cc h
    owned-none i (some v) h =
        ap (λ k. if j ==ℤ i then false else k ==ℤ i) ((==ℤ_iff (id_of v) j).0 h) ∙ ground arith

    owned-kept :
        (i : ℤ) (o : Option Bytes)
        → owned_by j o ≡ false
        → (if j ==ℤ i then false else owned_by i o) ≡ owned_by i o
    owned-kept i none h = ground arith
    owned-kept i (some v) h = ground (arith, ==ℤ_iff j i, ==ℤ_iff (id_of v) i, ==ℤ_iff (id_of v) j)

    -- `ds` are the domains in the set of the instance `j`.
    pub removed-IsIndexed :
        ((d : Bytes) → occurs d ds ≡ is_owned prefix ks j d)
        → IsIndexed prefix ks
        → IsIndexed prefix removed
    removed-IsIndexed members v = record {
      is_listed_too = removed-IsListed v.is_listed_too;
      owned = λ i d.
          removed_owned prefix j ds ks i d
          ∙ ap (λ b. if j ==ℤ i then false else b) (v.owned i d)
          ∙ elim (Bool-cases (occurs d ds)) [
            | inl own ↦
                owned-none i (id_text prefix ks d) (sym (v.owned j d) ∙ sym (members d) ∙ own)
                ∙ sym (ap (owned_by i) (removed_own d instance_id_field own))
            | inr other ↦
                owned-kept i (id_text prefix ks d) (sym (v.owned j d) ∙ sym (members d) ∙ other)
                ∙ sym (ap (owned_by i) (removed_other d instance_id_field other))
          ];
    }
