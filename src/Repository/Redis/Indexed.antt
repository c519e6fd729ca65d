-- ===== src/Repository/Redis/Indexed.antt =====
-- The invariant of the store: the set of domains and the sets of the instances say what the hashes
-- say. Every transaction keeps it.
use tsdns.Prelude.{
  ℤ, ◌==ℤ◌, ==ℤ_iff, ◌≡◌, refl, sym, ap, ◌∙◌, Bool, true, false, not, ◌&&◌, Option, none, some,
  Bytes, if◌then◌else◌, Bool-cases, inl, inr, arith,
}
use mathlib.Core.Path.{subst}
use tsdns.Maps.{lookup}
use tsdns.Text.Bytes.{equal, equal_iff}
use tsdns.Text.Decimal.{parse_int, format_int}
use tsdns.Text.Decimal.Signed.{IsInt64, parse_int-format_int, trim_space-format_int}
use tsdns.Text.Space.{trim_space}
use tsdns.Core.Record.{Record}
use tsdns.Repository.Redis.Client.{Hash, Keys, after_commands, or_else}
use tsdns.Repository.Redis.Encoding.{instance_id_field, decode_id}
use tsdns.Repository.Redis.Commands.{create_commands}
use tsdns.Repository.Redis.RoundTrip.{decode_id-format_int}
use tsdns.Repository.Redis.Writing.{
  field_of, is_listed, is_owned, created_field, created_listed, created_owned,
}

abbrev pub id_of : Bytes → ℤ
id_of v = decode_id (trim_space v)

abbrev pub is_some : Option Bytes → Bool
is_some none = false
is_some (some v) = true

-- Whether a hash with that text is of the instance.
abbrev pub owned_by : ℤ → Option Bytes → Bool
owned_by i none = false
owned_by i (some v) = id_of v ==ℤ i

module _ (prefix : Bytes) where
  abbrev pub id_text : Keys → Bytes → Option Bytes
  id_text ks d = field_of prefix ks d instance_id_field

  -- A hash has the text of its instance, which is read back, or no field; the domains of hashes are
  -- listed.
  pub record IsListed (ks : Keys) : Type 0 where
    pub whole : (d f : Bytes) → id_text ks d ≡ none → field_of prefix ks d f ≡ none
    pub listed : (d : Bytes) → is_listed prefix ks d ≡ is_some (id_text ks d)
    pub readable : (d v : Bytes) → id_text ks d ≡ some v → parse_int (trim_space v) ≡ some (id_of v)

  -- And the set of an instance has the domains whose hashes are of it.
  pub record IsIndexed (ks : Keys) : Type 0 where
    pub is_listed_too : IsListed ks
    pub owned : (i : ℤ) (d : Bytes) → is_owned prefix ks i d ≡ owned_by i (id_text ks d)

  module _ (r : Record) (old : ℤ) (hash : Hash) (ks : Keys) where
    abbrev created : Keys
    created = after_commands (create_commands prefix r old hash) ks

    module _ (wrote : lookup instance_id_field hash ≡ some (format_int r.instance_id)) where
      created_own :
          (d f : Bytes)
          → equal r.domain d ≡ true
          → field_of prefix created d f ≡ or_else (lookup f hash) (field_of prefix ks d f)
      created_own d f own = created_field prefix r old hash ks d f ∙ rw own

      created_other :
          (d f : Bytes)
          → equal r.domain d ≡ false
          → field_of prefix created d f ≡ field_of prefix ks d f
      created_other d f other = created_field prefix r old hash ks d f ∙ rw other

      created_id :
          (d : Bytes)
          → equal r.domain d ≡ true
          → id_text created d ≡ some (format_int r.instance_id)
      created_id d own =
          created_own d instance_id_field own ∙ ap (λ o. or_else o (id_text ks d)) wrote

      pub created-IsListed : IsInt64 r.instance_id → IsListed ks → IsListed created
      created-IsListed range v = record {
        whole = λ d f gone. elim (Bool-cases (equal r.domain d)) [
          | inl own ↦ cc (created_id d own, gone)
          | inr other ↦
              created_other d f other
              ∙ v.whole d f (sym (created_other d instance_id_field other) ∙ gone)
        ];
        listed = λ d. created_listed prefix r old hash ks d ∙ elim (Bool-cases (equal r.domain d)) [
          | inl own ↦ rw own (sym (ap is_some (created_id d own)))
          | inr other ↦
              rw other (v.listed d ∙ sym (ap is_some (created_other d instance_id_field other)))
        ];
        readable = λ d t text. elim (Bool-cases (equal r.domain d)) [
          | inl own ↦
              let same : format_int r.instance_id ≡ t = cc (created_id d own, text) in
              subst (λ t. parse_int (trim_space t) ≡ some (id_of t)) same
                (ap parse_int (trim_space-format_int r.instance_id)
                  ∙ parse_int-format_int r.instance_id range
                  ∙ ap some (sym (decode_id-format_int r.instance_id range)))
          | inr other ↦ v.readable d t (sym (created_other d instance_id_field other) ∙ text)
        ];
      }

      -- The domain of the record leaves the set of the old instance and joins that of the new one.
      moved_lem :
          (i : ℤ) (before : Bool)
          → (before ≡ true → old ≡ i)
          → (if not (old ==ℤ r.instance_id) && (old ==ℤ i && true)
              then false
              else if r.instance_id ==ℤ i && true
              then true
              else before)
            ≡ r.instance_id ==ℤ i
      moved_lem i before h =
          ground (arith, ==ℤ_iff old r.instance_id, ==ℤ_iff old i, ==ℤ_iff r.instance_id i)

      -- `old` is the instance of the hash that is replaced, if there is one.
      pub created-IsIndexed :
          IsInt64 r.instance_id
          → ((v : Bytes) → id_text ks r.domain ≡ some v → id_of v ≡ old)
          → IsIndexed ks
          → IsIndexed created
      created-IsIndexed range replaced v = record {
        is_listed_too = created-IsListed range v.is_listed_too;
        owned = λ i d. elim (Bool-cases (equal r.domain d)) [
          | inl own ↦
              created_owned prefix r old hash ks i d
              ∙ (rw own (moved_lem i (is_owned prefix ks i d) (before i d own))
                  ∙ sym (
                      ap (owned_by i) (created_id d own)
                      ∙ ap (λ j. j ==ℤ i) (decode_id-format_int r.instance_id range)))
          | inr other ↦
              created_owned prefix r old hash ks i d
              ∙ (kept i (is_owned prefix ks i d) (equal r.domain d) other
                  ∙ v.owned i d
                  ∙ sym (ap (owned_by i) (created_other d instance_id_field other)))
        ];
      }
        where
          kept :
              (i : ℤ) (before b : Bool)
              → b ≡ false
              → (if not (old ==ℤ r.instance_id) && (old ==ℤ i && b)
                  then false
                  else if r.instance_id ==ℤ i && b
                  then true
                  else before)
                ≡ before
          kept i before b h = ground arith

          owner :
              (i : ℤ) (o : Option Bytes)
              → ((v : Bytes) → o ≡ some v → id_of v ≡ old)
              → owned_by i o ≡ true
              → old ≡ i
          owner i none same h = cc h
          owner i (some v) same h = sym (same v refl) ∙ (==ℤ_iff (id_of v) i).0 h

          before :
              (i : ℤ) (d : Bytes)
              → equal r.domain d ≡ true
              → is_owned prefix ks i d ≡ true
              → old ≡ i
          before i d own h =
              let same : r.domain ≡ d = (equal_iff r.domain d).0 own in
              owner i (id_text ks d) (λ t e. replaced t (ap (id_text ks) same ∙ e))
                (sym (v.owned i d) ∙ h)
