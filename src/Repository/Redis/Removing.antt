-- ===== src/Repository/Redis/Removing.antt =====
-- `Delete` and `DeleteByInstanceID` on the store.
use tsdns.Prelude.{
  ℤ, ◌==ℤ◌, ◌≡◌, refl, sym, ap, ◌∙◌, Option, none, some, List, [], ◌∷◌, Bytes, if◌then◌else◌,
  Result, ok, err, Bool-cases, inl, inr,
}
use mathlib.Core.Path.{subst}
use tsdns.Text.Bytes.{equal}
use tsdns.Text.Decimal.{parse_int, parse_int_value}
use tsdns.Text.Space.{trim_space}
use tsdns.Core.Server.Contract.{unless_instance}
use tsdns.Repository.Redis.Client.{
  Command, Keys, Reply, value, nil, failed, Redis, RedisLaws, Encodings, after_commands, occurs,
}
use tsdns.Repository.Redis.Encoding.{instance_id_field, targets_field}
use tsdns.Repository.Redis.Commands.{
  key_record, key_instance_domains, delete_commands, removal_commands,
}
use tsdns.Repository.Redis.Transactions.{tx_keeps, del_keeps}
use tsdns.Repository.Redis.Writing.{field_of, deleted_field, removed_field}
use tsdns.Repository.Redis.Indexed.{id_of, id_text, owned_by, IsIndexed}
use tsdns.Repository.Redis.Deleting.{deleted-IsIndexed, removed-IsIndexed}
use tsdns.Repository.Redis.Reading.{content_from, view_of}
use tsdns.Repository.Redis.{delete_found, delete, delete_domains, delete_by_instance_id}

module _ {D : Type 0} (client : Redis D) (laws : RedisLaws client) where
  open laws use {keys}

  module _ (enc : Encodings) (prefix : Bytes) where
    -- The number that `ParseInt` returns is that of a text that it reads.
    parse_int_value-some : (s : Bytes) (i : ℤ) → parse_int s ≡ some i → parse_int_value s ≡ i
    unfolding parse_int_value
    parse_int_value-some s i e = rw (parse_int_value, e)

    module _ (domain : Bytes) (r : D) where
      abbrev id_read : Reply Bytes × D
      id_read = client.hget (key_record prefix domain) instance_id_field r

      read_keeps : keys id_read.1 ≡ keys r
      read_keeps = laws.hget_keeps r _ _

      abbrev del_commands : Bytes → List Command
      del_commands v = delete_commands prefix domain (parse_int_value (trim_space v))

      delete_found-keeps :
          (P : Keys → Type 0) (x : Reply Bytes)
          → P (keys r)
          → ((v : Bytes) → x ≡ value v → P (after_commands (del_commands v) (keys r)))
          → P (keys (delete_found client enc prefix domain x id_read.1).1)
      unfolding delete_found
      delete_found-keeps P nil before after = subst P (sym read_keeps) before
      delete_found-keeps P (failed e) before after = subst P (sym read_keeps) before
      delete_found-keeps P (value v) before after =
          tx_keeps client laws P (del_commands v) id_read.1 (subst P (sym read_keeps) before)
            (subst (λ ks. P (after_commands (del_commands v) ks)) (sym read_keeps) (after v refl))

      delete_found-ok :
          (x : Reply Bytes)
          → (delete_found client enc prefix domain x id_read.1).0 ≡ ok tt
          → (v : Bytes) × (keys (delete_found client enc prefix domain x id_read.1).1
              ≡ after_commands (del_commands v) (keys r))
      unfolding delete_found
      delete_found-ok nil h = absurd (cc h)
      delete_found-ok (failed e) h = absurd (cc h)
      delete_found-ok (value v) h = (
        v,
        laws.tx_ok id_read.1 (del_commands v) h ∙ ap (after_commands (del_commands v)) read_keeps,
      )

      pub delete-IsIndexed :
          IsIndexed prefix (keys r) → IsIndexed prefix (keys (delete client enc prefix domain r).1)
      unfolding delete
      delete-IsIndexed v = delete_found-keeps (IsIndexed prefix) id_read.0 v (λ t e.
          let text = laws.hget_value r _ _ t e in
          deleted-IsIndexed prefix domain (parse_int_value (trim_space t)) (keys r) t text
            (sym (
              parse_int_value-some (trim_space t) (id_of t)
                (v.is_listed_too.readable domain t text)))
            v)

      gone_view :
          (i : ℤ) (d : Bytes)
          → view_of enc prefix (after_commands (delete_commands prefix domain i) (keys r)) d
            ≡ (if equal domain d then none else view_of enc prefix (keys r) d)
      gone_view i d =
          rw (deleted_field, deleted_field)
            (elim (Bool-cases (equal domain d)) [ inl own ↦ rw own | inr o ↦ rw o ])

      pub delete_view :
          (d : Bytes)
          → (delete client enc prefix domain r).0 ≡ ok tt
          → view_of enc prefix (keys (delete client enc prefix domain r).1) d
            ≡ (if equal domain d then none else view_of enc prefix (keys r) d)
      unfolding delete
      delete_view d h =
          let (v, done) = delete_found-ok id_read.0 h in
          ap (λ ks. view_of enc prefix ks d) done ∙ gone_view (parse_int_value (trim_space v)) d

    module _ (i : ℤ) (r : D) where
      abbrev members : Result (List Bytes) × D
      members = client.smembers (key_instance_domains prefix i) r

      members_keep : keys members.1 ≡ keys r
      members_keep = laws.smembers_keeps r _

      abbrev removal : List Bytes → List Command
      removal ds = removal_commands prefix i ds

      delete_domains-keeps :
          (P : Keys → Type 0) (x : Result (List Bytes))
          → P (keys r)
          → ((ds : List Bytes) → x ≡ ok ds → P (after_commands (removal ds) (keys r)))
          → P (keys (delete_domains client enc prefix i x members.1).1)
      unfolding delete_domains removal_commands
      delete_domains-keeps P (err e) before after = subst P (sym members_keep) before
      delete_domains-keeps P (ok []) before after =
          del_keeps client laws P _ members.1 (subst P (sym members_keep) before)
            (subst (λ ks. P (after_commands (removal []) ks)) (sym members_keep) (after [] refl))
      delete_domains-keeps P (ok (x ∷ xs)) before after =
          tx_keeps client laws P (removal (x ∷ xs)) members.1 (subst P (sym members_keep) before) (
            subst (λ ks. P (after_commands (removal (x ∷ xs)) ks)) (sym members_keep)
              (after (x ∷ xs) refl))

      delete_domains-ok :
          (x : Result (List Bytes))
          → (delete_domains client enc prefix i x members.1).0 ≡ ok tt
          → (ds : List Bytes) × (x ≡ ok ds)
            × (keys (delete_domains client enc prefix i x members.1).1
                ≡ after_commands (removal ds) (keys r))
      unfolding delete_domains removal_commands
      delete_domains-ok (err e) h = absurd (cc h)
      delete_domains-ok (ok []) h =
          ([], refl, laws.del_ok members.1 _ h ∙ ap (after_commands (removal [])) members_keep)
      delete_domains-ok (ok (x ∷ xs)) h = (
        x ∷ xs,
        refl,
        laws.tx_ok members.1 (removal (x ∷ xs)) h
            ∙ ap (after_commands (removal (x ∷ xs))) members_keep,
      )

      pub delete_by_instance_id-IsIndexed :
          IsIndexed prefix (keys r)
          → IsIndexed prefix (keys (delete_by_instance_id client enc prefix i r).1)
      unfolding delete_by_instance_id
      delete_by_instance_id-IsIndexed v =
          delete_domains-keeps (IsIndexed prefix) members.0 v
            (λ ds e. removed-IsIndexed prefix i ds (keys r) (λ d. laws.smembers_ok r _ ds d e) v)

      removed_view :
          (ds : List Bytes) (d : Bytes)
          → occurs d ds ≡ owned_by i (id_text prefix (keys r) d)
          → view_of enc prefix (after_commands (removal ds) (keys r)) d
            ≡ unless_instance i (view_of enc prefix (keys r) d)
      removed_view ds d e =
          rw (removed_field, removed_field, e)
            (step (id_text prefix (keys r) d) (field_of prefix (keys r) d targets_field))
        where
          step :
              (o ts : Option Bytes)
              → content_from enc
                  (if owned_by i o then none else o)
                  (if owned_by i o then none else ts)
                ≡ unless_instance i (content_from enc o ts)
          step none ts = refl
          step (some v) ts = elim (Bool-cases (id_of v ==ℤ i)) [
            | inl own ↦ rw own
            | inr other ↦ rw other
          ]

      pub delete_by_instance_id_view :
          (d : Bytes)
          → IsIndexed prefix (keys r)
          → (delete_by_instance_id client enc prefix i r).0 ≡ ok tt
          → view_of enc prefix (keys (delete_by_instance_id client enc prefix i r).1) d
            ≡ unless_instance i (view_of enc prefix (keys r) d)
      unfolding delete_by_instance_id
      delete_by_instance_id_view d v h =
          let (ds, read, done) = delete_domains-ok members.0 h in
          ap (λ ks. view_of enc prefix ks d) done
          ∙ removed_view ds d (laws.smembers_ok r _ ds d read ∙ v.owned i d)
