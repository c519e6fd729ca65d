-- ===== src/Repository/Redis/Writing.antt =====
-- What the transactions do to the hashes and to the sets.
use tsdns.Prelude.{
  ℤ, ◌==ℤ◌, ◌≡◌, refl, ap, ◌∙◌, Bool, true, false, not, ◌&&◌, Option, none, List, [], ◌∷◌, Bytes,
  if◌then◌else◌, arith,
}
use tsdns.Maps.{lookup}
use tsdns.Text.Bytes.{equal}
use tsdns.Core.Record.{Record}
use tsdns.Repository.Redis.Client.{
  Hash, Keys, after_commands, or_else, occurs, srem, del, after_command,
}
use tsdns.Repository.Redis.Commands.{
  key_domains, key_record, key_instance_domains, moved_from, create_commands, delete_commands,
  removal_commands,
}
use tsdns.Repository.Redis.KeyNames.{
  record_record, instance_instance, domains_domains, record_domains, record_instance,
  instance_record, domains_instance, instance_domains,
}

module _ (prefix : Bytes) where
  abbrev pub field_of : Keys → Bytes → Bytes → Option Bytes
  field_of ks d f = ks.field (key_record prefix d) f

  abbrev pub is_listed : Keys → Bytes → Bool
  is_listed ks d = ks.member (key_domains prefix) d

  abbrev pub is_owned : Keys → ℤ → Bytes → Bool
  is_owned ks i d = ks.member (key_instance_domains prefix i) d

  module _ (r : Record) (old : ℤ) (hash : Hash) (ks : Keys) where
    abbrev created : Keys
    created = after_commands (create_commands prefix r old hash) ks

    moved_field :
        (b : Bool) (ks : Keys) (k f : Bytes)
        → (after_commands (moved_from b prefix old r.domain) ks).field k f ≡ ks.field k f
    unfolding moved_from
    moved_field true ks k f = refl
    moved_field false ks k f = refl

    moved_listed :
        (b : Bool) (ks : Keys) (d : Bytes)
        → is_listed (after_commands (moved_from b prefix old r.domain) ks) d ≡ is_listed ks d
    unfolding moved_from
    moved_listed true ks d = refl
    moved_listed false ks d = rw instance_domains

    moved_owned :
        (b : Bool) (ks : Keys) (i : ℤ) (d : Bytes)
        → is_owned (after_commands (moved_from b prefix old r.domain) ks) i d
          ≡ (if not b && (old ==ℤ i && equal r.domain d) then false else is_owned ks i d)
    unfolding moved_from
    moved_owned true ks i d = refl
    moved_owned false ks i d = rw instance_instance

    pub created_field :
        (d f : Bytes)
        → field_of created d f ≡ (
            if equal r.domain d then or_else (lookup f hash) (field_of ks d f) else field_of ks d f)
    unfolding create_commands
    created_field d f =
        moved_field (old ==ℤ r.instance_id) _ (key_record prefix d) f ∙ rw record_record

    pub created_listed :
        (d : Bytes) → is_listed created d ≡ (if equal r.domain d then true else is_listed ks d)
    unfolding create_commands
    created_listed d =
        moved_listed (old ==ℤ r.instance_id) _ d ∙ rw (instance_domains, domains_domains)

    pub created_owned :
        (i : ℤ) (d : Bytes)
        → is_owned created i d ≡ (
            if not (old ==ℤ r.instance_id) && (old ==ℤ i && equal r.domain d)
            then false
            else if r.instance_id ==ℤ i && equal r.domain d
            then true
            else is_owned ks i d)
    unfolding create_commands
    created_owned i d =
        moved_owned (old ==ℤ r.instance_id) _ i d ∙ rw (instance_instance, domains_instance)

  module _ (domain : Bytes) (old : ℤ) (ks : Keys) where
    abbrev deleted : Keys
    deleted = after_commands (delete_commands prefix domain old) ks

    pub deleted_field :
        (d f : Bytes) → field_of deleted d f ≡ (if equal domain d then none else field_of ks d f)
    unfolding delete_commands
    deleted_field d f = rw record_record

    pub deleted_listed :
        (d : Bytes) → is_listed deleted d ≡ (if equal domain d then false else is_listed ks d)
    unfolding delete_commands
    deleted_listed d = rw (instance_domains, domains_domains, record_domains)

    pub deleted_owned :
        (i : ℤ) (d : Bytes)
        → is_owned deleted i d ≡ (if old ==ℤ i && equal domain d then false else is_owned ks i d)
    unfolding delete_commands
    deleted_owned i d = rw (instance_instance, domains_instance, record_instance)

  module _ (j : ℤ) where
    abbrev removed : List Bytes → Keys → Keys
    removed ds ks = after_commands (removal_commands prefix j ds) ks

    abbrev without : Bytes → Keys → Keys
    without x ks =
        after_command (srem (key_domains prefix) x) (after_command (del (key_record prefix x)) ks)

    without_field :
        (x : Bytes) (ks : Keys) (d f : Bytes)
        → field_of (without x ks) d f ≡ (if equal x d then none else field_of ks d f)
    without_field x ks d f = rw record_record

    without_listed :
        (x : Bytes) (ks : Keys) (d : Bytes)
        → is_listed (without x ks) d ≡ (if equal x d then false else is_listed ks d)
    without_listed x ks d = rw (domains_domains, record_domains)

    without_owned :
        (x : Bytes) (ks : Keys) (i : ℤ) (d : Bytes) → is_owned (without x ks) i d ≡ is_owned ks i d
    without_owned x ks i d = rw (domains_instance, record_instance)

    pub removed_field :
        (ds : List Bytes) (ks : Keys) (d f : Bytes)
        → field_of (removed ds ks) d f ≡ (if occurs d ds then none else field_of ks d f)
    unfolding removal_commands
    removed_field [] ks d f = rw instance_record
    removed_field (x ∷ ds) ks d f =
        removed_field ds (without x ks) d f
        ∙ ap (λ v. if occurs d ds then none else v) (without_field x ks d f)
        ∙ ground arith

    pub removed_listed :
        (ds : List Bytes) (ks : Keys) (d : Bytes)
        → is_listed (removed ds ks) d ≡ (if occurs d ds then false else is_listed ks d)
    unfolding removal_commands
    removed_listed [] ks d = rw instance_domains
    removed_listed (x ∷ ds) ks d =
        removed_listed ds (without x ks) d
        ∙ ap (λ v. if occurs d ds then false else v) (without_listed x ks d)
        ∙ ground arith

    pub removed_owned :
        (ds : List Bytes) (ks : Keys) (i : ℤ) (d : Bytes)
        → is_owned (removed ds ks) i d ≡ (if j ==ℤ i then false else is_owned ks i d)
    unfolding removal_commands
    removed_owned [] ks i d = rw instance_instance
    removed_owned (x ∷ ds) ks i d =
        removed_owned ds (without x ks) i d
        ∙ ap (λ v. if j ==ℤ i then false else v) (without_owned x ks i d)
