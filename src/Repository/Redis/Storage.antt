-- ===== src/Repository/Redis/Storage.antt =====
-- The Redis repository meets the contract of the server, where the reads of `Create` do not fail.
use tsdns.Prelude.{
  ℤ, ◌≡◌, ◌≢◌, refl, sym, ◌∙◌, some, List, [], ◌∷◌, Bytes, if◌then◌else◌, Result, ok, err, Error,
  All,
}
use mathlib.Core.Option
use mathlib.Core.Path.{subst}
use tsdns.Text.Bytes.{equal}
use tsdns.Text.Decimal.Signed.{IsInt64}
use tsdns.Core.Record.{Record}
use tsdns.Core.Cache.Contents.{last_record}
use tsdns.Core.Server.Contract.{content_of, unless_instance, Contract}
use tsdns.Repository.Redis.Client.{Redis, RedisLaws, Encodings, EncodingLaws, failed}
use tsdns.Repository.Redis.RoundTrip.{IsWritten}
use tsdns.Repository.Redis.Indexed.{IsListed, IsIndexed}
use tsdns.Repository.Redis.Commands.{key_domains, record_keys}
use tsdns.Repository.Redis.Reading.{view_of, find-view_of}
use tsdns.Repository.Redis.Creating.{create-IsListed, create-IsIndexed, create_view}
use tsdns.Repository.Redis.Removing.{
  delete-IsIndexed, delete_view, delete_by_instance_id-IsIndexed, delete_by_instance_id_view,
}
use tsdns.Repository.Redis.{find_domains, find, create, delete_by_instance_id, redis_repository}

-- Reading a field never ends in an error other than `goredis.Nil`.
abbrev pub HgetAnswers : {D : Type 0} → Redis D → Type 0
HgetAnswers {D = D} client = (r : D) (k f : Bytes) (e : Error) → (client.hget k f r).0 ≢ failed e

-- The instance fits in 64 bits, and the targets are read back from their texts.
abbrev pub IsStorable : Record → Type 0
IsStorable rec = IsInt64 rec.instance_id × All IsWritten rec.targets

module _ {D : Type 0} (client : Redis D) (laws : RedisLaws client) (enc : Encodings)
    (prefix : Bytes) where
  open laws use {keys}

  find_domains_keep :
      (x : Result (List Bytes)) (r : D) → keys (find_domains client enc prefix x r).1 ≡ keys r
  unfolding find_domains
  find_domains_keep (err e) r = refl
  find_domains_keep (ok []) r = refl
  find_domains_keep (ok (x ∷ xs)) r = laws.pipeline_keeps r (record_keys prefix (x ∷ xs))

  pub find_keys : (r : D) → keys (find client enc prefix r).1 ≡ keys r
  unfolding find
  find_keys r =
      find_domains_keep (client.smembers (key_domains prefix) r).0 _
      ∙ laws.smembers_keeps r (key_domains prefix)

module _ {D : Type 0} (client : Redis D) (laws : RedisLaws client) (enc : Encodings)
    (encoded : EncodingLaws enc) (prefix : Bytes) where
  open laws use {keys}

  -- Where each hash has a readable instance and is listed, if `Create` succeeds for a record that
  -- can be stored, and `Find` succeeds behind it, then `Find` returns the record's instance and
  -- targets for its domain, and for every other domain what the store held before, also if the
  -- reads of `Create` fail; where the client and the encodings meet their laws.
  pub find-create_listed :
      (r : D) (rec : Record) (rs : List Record) (d : Bytes)
      → IsListed prefix (keys r)
      → IsStorable rec
      → (create client enc prefix (some rec) r).0 ≡ ok tt
      → (find client enc prefix (create client enc prefix (some rec) r).1).0 ≡ ok rs
      → Option.map content_of (last_record d rs)
        ≡ (if equal rec.domain d then some (content_of rec) else view_of enc prefix (keys r) d)
  find-create_listed r rec rs d v s created found =
      find-view_of client laws enc prefix (create client enc prefix (some rec) r).1
        (create-IsListed client laws enc prefix rec r s.0 v) rs d found
      ∙ create_view client laws enc prefix rec r encoded s.0 s.1 created d

  -- Where the sets of the instances say what the hashes say, if `DeleteByInstanceID` succeeds, and
  -- `Find` behind it, then `Find` returns what the store held before for each domain, but nothing
  -- for a domain of the instance; where the client and the encodings meet their laws.
  pub find-delete_by_instance_id_indexed :
      (r : D) (i : ℤ) (rs : List Record) (d : Bytes)
      → IsIndexed prefix (keys r)
      → (delete_by_instance_id client enc prefix i r).0 ≡ ok tt
      → (find client enc prefix (delete_by_instance_id client enc prefix i r).1).0 ≡ ok rs
      → Option.map content_of (last_record d rs) ≡ unless_instance i (view_of enc prefix (keys r) d)
  find-delete_by_instance_id_indexed r i rs d v deleted found =
      let after = delete_by_instance_id-IsIndexed client laws enc prefix i r v in
      find-view_of client laws enc prefix (delete_by_instance_id client enc prefix i r).1
        after.is_listed_too rs d found
      ∙ delete_by_instance_id_view client laws enc prefix i r d v deleted

  -- The laws of the contract, one for each method.
  unfoldable pub redis_contract : HgetAnswers client → Contract (redis_repository client enc prefix)
  redis_contract answers = record {
    IsValid = λ r. IsIndexed prefix (keys r);
    view = λ r. view_of enc prefix (keys r);
    Storable = IsStorable;
    find_keeps = λ r v. subst (IsIndexed prefix) (sym (find_keys client laws enc prefix r)) v;
    create_keeps = λ r rec s v. create-IsIndexed client laws enc prefix rec r (answers r _ _) s.0 v;
    delete_keeps = λ r domain v. delete-IsIndexed client laws enc prefix domain r v;
    delete_by_instance_id_keeps =
        λ r i v. delete_by_instance_id-IsIndexed client laws enc prefix i r v;
    find_view = λ r rs d v h. find-view_of client laws enc prefix r v.is_listed_too rs d h;
    create_view = λ r rec d v s h. create_view client laws enc prefix rec r encoded s.0 s.1 h d;
    delete_view = λ r domain d v h. delete_view client laws enc prefix domain r d h;
    delete_by_instance_id_view =
        λ r i d v h. delete_by_instance_id_view client laws enc prefix i r d v h;
  }
