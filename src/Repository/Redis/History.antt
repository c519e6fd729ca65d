-- ===== src/Repository/Redis/History.antt =====
-- The calls of the Redis repository, one after the other, and the invariant of the store.
use tsdns.Prelude.{ℤ, ◌≡◌, sym, ap, ◌∙◌, false, none, some, Bytes}
use mathlib.Core.Path.{subst}
use tsdns.Core.Record.{Record}
use tsdns.Repository.Redis.Client.{Keys, Redis, RedisLaws, Encodings}
use tsdns.Repository.Redis.Commands.{key_record}
use tsdns.Repository.Redis.Indexed.{is_some, owned_by, IsIndexed}
use tsdns.Repository.Redis.Creating.{create-IsIndexed}
use tsdns.Repository.Redis.Removing.{delete-IsIndexed, delete_by_instance_id-IsIndexed}
use tsdns.Repository.Redis.Storage.{HgetAnswers, IsStorable, find_keys}
use tsdns.Repository.Redis.{find, find_by_domain, create, delete, delete_by_instance_id}

-- A store without hashes and sets.
abbrev pub IsEmpty : Keys → Type 0
IsEmpty ks = ((k f : Bytes) → ks.field k f ≡ none) × ((k x : Bytes) → ks.member k x ≡ false)

module _ {D : Type 0} (client : Redis D) (enc : Encodings) (prefix : Bytes) where
  -- A call, with the states before and behind it. A call may fail.
  pub data Call : D → D → Type 0 where
    finds : (r : D) → Call r (find client enc prefix r).1
    finds_domain : (r : D) (domain : Bytes) → Call r (find_by_domain client enc prefix domain r).1
    creates :
        (r : D) (rec : Record) → IsStorable rec → Call r (create client enc prefix (some rec) r).1
    creates_nil : (r : D) → Call r (create client enc prefix none r).1
    deletes : (r : D) (domain : Bytes) → Call r (delete client enc prefix domain r).1
    deletes_instance : (r : D) (i : ℤ) → Call r (delete_by_instance_id client enc prefix i r).1

  -- The states behind calls, from a state on.
  pub data CallsFrom (start : D) : D → Type 0 where
    begun : CallsFrom start start
    called : (r s : D) → CallsFrom start r → Call r s → CallsFrom start s

  module _ (laws : RedisLaws client) where
    open laws use {keys}

    IsEmpty-IsIndexed : (r : D) → IsEmpty (keys r) → IsIndexed prefix (keys r)
    IsEmpty-IsIndexed r h = record {
      is_listed_too = record {
        whole = λ d f e. h.0 _ f;
        listed = λ d. h.1 _ d ∙ sym (ap is_some (h.0 _ _));
        readable = λ d v e. cc (h.0 _ _, e);
      };
      owned = λ i d. h.1 _ d ∙ sym (ap (owned_by i) (h.0 _ _));
    }

    find_by_domain_keys :
        (r : D) (domain : Bytes) → keys (find_by_domain client enc prefix domain r).1 ≡ keys r
    unfolding find_by_domain
    find_by_domain_keys r domain = laws.hgetall_keeps r (key_record prefix domain)

    Call-IsIndexed :
        HgetAnswers client
        → (r s : D) → Call r s
        → IsIndexed prefix (keys r)
        → IsIndexed prefix (keys s)
    Call-IsIndexed answers r _ (Call.finds _) v =
        subst (IsIndexed prefix) (sym (find_keys client laws enc prefix r)) v
    Call-IsIndexed answers r _ (Call.finds_domain _ domain) v =
        subst (IsIndexed prefix) (sym (find_by_domain_keys r domain)) v
    Call-IsIndexed answers r _ (Call.creates _ rec s) v =
        create-IsIndexed client laws enc prefix rec r (answers r _ _) s.0 v
    Call-IsIndexed answers r _ (Call.creates_nil _) v = unfold create in v
    Call-IsIndexed answers r _ (Call.deletes _ domain) v =
        delete-IsIndexed client laws enc prefix domain r v
    Call-IsIndexed answers r _ (Call.deletes_instance _ i) v =
        delete_by_instance_id-IsIndexed client laws enc prefix i r v

    -- Behind any calls on an empty store, of which each may fail, the set of domains holds those
    -- that have a hash, and the set of an instance those whose hash is of the instance; where the
    -- client meets its laws and reading a field does not fail, for records that can be stored.
    pub CallsFrom-IsIndexed :
        HgetAnswers client
        → (start r : D) → IsEmpty (keys start)
        → CallsFrom start r
        → IsIndexed prefix (keys r)
    CallsFrom-IsIndexed answers start _ empty CallsFrom.begun = IsEmpty-IsIndexed start empty
    CallsFrom-IsIndexed answers start s empty (CallsFrom.called r _ before call) =
        Call-IsIndexed answers r s call (CallsFrom-IsIndexed answers start r empty before)
