-- ===== src/Repository/Redis/Reading.antt =====
-- What `Find` returns, in terms of the store.
use tsdns.Prelude.{
  ◌≡◌, refl, sym, ap, ◌∙◌, Bool, true, false, Option, none, some, List, [], ◌∷◌, Bytes,
  if◌then◌else◌, get_or, Result, ok, err, Bool-cases, Option-cases, inl, inr, arith,
}
use mathlib.Core.Option
use mathlib.Core.Path.{subst}
use tsdns.Maps.{lookup}
use tsdns.Text.Bytes.{equal, equal_iff, equal_refl}
use tsdns.Core.Record.{Record}
use tsdns.Core.Cache.Contents.{last_record}
use tsdns.Core.Server.Contract.{Content, content_of}
use tsdns.Repository.Redis.Client.{
  Hash, Keys, Reply, value, nil, failed, Redis, RedisLaws, Encodings, occurs, IsHash, AreHashes,
}
use tsdns.Repository.Redis.Encoding.{
  instance_id_field, targets_field, text_of, decode_targets, decode_record_map,
}
use tsdns.Repository.Redis.Commands.{key_domains, key_record, record_keys}
use tsdns.Repository.Redis.Writing.{field_of, is_listed}
use tsdns.Repository.Redis.Indexed.{id_of, is_some, id_text, IsListed}
use tsdns.Repository.Redis.{
  put_record, decode_results, executed, found_hash, find_domains, find, find_by_domain,
}

-- What a lookup returned, and nothing for an error.
abbrev pub result_content : Result Record → Option Content
result_content (ok r) = some (content_of r)
result_content (err e) = none

module _ (enc : Encodings) where
  -- What the texts of an instance and of targets stand for, for a hash that has an instance.
  abbrev pub content_from : Option Bytes → Option Bytes → Option Content
  content_from none ts = none
  content_from (some v) ts =
      some (record { instance_id = id_of v; targets = decode_targets enc (get_or ts []) })

  abbrev hash_content : Hash → Option Content
  hash_content m = content_from (lookup instance_id_field m) (lookup targets_field m)

  -- The later record is the one that is returned.
  abbrev later_or : Option Content → Option Content → Option Content
  later_or none here = here
  later_or (some c) here = some c

  abbrev contents : Bytes → List Record → Option Content
  contents d rs = Option.map content_of (last_record d rs)

  contents-cons :
      (d : Bytes) (r : Record) (rs : List Record)
      → contents d (r ∷ rs)
        ≡ later_or (contents d rs) (if equal r.domain d then some (content_of r) else none)
  contents-cons d r rs = elim (Option-cases (last_record d rs)) [
    | inl e ↦ rw e (elim (Bool-cases (equal r.domain d)) [ inl h ↦ rw h | inr h ↦ rw h ])
    | inr (x, e) ↦ rw e
  ]

  decoded_content :
      (x v : Bytes) (m : Hash)
      → lookup instance_id_field m ≡ some v
      → some (content_of (decode_record_map enc x m)) ≡ hash_content m
  unfolding decode_record_map text_of
  decoded_content x v m e = rw e

  -- A hash with a field has the text of its instance.
  abbrev IsWhole : Hash → Type 0
  IsWhole m = lookup instance_id_field m ≡ none → (f : Bytes) → lookup f m ≡ none

  whole_cons :
      (k w : Bytes) (m : Hash)
      → IsWhole ((k, w) ∷ m)
      → (v : Bytes) × (lookup instance_id_field ((k, w) ∷ m) ≡ some v)
  whole_cons k w m h = elim (Option-cases (lookup instance_id_field ((k, w) ∷ m))) [
    | inr (v, e) ↦ (v, e)
    | inl e ↦ absurd (present (h e k))
  ]
    where
      present : lookup k ((k, w) ∷ m) ≡ none → ⊥
      present h =
          unfold lookup in
          cc (ap (λ (b : Bool). if b then some w else lookup k m) (sym (equal_refl k)), h)

  put_record-ok :
      (d x : Bytes) (m : Hash) (rest : Result (List Record)) (out : List Record)
      → IsWhole m
      → put_record enc x m rest ≡ ok out
      → (later : List Record) × (rest ≡ ok later)
        × (contents d out
            ≡ later_or (contents d later) (if equal x d then hash_content m else none))
  unfolding put_record decode_record_map
  put_record-ok d x m (err e) out w h = absurd (cc h)
  put_record-ok d x [] (ok later) out w h = (later, refl, unfold lookup in ground arith)
  put_record-ok d x ((k, v) ∷ m) (ok later) out w h =
      let (t, e) = whole_cons k v m w in
      let r = decode_record_map enc x ((k, v) ∷ m) in
      let same : r ∷ later ≡ out = cc h in
      (
        later,
        refl,
        ap (contents d) (sym same)
            ∙ contents-cons d r later
            ∙ ap (λ c. later_or (contents d later) (if equal x d then c else none))
                (decoded_content x t ((k, v) ∷ m) e),
      )

  -- What the store holds for a domain.
  abbrev pub view_of : Bytes → Keys → Bytes → Option Content
  view_of prefix ks d = content_from (id_text prefix ks d) (field_of prefix ks d targets_field)

  module _ (prefix : Bytes) (ks : Keys) (v : IsListed prefix ks) where
    abbrev view : Bytes → Option Content
    view d = view_of prefix ks d

    hash_content-IsHash :
        (x : Bytes) (m : Hash) → IsHash (field_of prefix ks x) m → hash_content m ≡ view x
    hash_content-IsHash x m h = rw (h instance_id_field, h targets_field)

    IsHash-IsWhole : (x : Bytes) (m : Hash) → IsHash (field_of prefix ks x) m → IsWhole m
    IsHash-IsWhole x m h gone f = h f ∙ v.whole x f (sym (h instance_id_field) ∙ gone)

    put_view :
        (d x : Bytes) (ds : List Bytes)
        → later_or (if occurs d ds then view d else none) (if equal x d then view x else none)
          ≡ (if occurs d (x ∷ ds) then view d else none)
    put_view d x ds = elim (Bool-cases (equal x d)) [
      | inr other ↦ rw other (stay (if occurs d ds then view d else none))
      | inl own ↦
          let same : x ≡ d = (equal_iff x d).0 own in
          rw own (ap (later_or _) (ap view same) ∙ twice (occurs d ds) (view d))
    ]
      where
        stay : (c : Option Content) → later_or c none ≡ c
        stay none = refl
        stay (some c) = refl

        twice : (b : Bool) (c : Option Content) → later_or (if b then c else none) c ≡ c
        twice true none = refl
        twice true (some c) = refl
        twice false c = refl

    decode_results-ok :
        (d : Bytes) (ds : List Bytes) (rs : List (Result Hash)) (out : List Record)
        → AreHashes ks.field (record_keys prefix ds) rs
        → decode_results enc ds rs ≡ ok out
        → contents d out ≡ (if occurs d ds then view d else none)
    unfolding decode_results
    decode_results-ok d [] [] out are h = let empty : [] ≡ out = cc h in ap (contents d) (sym empty)
    decode_results-ok d [] (r ∷ rs) out are h = absurd are
    decode_results-ok d (x ∷ ds) [] out are h = absurd are
    decode_results-ok d (x ∷ ds) (err e ∷ rs) out are h = absurd (cc h)
    decode_results-ok d (x ∷ ds) (ok m ∷ rs) out are h =
        let (later, rest, put) =
          put_record-ok d x m (decode_results enc ds rs) out (IsHash-IsWhole x m are.0) h in
        put
        ∙ ap (λ c. later_or c (if equal x d then hash_content m else none))
            (decode_results-ok d ds rs later are.1 rest)
        ∙ ap (λ c. later_or (if occurs d ds then view d else none) (if equal x d then c else none))
            (hash_content-IsHash x m are.0)
        ∙ put_view d x ds

    executed-ok :
        (d : Bytes) (ds : List Bytes) (results : Reply (Unit {0}) × List (Result Hash))
        (out : List Record)
        → AreHashes ks.field (record_keys prefix ds) results.1
        → executed enc ds results ≡ ok out
        → contents d out ≡ (if occurs d ds then view d else none)
    unfolding executed
    executed-ok d ds (value _, rs) out are h = decode_results-ok d ds rs out are h
    executed-ok d ds (nil, rs) out are h = decode_results-ok d ds rs out are h
    executed-ok d ds (failed e, rs) out are h = absurd (cc h)

    -- A domain that is not listed has no hash.
    listed-view :
        (d : Bytes) (listed : Bool)
        → listed ≡ is_listed prefix ks d
        → (if listed then view d else none) ≡ view d
    listed-view d true e = refl
    listed-view d false e = unlisted (id_text prefix ks d) (e ∙ v.listed d)
      where
        unlisted :
            (o : Option Bytes)
            → false ≡ is_some o
            → none ≡ content_from o (field_of prefix ks d targets_field)
        unlisted none h = refl
        unlisted (some t) h = cc h

module _ {D : Type 0} (client : Redis D) (laws : RedisLaws client) where
  open laws use {keys}

  module _ (enc : Encodings) (prefix : Bytes) where
    find_domains-ok :
        (ks : Keys) (v : IsListed prefix ks) (domains : Result (List Bytes)) (r : D)
        (out : List Record) (d : Bytes)
        → keys r ≡ ks
        → ((xs : List Bytes) → domains ≡ ok xs → occurs d xs ≡ is_listed prefix ks d)
        → (find_domains client enc prefix domains r).0 ≡ ok out
        → contents enc d out ≡ view_of enc prefix ks d
    unfolding find_domains
    find_domains-ok ks v (err e) r out d same members h = absurd (cc h)
    find_domains-ok ks v (ok []) r out d same members h =
        let empty : [] ≡ out = cc h in
        ap (contents enc d) (sym empty) ∙ listed-view enc prefix ks v d false (members [] refl)
    find_domains-ok ks v (ok (x ∷ xs)) r out d same members h =
        executed-ok enc prefix ks v d (x ∷ xs) (client.pipeline (record_keys prefix (x ∷ xs)) r).0
          out
          (subst
            (λ (s : Keys).
              AreHashes s.field (record_keys prefix (x ∷ xs))
                (client.pipeline (record_keys prefix (x ∷ xs)) r).0.1)
            same (laws.pipeline_hashes r (record_keys prefix (x ∷ xs))))
          h
        ∙ listed-view enc prefix ks v d (occurs d (x ∷ xs)) (members (x ∷ xs) refl)

    -- A `Find` that succeeds returns for each domain what the store holds.
    pub find-view_of :
        (r : D) (v : IsListed prefix (keys r)) (out : List Record) (d : Bytes)
        → (find client enc prefix r).0 ≡ ok out
        → Option.map content_of (last_record d out) ≡ view_of enc prefix (keys r) d
    unfolding find
    find-view_of r v out d h =
        find_domains-ok (keys r) v (client.smembers (key_domains prefix) r).0
          (client.smembers (key_domains prefix) r).1 out d
          (laws.smembers_keeps r (key_domains prefix))
          (λ xs e. laws.smembers_ok r (key_domains prefix) xs d e) h

    found_hash-view :
        (d : Bytes) (m : Hash)
        → IsWhole enc m
        → result_content (found_hash enc d (ok m)) ≡ hash_content enc m
    unfolding found_hash
    found_hash-view d [] w = unfold lookup in refl
    found_hash-view d ((k, v) ∷ m) w =
        let (t, e) = whole_cons enc k v m w in decoded_content enc d t ((k, v) ∷ m) e

    -- Where each hash has a readable instance and is listed, and the read of the hash succeeds,
    -- `FindByDomain` returns the instance and targets that the store holds for the domain, and an
    -- error if it holds none; where the client meets its laws.
    pub find_by_domain-view_of :
        (r : D) (domain : Bytes) (m : Hash)
        → IsListed prefix (keys r)
        → (client.hgetall (key_record prefix domain) r).0 ≡ ok m
        → result_content (find_by_domain client enc prefix domain r).0
          ≡ view_of enc prefix (keys r) domain
    unfolding find_by_domain
    find_by_domain-view_of r domain m v h =
        let held = laws.hgetall_ok r (key_record prefix domain) m h in
        ap (λ x. result_content (found_hash enc domain x)) h
        ∙ found_hash-view domain m (IsHash-IsWhole enc prefix (keys r) v domain m held)
        ∙ hash_content-IsHash enc prefix (keys r) v domain m held
