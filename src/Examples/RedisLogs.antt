-- ===== src/Examples/RedisLogs.antt =====
-- A Redis store as a log of commands, the latest first, and encodings that read back what they write.
use tsdns.Prelude.{
  ◌≡◌, ◌≢◌, refl, sym, ap, ◌∙◌, false, none, some, Option, List, [], ◌∷◌, ◌++◌, Bytes,
  if◌then◌else◌, Result, ok, err, Error, arith, Bool-cases, inl, inr,
}
use tsdns.Maps.{lookup}
use tsdns.Text.Bytes.{equal, equal_iff}
use tsdns.Repository.Redis.Client.{
  Hash, Command, hset, sadd, srem, del, Reply, value, nil, failed, Redis, Keys, after_command,
  after_commands, or_else, occurs, IsHash, AreHashes, RedisLaws,
}

abbrev pub Log : Type 0
Log = List Command

abbrev empty : Keys
empty = record { field = λ k f. none; member = λ k x. false }

abbrev pub keys_of : Log → Keys
keys_of [] = empty
keys_of (c ∷ log) = after_command c (keys_of log)

abbrev pub hash_at : Bytes → Log → Hash
hash_at k [] = []
hash_at k (hset key hash ∷ log) = if equal key k then hash ++ hash_at k log else hash_at k log
hash_at k (sadd key x ∷ log) = hash_at k log
hash_at k (srem key x ∷ log) = hash_at k log
hash_at k (del key ∷ log) = if equal key k then [] else hash_at k log

abbrev without : Bytes → List Bytes → List Bytes
without x [] = []
without x (y ∷ ys) = let rest = without x ys in if equal x y then rest else y ∷ rest

abbrev set_at : Bytes → Log → List Bytes
set_at k [] = []
set_at k (hset key hash ∷ log) = set_at k log
set_at k (sadd key x ∷ log) = if equal key k then x ∷ set_at k log else set_at k log
set_at k (srem key x ∷ log) = if equal key k then without x (set_at k log) else set_at k log
set_at k (del key ∷ log) = if equal key k then [] else set_at k log

abbrev reply_of : Option Bytes → Reply Bytes
reply_of none = nil
reply_of (some v) = value v

abbrev hashes_at : List Bytes → Log → List (Result Hash)
hashes_at [] log = []
hashes_at (k ∷ ks) log = ok (hash_at k log) ∷ hashes_at ks log

abbrev logged : List Command → Log → Log
logged [] log = log
logged (c ∷ cs) log = logged cs (c ∷ log)

abbrev pub logs : Redis Log
logs = record {
  now = λ log. 9;
  ping = λ log. (ok tt, log);
  close = λ log. (ok tt, log);
  smembers = λ k log. (ok (set_at k log), log);
  hget = λ k f log. (reply_of ((keys_of log).field k f), log);
  hgetall = λ k log. (ok (hash_at k log), log);
  pipeline = λ ks log. ((value tt, hashes_at ks log), log);
  tx_pipeline = λ cs log. (ok tt, logged cs log);
  del_key = λ k log. (ok tt, del k ∷ log);
}

lookup_append : (f : Bytes) (m n : Hash) → lookup f (m ++ n) ≡ or_else (lookup f m) (lookup f n)
unfolding lookup
lookup_append f [] n = refl
lookup_append f ((k, v) ∷ m) n = ground (arith, lookup_append f m n)

pub hash_at-IsHash : (k : Bytes) (log : Log) → IsHash ((keys_of log).field k) (hash_at k log)
hash_at-IsHash k [] f = unfold lookup in refl
hash_at-IsHash k (hset key hash ∷ log) f = elim (Bool-cases (equal key k)) [
  | inl own ↦
      rw own (
        lookup_append f hash (hash_at k log)
        ∙ ap (or_else (lookup f hash)) (hash_at-IsHash k log f))
  | inr apart ↦ rw apart (hash_at-IsHash k log f)
]
hash_at-IsHash k (sadd key x ∷ log) f = hash_at-IsHash k log f
hash_at-IsHash k (srem key x ∷ log) f = hash_at-IsHash k log f
hash_at-IsHash k (del key ∷ log) f = elim (Bool-cases (equal key k)) [
  | inl own ↦ rw own (unfold lookup in refl)
  | inr apart ↦ rw apart (hash_at-IsHash k log f)
]

occurs-without :
    (x y : Bytes) (ys : List Bytes)
    → occurs y (without x ys) ≡ (if equal x y then false else occurs y ys)
occurs-without x y [] = ground arith
occurs-without x y (z ∷ ys) =
    ground (arith, occurs-without x y ys, equal_iff x z, equal_iff z y, equal_iff x y)

pub set_at-member : (k x : Bytes) (log : Log) → occurs x (set_at k log) ≡ (keys_of log).member k x
set_at-member k x [] = refl
set_at-member k x (hset key hash ∷ log) = set_at-member k x log
set_at-member k x (sadd key y ∷ log) = ground (arith, set_at-member k x log)
set_at-member k x (srem key y ∷ log) =
    ground (arith, set_at-member k x log, occurs-without y x (set_at k log))
set_at-member k x (del key ∷ log) = ground (arith, set_at-member k x log)

pub hashes_at-AreHashes :
    (ks : List Bytes) (log : Log) → AreHashes (keys_of log).field ks (hashes_at ks log)
hashes_at-AreHashes [] log = tt
hashes_at-AreHashes (k ∷ ks) log = (hash_at-IsHash k log, hashes_at-AreHashes ks log)

pub keys_of-logged :
    (cs : List Command) (log : Log) → keys_of (logged cs log) ≡ after_commands cs (keys_of log)
keys_of-logged [] log = refl
keys_of-logged (c ∷ cs) log = keys_of-logged cs (c ∷ log)

pub reply_of-value : (o : Option Bytes) (v : Bytes) → reply_of o ≡ value v → o ≡ some v
reply_of-value none v e = cc e
reply_of-value (some w) v e = cc e

pub reply_of-nil : (o : Option Bytes) → reply_of o ≡ nil → o ≡ none
reply_of-nil none e = refl
reply_of-nil (some w) e = cc e

pub reply_of-ne-failed : (o : Option Bytes) (e : Error) → reply_of o ≢ failed e
reply_of-ne-failed none e h = cc h
reply_of-ne-failed (some w) e h = cc h

abbrev pub result_list : Result (List Bytes) → List Bytes
result_list (ok xs) = xs
result_list (err e) = []

abbrev pub result_hash : Result Hash → Hash
result_hash (ok m) = m
result_hash (err e) = []

unfoldable pub logs-RedisLaws : RedisLaws logs
logs-RedisLaws = record {
  keys = keys_of;
  smembers_keeps = λ r k. refl;
  smembers_ok = λ r k xs x e. ap (λ l. occurs x (result_list l)) (sym e) ∙ set_at-member k x r;
  hget_keeps = λ r k f. refl;
  hget_value = λ r k f v e. reply_of-value _ v e;
  hget_nil = λ r k f e. reply_of-nil _ e;
  hgetall_keeps = λ r k. refl;
  hgetall_ok = λ r k m e f. ap (λ x. lookup f (result_hash x)) (sym e) ∙ hash_at-IsHash k r f;
  pipeline_keeps = λ r ks. refl;
  pipeline_hashes = λ r ks. hashes_at-AreHashes ks r;
  tx_ok = λ r cs h. keys_of-logged cs r;
  tx_err = λ r cs e h. cc h;
  del_ok = λ r k h. refl;
  del_err = λ r k e h. cc h;
}
