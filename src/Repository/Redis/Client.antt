-- ===== src/Repository/Redis/Client.antt =====
-- What repository/redis/redis.go uses of other code: the Redis client (go-redis), `time` and
-- `encoding/json`. They are parameters, with the laws that the repository relies on.
use tsdns.Prelude.{
  ◌<◌, ◌*◌, ◌^◌, ◌≡◌, ◌≢◌, Bool, true, false, ◌||◌, ◌&&◌, Option, none, some, List, [], ◌∷◌, Bytes,
  Result, ok, err, Error, All, if◌then◌else◌, ◌⊎◌,
}
use tsdns.Maps.{BytesMap, lookup}
use tsdns.Text.Bytes.{equal}
use tsdns.Text.Space.{trim_space}
use tsdns.Core.Record.{Time}

-- The fields of a hash.
abbrev pub Hash : Type 0
Hash = BytesMap Bytes

-- A command of a transaction: `HSet`, `SAdd`, `SRem` and `Del`.
pub data Command : Type 0 where
  hset : Bytes → Hash → Command
  sadd srem : Bytes → Bytes → Command
  del : Bytes → Command

-- The result of a command: its value, `goredis.Nil`, or another error.
pub data Reply {ℓ} (A : Type ℓ) : Type ℓ where
  value : A → Reply A
  nil : Reply A
  failed : Error → Reply A

-- A client, over the state of the store and of the connection. `pipeline` sends an `HGetAll` for each
-- key and has the error of `Exec` and the result of each command.
pub record Redis (D : Type 0) : Type 0 where
  pub now : D → Time
  pub ping : D → Result (Unit {0}) × D
  pub close : D → Result (Unit {0}) × D
  pub smembers : Bytes → D → Result (List Bytes) × D
  pub hget : Bytes → Bytes → D → Reply Bytes × D
  pub hgetall : Bytes → D → Result Hash × D
  pub pipeline : List Bytes → D → (Reply (Unit {0}) × List (Result Hash)) × D
  pub tx_pipeline : List Command → D → Result (Unit {0}) × D
  pub del_key : Bytes → D → Result (Unit {0}) × D

-- The times and lists of texts as texts: RFC 3339 with nanoseconds, and JSON. `none` is an error.
pub record Encodings : Type 0 where
  pub format_time : Time → Bytes
  pub parse_time : Bytes → Option Time
  pub marshal : List Bytes → Option Bytes
  pub unmarshal : Bytes → Option (List Bytes)

abbrev pub IsAscii : Bytes → Type 0
IsAscii = All (λ c. c < 128)

-- A time of a year up to 9999, in nanoseconds.
abbrev pub IsDated : Time → Type 0
IsDated t = t < 315537897600 * 10 ^ 9

-- What is written is read back, for a time whose year has four digits and for ASCII texts.
pub record EncodingLaws (enc : Encodings) : Type 0 where
  pub parse-format : (t : Time) → IsDated t → enc.parse_time (enc.format_time t) ≡ some t
  pub format_trimmed : (t : Time) → IsDated t → trim_space (enc.format_time t) ≡ enc.format_time t
  pub format-ne-nil : (t : Time) → IsDated t → enc.format_time t ≢ []
  pub unmarshal-marshal :
      (ts : List Bytes)
      → All IsAscii ts
      → (text : Bytes) × (enc.marshal ts ≡ some text) × (text ≢ []) × (enc.unmarshal text ≡ some ts)

-- The store: the fields of the hashes and the members of the sets, by their keys.
pub record Keys : Type 0 where
  pub field : Bytes → Bytes → Option Bytes
  pub member : Bytes → Bytes → Bool

abbrev pub or_else {ℓ} : {A : Type ℓ} → Option A → Option A → Option A
or_else none later = later
or_else (some a) later = some a

-- What a command does to the store.
abbrev pub after_command : Command → Keys → Keys
after_command (hset key hash) ks = record ks {
  field = λ k f. if equal key k then or_else (lookup f hash) (ks.field k f) else ks.field k f;
}
after_command (sadd key x) ks = record ks {
  member = λ k y. if equal key k && equal x y then true else ks.member k y;
}
after_command (srem key x) ks = record ks {
  member = λ k y. if equal key k && equal x y then false else ks.member k y;
}
after_command (del key) ks = record {
  field = λ k f. if equal key k then none else ks.field k f;
  member = λ k y. if equal key k then false else ks.member k y;
}

abbrev pub after_commands : List Command → Keys → Keys
after_commands [] ks = ks
after_commands (c ∷ cs) ks = after_commands cs (after_command c ks)

abbrev pub occurs : Bytes → List Bytes → Bool
occurs x [] = false
occurs x (y ∷ ys) = equal y x || occurs x ys

-- The hash has the fields of its key.
abbrev pub IsHash : (Bytes → Option Bytes) → Hash → Type 0
IsHash fields hash = (f : Bytes) → lookup f hash ≡ fields f

-- A result for each key, and the hashes of those that succeeded.
abbrev pub AreHashes : (Bytes → Bytes → Option Bytes) → List Bytes → List (Result Hash) → Type 0
AreHashes field [] [] = Unit
AreHashes field (k ∷ ks) (ok hash ∷ rs) = IsHash (field k) hash × AreHashes field ks rs
AreHashes field (k ∷ ks) (err e ∷ rs) = AreHashes field ks rs
AreHashes field _ _ = ⊥

-- Reading leaves the store alone and reads it. A transaction is applied as a whole if it succeeds,
-- and otherwise as a whole or not at all. No other client writes, and each key holds a value of the
-- kind that its commands are for.
pub record RedisLaws {D : Type 0} (client : Redis D) : Type 0 where
  pub keys : D → Keys
  pub smembers_keeps : (d : D) (k : Bytes) → keys (client.smembers k d).1 ≡ keys d
  pub smembers_ok :
      (d : D) (k : Bytes) (xs : List Bytes) (x : Bytes)
      → (client.smembers k d).0 ≡ ok xs
      → occurs x xs ≡ (keys d).member k x
  pub hget_keeps : (d : D) (k f : Bytes) → keys (client.hget k f d).1 ≡ keys d
  pub hget_value :
      (d : D) (k f v : Bytes) → (client.hget k f d).0 ≡ value v → (keys d).field k f ≡ some v
  pub hget_nil : (d : D) (k f : Bytes) → (client.hget k f d).0 ≡ nil → (keys d).field k f ≡ none
  pub hgetall_keeps : (d : D) (k : Bytes) → keys (client.hgetall k d).1 ≡ keys d
  pub hgetall_ok :
      (d : D) (k : Bytes) (hash : Hash)
      → (client.hgetall k d).0 ≡ ok hash
      → IsHash ((keys d).field k) hash
  pub pipeline_keeps : (d : D) (ks : List Bytes) → keys (client.pipeline ks d).1 ≡ keys d
  pub pipeline_hashes :
      (d : D) (ks : List Bytes) → AreHashes (keys d).field ks (client.pipeline ks d).0.1
  pub tx_ok :
      (d : D) (cs : List Command)
      → (client.tx_pipeline cs d).0 ≡ ok tt
      → keys (client.tx_pipeline cs d).1 ≡ after_commands cs (keys d)
  pub tx_err :
      (d : D) (cs : List Command) (e : Error)
      → (client.tx_pipeline cs d).0 ≡ err e
      → (keys (client.tx_pipeline cs d).1 ≡ keys d)
        ⊎ (keys (client.tx_pipeline cs d).1 ≡ after_commands cs (keys d))
  pub del_ok :
      (d : D) (k : Bytes)
      → (client.del_key k d).0 ≡ ok tt
      → keys (client.del_key k d).1 ≡ after_command (del k) (keys d)
  pub del_err :
      (d : D) (k : Bytes) (e : Error)
      → (client.del_key k d).0 ≡ err e
      → (keys (client.del_key k d).1 ≡ keys d)
        ⊎ (keys (client.del_key k d).1 ≡ after_command (del k) (keys d))
