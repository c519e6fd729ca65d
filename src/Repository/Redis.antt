-- ===== src/Repository/Redis.antt =====
-- repository/redis/redis.go: records as hashes, the set of their domains and a set of domains for
-- each instance. The client and the encodings are parameters, in Redis/Client.
pub mod Client
pub mod Encoding
pub mod Commands
pub mod KeyNames
pub mod RoundTrip
pub mod Writing
pub mod Indexed
pub mod Deleting
pub mod Reading
pub mod Transactions
pub mod Creating
pub mod Removing
pub mod Storage
pub mod Setup
pub mod History
use tsdns.Prelude.{
  ℤ, pos, none, some, Option, List, [], ◌∷◌, Bytes, if◌then◌else◌, get_or, Result, ok, err,
  record_nil, record_not_found, domain_required,
}
use tsdns.Text.Decimal.{parse_int, parse_int_value}
use tsdns.Text.Space.{trim_space}
use tsdns.Core.Record.{Record, RecordRepository, Time, is_zero}
use tsdns.Repository.Redis.Client.{Hash, Reply, value, nil, failed, Redis, Encodings}
use tsdns.Repository.Redis.Encoding.{
  instance_id_field, created_at_field, encode_record_map, decode_record_map,
}
use tsdns.Repository.Redis.Commands.{
  key_domains, key_record, key_instance_domains, record_keys, create_commands, delete_commands,
  removal_commands,
}

-- `oldInstanceID`, by the result of `HGet`: 0 unless a number was read.
unfoldable pub old_instance_id : Reply Bytes → ℤ
old_instance_id (value v) = get_or (parse_int (trim_space v)) (pos 0)
old_instance_id nil = pos 0
old_instance_id (failed e) = pos 0

-- The times that `Create` writes into the record.
unfoldable pub stamped : Time → Time → Record → Record
stamped now created r = record r {
  created_at = (if is_zero created then now else created);
  updated_at = now;
}

module _ (enc : Encodings) where
  open enc use {parse_time}

  -- The loop of `Find` over the results; a hash that is missing is skipped.
  unfoldable pub put_record : Bytes → Hash → Result (List Record) → Result (List Record)
  put_record d m (err e) = err e
  put_record d [] (ok rest) = ok rest
  put_record d (f ∷ m) (ok rest) = ok (decode_record_map enc d (f ∷ m) ∷ rest)

  unfoldable pub decode_results : List Bytes → List (Result Hash) → Result (List Record)
  unfolding put_record
  decode_results (d ∷ ds) (err e ∷ rs) = err e
  decode_results (d ∷ ds) (ok m ∷ rs) = put_record d m (decode_results ds rs)
  decode_results _ _ = ok []

  -- `Find` behind `Exec`, which may fail with `goredis.Nil`.
  unfoldable pub executed :
      List Bytes → Reply (Unit {0}) × List (Result Hash) → Result (List Record)
  unfolding decode_results
  executed ds (value _, rs) = decode_results ds rs
  executed ds (nil, rs) = decode_results ds rs
  executed ds (failed e, rs) = err e

  unfoldable pub found_hash : Bytes → Result Hash → Result Record
  found_hash domain (err e) = err e
  found_hash domain (ok []) = err record_not_found
  found_hash domain (ok (f ∷ m)) = ok (decode_record_map enc domain (f ∷ m))

  -- `CreatedAt` of a record behind the second `HGet` of `Create`.
  unfoldable pub kept_created_at : Time → Reply Bytes → Time
  kept_created_at created (value v) =
      if is_zero created then get_or (parse_time (trim_space v)) created else created
  kept_created_at created nil = created
  kept_created_at created (failed e) = created

module _ {D : Type 0} (client : Redis D) (enc : Encodings) (prefix : Bytes) where
  -- `Find` behind `SMembers`.
  unfoldable pub find_domains : Result (List Bytes) → D → Result (List Record) × D
  unfolding executed
  find_domains (err e) d = (err e, d)
  find_domains (ok []) d = (ok [], d)
  find_domains (ok (x ∷ xs)) d =
      let (results, d') = client.pipeline (record_keys prefix (x ∷ xs)) d in
      (executed enc (x ∷ xs) results, d')

  unfoldable pub find : D → Result (List Record) × D
  unfolding find_domains
  find d = let (domains, d') = client.smembers (key_domains prefix) d in find_domains domains d'

  unfoldable pub find_by_domain : Bytes → D → Result Record × D
  unfolding found_hash
  find_by_domain domain d =
      let (found, d') = client.hgetall (key_record prefix domain) d in
      (found_hash enc domain found, d')

  -- `Create` behind its two reads, with their results.
  unfoldable pub write_record : Record → Reply Bytes → Reply Bytes → D → Result (Unit {0}) × D
  unfolding old_instance_id kept_created_at stamped
  write_record r id created d =
      let r' = stamped (client.now d) (kept_created_at enc r.created_at created) r in
      client.tx_pipeline (create_commands prefix r' (old_instance_id id) (encode_record_map enc r'))
        d

  unfoldable pub read_then_write : Record → D → Result (Unit {0}) × D
  unfolding write_record
  read_then_write r d =
      let (id, d1) = client.hget (key_record prefix r.domain) instance_id_field d in
      let (created, d2) = client.hget (key_record prefix r.domain) created_at_field d1 in
      write_record r id created d2

  -- `Create`, by the trimmed domain.
  unfoldable pub create_trimmed : Bytes → Record → D → Result (Unit {0}) × D
  unfolding read_then_write
  create_trimmed [] r d = (err domain_required, d)
  create_trimmed (c ∷ domain) r d = read_then_write r d

  unfoldable pub create : Option Record → D → Result (Unit {0}) × D
  unfolding create_trimmed
  create none d = (err record_nil, d)
  create (some r) d = create_trimmed (trim_space r.domain) r d

  -- `Delete` behind `HGet`.
  unfoldable pub delete_found : Bytes → Reply Bytes → D → Result (Unit {0}) × D
  delete_found domain nil d = (err record_not_found, d)
  delete_found domain (failed e) d = (err e, d)
  delete_found domain (value v) d =
      client.tx_pipeline (delete_commands prefix domain (parse_int_value (trim_space v))) d

  unfoldable pub delete : Bytes → D → Result (Unit {0}) × D
  unfolding delete_found
  delete domain d =
      let (found, d') = client.hget (key_record prefix domain) instance_id_field d in
      delete_found domain found d'

  -- `DeleteByInstanceID` behind `SMembers`.
  unfoldable pub delete_domains : ℤ → Result (List Bytes) → D → Result (Unit {0}) × D
  delete_domains i (err e) d = (err e, d)
  delete_domains i (ok []) d = client.del_key (key_instance_domains prefix i) d
  delete_domains i (ok (x ∷ xs)) d = client.tx_pipeline (removal_commands prefix i (x ∷ xs)) d

  unfoldable pub delete_by_instance_id : ℤ → D → Result (Unit {0}) × D
  unfolding delete_domains
  delete_by_instance_id i d =
      let (domains, d') = client.smembers (key_instance_domains prefix i) d in
      delete_domains i domains d'

  -- The methods as the interface that the server takes.
  abbrev pub redis_repository : RecordRepository D
  redis_repository = record {
    find = find;
    find_by_domain = find_by_domain;
    create = create;
    delete = delete;
    delete_by_instance_id = delete_by_instance_id;
    close = client.close;
  }
