-- ===== src/Repository/Redis/Encoding.antt =====
-- repository/redis/redis.go: the hash of a record, written and read.
use tsdns.Prelude.{ℤ, pos, Option, none, some, List, [], ◌∷◌, Bytes, get_or}
use tsdns.Maps.{lookup}
use tsdns.Text.Bytes.{codes}
use tsdns.Text.Decimal.{parse_int, format_int}
use tsdns.Text.Space.{trim_space}
use tsdns.Net.Addr.{Addr, AddrPort}
use tsdns.Net.AddrPort.{show_addr_port, parse_addr, parse_addr_port}
use tsdns.Core.Record.{Record, Time}
use tsdns.Repository.Redis.Client.{Hash, Encodings}

abbrev pub instance_id_field : Bytes
instance_id_field = codes "instance_id"

abbrev pub targets_field : Bytes
targets_field = codes "targets"

abbrev pub created_at_field : Bytes
created_at_field = codes "created_at"

abbrev pub updated_at_field : Bytes
updated_at_field = codes "updated_at"

-- `m[key]`, and the empty text for a missing key.
unfoldable pub text_of : Bytes → Hash → Bytes
text_of key m = get_or (lookup key m) []

-- The branches of `decodeRecordMap` on a trimmed text.
unfoldable pub decode_id : Bytes → ℤ
decode_id [] = pos 0
decode_id (c ∷ s) = get_or (parse_int (c ∷ s)) (pos 0)

abbrev pub target_texts : List AddrPort → List Bytes
target_texts [] = []
target_texts (t ∷ ts) = show_addr_port t ∷ target_texts ts

-- The fallback of `parseTargetStrings`, by the result of `ParseAddr`: port 0.
unfoldable pub without_port : Option Addr → List AddrPort → List AddrPort
without_port none rest = rest
without_port (some a) rest = record { addr = a; port = 0 } ∷ rest

-- One round, by the result of `ParseAddrPort`.
unfoldable pub put_target : Option AddrPort → Bytes → List AddrPort → List AddrPort
unfolding without_port
put_target (some t) s rest = t ∷ rest
put_target none s rest = without_port (parse_addr s) rest

unfoldable pub parse_target_strings : List Bytes → List AddrPort
unfolding put_target
parse_target_strings [] = []
parse_target_strings (s ∷ ss) = put_target (parse_addr_port s) s (parse_target_strings ss)

-- The text of the targets, where the array cannot be marshalled.
unfoldable pub targets_json : Option Bytes → Bytes
targets_json none = codes "[]"
targets_json (some text) = text

unfoldable pub unmarshalled : Option (List Bytes) → List AddrPort
unfolding parse_target_strings
unmarshalled none = []
unmarshalled (some ss) = parse_target_strings ss

module _ (enc : Encodings) where
  open enc use {format_time, parse_time, marshal, unmarshal}

  unfoldable pub encode_record_map : Record → Hash
  unfolding targets_json
  encode_record_map r =
      (instance_id_field, format_int r.instance_id)
      ∷ (targets_field, targets_json (marshal (target_texts r.targets)))
      ∷ (created_at_field, format_time r.created_at)
      ∷ (updated_at_field, format_time r.updated_at)
      ∷ []

  unfoldable pub decode_time : Bytes → Time
  decode_time [] = 0
  decode_time (c ∷ s) = get_or (parse_time (c ∷ s)) 0

  unfoldable pub decode_targets : Bytes → List AddrPort
  unfolding unmarshalled
  decode_targets [] = []
  decode_targets (c ∷ s) = unmarshalled (unmarshal (c ∷ s))

  unfoldable pub decode_record_map : Bytes → Hash → Record
  unfolding text_of decode_id decode_time decode_targets
  decode_record_map domain m = record {
    id = pos 0;
    instance_id = decode_id (trim_space (text_of instance_id_field m));
    domain = domain;
    targets = decode_targets (text_of targets_field m);
    created_at = decode_time (trim_space (text_of created_at_field m));
    updated_at = decode_time (trim_space (text_of updated_at_field m));
    deleted_at = none;
  }
