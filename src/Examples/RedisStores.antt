-- ===== src/Examples/RedisStores.antt =====
-- Encodings that read back what they write, and the theorems on the Redis repository, over logs.
use tsdns.Prelude.{
  ℕ, ◌+◌, ◌-◌, pos, ◌≡◌, refl, ap, none, some, Option, List, [], ◌∷◌, ◌++◌, Bytes, ◌==◌,
  if◌then◌else◌, ok, arith, All, other,
}
use mathlib.Core.Option
use tsdns.Text.Bytes.{codes, equal}
use tsdns.Text.Decimal.{format_int}
use tsdns.Text.Space.{trim_space, space_width, space_width_back}
use tsdns.Text.Space.Laws.{trim_space_stop}
use tsdns.Core.Record.{Record}
use tsdns.Core.Cache.Contents.{last_record}
use tsdns.Core.Server.Contract.{content_of, unless_instance}
use tsdns.Repository.Redis.Client.{Redis, Encodings, EncodingLaws, IsAscii, failed}
use tsdns.Repository.Redis.Encoding.{encode_record_map, decode_record_map}
use tsdns.Repository.Redis.RoundTrip.{
  IsWritten, IsWritten-IsV4, decode_record_map-encode_record_map,
}
use tsdns.Repository.Redis.Indexed.{IsListed, IsIndexed}
use tsdns.Repository.Redis.Reading.{result_content, view_of, find_by_domain-view_of}
use tsdns.Repository.Redis.Storage.{
  HgetAnswers, IsStorable, find-create_listed, find-delete_by_instance_id_indexed,
}
use tsdns.Repository.Redis.History.{Call, CallsFrom, IsEmpty, CallsFrom-IsIndexed}
use tsdns.Repository.Redis.Commands.{
  key_record, key_domains, key_instance_domains, create_commands, removal_commands,
}
use tsdns.Repository.Redis.{find, find_by_domain, create, delete_by_instance_id}
use tsdns.Examples.Fixtures.{target, play}
use tsdns.Examples.RedisLogs.{Log, logs, logs-RedisLaws, keys_of, reply_of-ne-failed, hash_at}

abbrev joined : List Bytes → Bytes
joined [] = []
joined (s ∷ ss) = s ++ 255 ∷ joined ss

abbrev push : ℕ → List Bytes → List Bytes
push c [] = (c ∷ []) ∷ []
push c (s ∷ ss) = (c ∷ s) ∷ ss

abbrev parts : Bytes → List Bytes
parts [] = []
parts (c ∷ t) = let rest = parts t in if c == 255 then [] ∷ rest else push c rest

abbrev listed_in : Bytes → Option (List Bytes)
listed_in [] = none
listed_in (c ∷ t) = some (parts t)

abbrev timed : Bytes → Option ℕ
timed [] = none
timed (c ∷ t) = some (c - 200)

abbrev plain : Encodings
plain = record {
  format_time = λ t. (t + 200) ∷ [];
  parse_time = timed;
  marshal = λ ss. some (b'[' ∷ joined ss);
  unmarshal = listed_in;
}

parts_cons : (s t : Bytes) → IsAscii s → parts (s ++ 255 ∷ t) ≡ s ∷ parts t
parts_cons [] t h = refl
parts_cons (c ∷ s) t h = ground (arith, parts_cons s t h.1)

parts-joined : (ss : List Bytes) → All IsAscii ss → parts (joined ss) ≡ ss
parts-joined [] h = refl
parts-joined (s ∷ ss) h = rw (parts_cons s (joined ss) h.0, parts-joined ss h.1)

trim_code : (t : ℕ) → trim_space ((t + 200) ∷ []) ≡ (t + 200) ∷ []
trim_code t =
    trim_space_stop _ (unfold space_width in ground arith) (unfold space_width_back in ground arith)

plain-EncodingLaws : EncodingLaws plain
plain-EncodingLaws = record {
  parse-format = λ t h. ap some (omega arith);
  format_trimmed = λ t h. trim_code t;
  format-ne-nil = λ t h e. cc e;
  unmarshal-marshal = λ ts h. (b'[' ∷ joined ts, refl, (λ e. cc e), ap some (parts-joined ts h));
}

logs-HgetAnswers : HgetAnswers logs
logs-HgetAnswers r k f e = reply_of-ne-failed _ e

abbrev prefix : Bytes
prefix = codes "tsdns"

target-IsWritten : All IsWritten play.targets
target-IsWritten = (
  IsWritten-IsV4 target 10 0 0 7
      (refl, omega arith, omega arith, omega arith, omega arith, omega arith),
  tt,
)

play-IsStorable : IsStorable play
play-IsStorable = (omega arith, target-IsWritten)

decode_record_map-encode_record_map_example :
    decode_record_map plain (codes "ts.example") (encode_record_map plain play)
    ≡ record play { id = pos 0; deleted_at = none }
decode_record_map-encode_record_map_example =
    decode_record_map-encode_record_map plain plain-EncodingLaws play (omega arith) target-IsWritten
      (omega arith) (omega arith)

nothing-IsEmpty : IsEmpty (keys_of [])
nothing-IsEmpty = (λ k f. refl, λ k x. refl)

-- The store behind `Create` on an empty one.
abbrev one : Log
one = (create logs plain prefix (some play) []).1

abbrev one-CallsFrom : CallsFrom logs plain prefix [] one
one-CallsFrom = CallsFrom.called [] one CallsFrom.begun (Call.creates [] play play-IsStorable)

CallsFrom-IsIndexed_example : IsIndexed prefix (keys_of one)
unfolding logs-RedisLaws
CallsFrom-IsIndexed_example =
    CallsFrom-IsIndexed logs plain prefix logs-RedisLaws logs-HgetAnswers [] one nothing-IsEmpty
      one-CallsFrom

abbrev read_back : Bytes → Record
read_back d = decode_record_map plain d (hash_at (key_record prefix d) one)

none-IsListed : IsListed prefix (keys_of [])
none-IsListed = record { whole = λ d f e. refl; listed = λ d. refl; readable = λ d v e. cc e }

find-create_listed_example :
    Option.map content_of (last_record (codes "ts.example") (read_back (codes "ts.example") ∷ []))
    ≡ (if equal play.domain (codes "ts.example")
        then some (content_of play)
        else view_of plain prefix (keys_of []) (codes "ts.example"))
unfolding logs-RedisLaws create find trim_space create_commands equal key_instance_domains
    key_domains key_record encode_record_map
find-create_listed_example =
    find-create_listed logs logs-RedisLaws plain plain-EncodingLaws prefix [] play
      (read_back (codes "ts.example") ∷ []) (codes "ts.example") none-IsListed play-IsStorable refl
      refl

find-delete_by_instance_id_indexed_example :
    Option.map content_of (last_record (codes "ts.example") [])
    ≡ unless_instance (pos 7) (view_of plain prefix (keys_of one) (codes "ts.example"))
unfolding logs-RedisLaws create find delete_by_instance_id trim_space create_commands equal
    key_instance_domains key_domains key_record encode_record_map removal_commands format_int
find-delete_by_instance_id_indexed_example =
    find-delete_by_instance_id_indexed logs logs-RedisLaws plain plain-EncodingLaws prefix one
      (pos 7) [] (codes "ts.example") CallsFrom-IsIndexed_example refl refl

find_by_domain-view_of_example :
    result_content (find_by_domain logs plain prefix (codes "ts.example") one).0
    ≡ view_of plain prefix (keys_of one) (codes "ts.example")
unfolding logs-RedisLaws
find_by_domain-view_of_example =
    find_by_domain-view_of logs logs-RedisLaws plain prefix one (codes "ts.example")
      (hash_at (key_record prefix (codes "ts.example")) one)
      CallsFrom-IsIndexed_example.is_listed_too refl

-- A client whose reads of fields fail.
abbrev deaf : Redis Log
deaf = record logs { hget = λ k f log. (failed (other []), log) }

abbrev moved : Record
moved = record play { instance_id = pos 8 }

-- The record moves to the instance 8 while the reads of `Create` fail, and the deletion of the
-- instance 7 then deletes it.
moved_then_deleted :
    (find logs plain prefix
      (delete_by_instance_id logs plain prefix
        (pos 7)
        (create deaf plain prefix (some moved) one).1).1).0
    ≡ ok []
unfolding create find delete_by_instance_id trim_space create_commands equal key_instance_domains
    key_domains key_record encode_record_map removal_commands format_int
moved_then_deleted = refl
