-- ===== src/Repository/Redis/Creating.antt =====
-- `Create` on the store.
use tsdns.Prelude.{
  ◌≡◌, ◌≢◌, refl, sym, ap, ◌∙◌, true, false, Option, none, some, List, [], ◌∷◌, Bytes,
  if◌then◌else◌, ok, Error, All, Bool-cases, inl, inr,
}
use mathlib.Core.Path.{subst}
use tsdns.Maps.{lookup}
use tsdns.Text.Bytes.{equal}
use tsdns.Text.Decimal.{format_int}
use tsdns.Text.Decimal.Signed.{IsInt64}
use tsdns.Text.Space.{trim_space}
use tsdns.Core.Record.{Record}
use tsdns.Core.Server.Contract.{content_of}
use tsdns.Repository.Redis.Client.{
  Command, Keys, Reply, value, nil, failed, Redis, RedisLaws, Encodings, EncodingLaws,
  after_commands, or_else,
}
use tsdns.Repository.Redis.Encoding.{
  instance_id_field, targets_field, created_at_field, targets_json, target_texts, encode_record_map,
}
use tsdns.Repository.Redis.Commands.{key_record, create_commands}
use tsdns.Repository.Redis.RoundTrip.{
  IsWritten, decode_id-parse_int, decode_id-format_int, decode_targets-json,
}
use tsdns.Repository.Redis.Transactions.{tx_keeps}
use tsdns.Repository.Redis.Writing.{field_of, created_field}
use tsdns.Repository.Redis.Indexed.{
  id_of, id_text, IsListed, IsIndexed, created-IsListed, created-IsIndexed,
}
use tsdns.Repository.Redis.Reading.{content_from, view_of}
use tsdns.Repository.Redis.{
  old_instance_id, kept_created_at, stamped, write_record, read_then_write, create_trimmed, create,
}

-- The instance that `Create` takes for the old one, if its read does not fail.
old-id_of :
    (x : Reply Bytes) (o : Option Bytes) (v : Bytes)
    → ((v : Bytes) → x ≡ value v → o ≡ some v)
    → (x ≡ nil → o ≡ none)
    → ((e : Error) → x ≢ failed e)
    → o ≡ some v
    → id_of v ≡ old_instance_id x
unfolding old_instance_id
old-id_of (value w) o v there gone answers e =
    let same : v ≡ w = cc (there w refl, e) in ap id_of same ∙ decode_id-parse_int (trim_space w)
old-id_of nil o v there gone answers e = absurd (cc (gone refl, e))
old-id_of (failed x) o v there gone answers e = absurd (answers x refl)

module _ {D : Type 0} (client : Redis D) (laws : RedisLaws client) where
  open laws use {keys}

  module _ (enc : Encodings) (prefix : Bytes) where
    module _ (rec : Record) (r : D) where
      abbrev id_read : Reply Bytes × D
      id_read = client.hget (key_record prefix rec.domain) instance_id_field r

      abbrev created_read : Reply Bytes × D
      created_read = client.hget (key_record prefix rec.domain) created_at_field id_read.1

      abbrev written : Record
      written =
          stamped (client.now created_read.1) (kept_created_at enc rec.created_at created_read.0)
            rec

      abbrev put : List Command
      put =
          create_commands prefix written (old_instance_id id_read.0) (encode_record_map enc written)

      reads_keep : keys created_read.1 ≡ keys r
      reads_keep = laws.hget_keeps id_read.1 _ _ ∙ laws.hget_keeps r _ _

      create_trimmed-keeps :
          (P : Keys → Type 0) (t : Bytes)
          → P (keys r)
          → P (after_commands put (keys r))
          → P (keys (create_trimmed client enc prefix t rec r).1)
      unfolding create_trimmed read_then_write write_record
      create_trimmed-keeps P [] before after = before
      create_trimmed-keeps P (c ∷ t) before after =
          tx_keeps client laws P put created_read.1 (subst P (sym reads_keep) before)
            (subst (λ ks. P (after_commands put ks)) (sym reads_keep) after)

      create_trimmed-ok :
          (t : Bytes)
          → (create_trimmed client enc prefix t rec r).0 ≡ ok tt
          → keys (create_trimmed client enc prefix t rec r).1 ≡ after_commands put (keys r)
      unfolding create_trimmed read_then_write write_record
      create_trimmed-ok [] h = absurd (cc h)
      create_trimmed-ok (c ∷ t) h =
          laws.tx_ok created_read.1 put h ∙ ap (after_commands put) reads_keep

      pub create_keys :
          (create client enc prefix (some rec) r).0 ≡ ok tt
          → keys (create client enc prefix (some rec) r).1 ≡ after_commands put (keys r)
      unfolding create
      create_keys h = create_trimmed-ok (trim_space rec.domain) h

      wrote_id :
          lookup instance_id_field (encode_record_map enc written)
          ≡ some (format_int rec.instance_id)
      unfolding encode_record_map lookup equal stamped
      wrote_id = refl

      wrote_targets :
          lookup targets_field (encode_record_map enc written)
          ≡ some (targets_json (enc.marshal (target_texts rec.targets)))
      unfolding encode_record_map lookup equal stamped
      wrote_targets = refl

      pub create-IsListed :
          IsInt64 rec.instance_id
          → IsListed prefix (keys r)
          → IsListed prefix (keys (create client enc prefix (some rec) r).1)
      unfolding create stamped
      create-IsListed range v = create_trimmed-keeps (IsListed prefix) (trim_space rec.domain) v (
          created-IsListed prefix written (old_instance_id id_read.0)
            (encode_record_map enc written) (keys r) wrote_id range v)

      pub create-IsIndexed :
          ((e : Error) → id_read.0 ≢ failed e)
          → IsInt64 rec.instance_id
          → IsIndexed prefix (keys r)
          → IsIndexed prefix (keys (create client enc prefix (some rec) r).1)
      unfolding create stamped
      create-IsIndexed answers range v =
          create_trimmed-keeps (IsIndexed prefix) (trim_space rec.domain) v (
            created-IsIndexed prefix written (old_instance_id id_read.0)
              (encode_record_map enc written) (keys r) wrote_id range
              (λ t e.
                old-id_of id_read.0 (id_text prefix (keys r) rec.domain) t
                  (λ w h. laws.hget_value r _ _ w h) (λ h. laws.hget_nil r _ _ h) answers e)
              v)

      content_written :
          EncodingLaws enc
          → IsInt64 rec.instance_id
          → All IsWritten rec.targets
          → (v t : Bytes) → v ≡ format_int rec.instance_id
          → t ≡ targets_json (enc.marshal (target_texts rec.targets))
          → content_from enc (some v) (some t) ≡ some (content_of rec)
      content_written encoded range kept v t e h = rw (
        e,
        h,
        decode_id-format_int rec.instance_id range,
        decode_targets-json enc encoded rec.targets kept,
      )

      abbrev after : Keys
      after = after_commands put (keys r)

      after_field :
          (f d : Bytes)
          → field_of prefix after d f ≡ (
              if equal rec.domain d
              then or_else (lookup f (encode_record_map enc written)) (field_of prefix (keys r) d f)
              else field_of prefix (keys r) d f)
      unfolding stamped
      after_field f d =
          created_field prefix written (old_instance_id id_read.0) (encode_record_map enc written)
            (keys r) d f

      own_field :
          (f d : Bytes) (text : Bytes)
          → equal rec.domain d ≡ true
          → lookup f (encode_record_map enc written) ≡ some text
          → field_of prefix after d f ≡ some text
      own_field f d text own wrote =
          after_field f d ∙ rw own (ap (λ o. or_else o (field_of prefix (keys r) d f)) wrote)

      other_field :
          (f d : Bytes)
          → equal rec.domain d ≡ false
          → field_of prefix after d f ≡ field_of prefix (keys r) d f
      other_field f d other = after_field f d ∙ rw other

      pub create_view :
          EncodingLaws enc
          → IsInt64 rec.instance_id
          → All IsWritten rec.targets
          → (create client enc prefix (some rec) r).0 ≡ ok tt
          → (d : Bytes)
          → view_of enc prefix (keys (create client enc prefix (some rec) r).1) d
            ≡ (if equal rec.domain d then some (content_of rec) else view_of enc prefix (keys r) d)
      create_view encoded range kept h d =
          ap (λ ks. view_of enc prefix ks d) (create_keys h)
          ∙ elim (Bool-cases (equal rec.domain d)) [
            | inl own ↦
                ap (λ o. content_from enc o (field_of prefix after d targets_field))
                  (own_field instance_id_field d _ own wrote_id)
                ∙ ap (content_from enc (some (format_int rec.instance_id)))
                    (own_field targets_field d _ own wrote_targets)
                ∙ content_written encoded range kept _ _ refl refl
                ∙ rw own
            | inr other ↦
                ap (λ o. content_from enc o (field_of prefix after d targets_field))
                  (other_field instance_id_field d other)
                ∙ ap (content_from enc (id_text prefix (keys r) d))
                    (other_field targets_field d other)
                ∙ rw other
          ]
