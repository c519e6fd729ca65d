-- ===== src/Repository/Redis/RoundTrip.antt =====
-- The hash of a record is read back as the record.
use tsdns.Prelude.{
  ℕ, ℤ, pos, ◌<◌, ◌≡◌, ◌≢◌, refl, sym, ap, ◌∙◌, none, some, List, [], ◌∷◌, ◌++◌, Bytes, All,
  All-append, arith, get_or,
}
use mathlib.Core.Path.{subst}
use tsdns.Maps.{lookup}
use tsdns.Text.Bytes.{equal}
use tsdns.Text.Decimal.{parse_int, itoa, format_int}
use tsdns.Text.Decimal.RoundTrip.{IsDigit, itoa_digits}
use tsdns.Text.Decimal.Signed.{IsInt64, parse_int-format_int, trim_space-format_int}
use tsdns.Text.Space.{trim_space}
use tsdns.Net.Addr.{AddrPort, IsV4, v4}
use tsdns.Net.V4.{show_v4}
use tsdns.Net.AddrPort.{show_addr_port, parse_addr_port}
use tsdns.Net.AddrPort.Laws.{parse_addr_port-show_addr_port}
use tsdns.Core.Record.{Record, Time}
use tsdns.Repository.Redis.Client.{Encodings, EncodingLaws, IsAscii, IsDated}
use tsdns.Repository.Redis.Encoding.{
  target_texts, put_target, parse_target_strings, targets_json, unmarshalled, text_of, decode_id,
  decode_time, decode_targets, encode_record_map, decode_record_map,
}

-- The text of the target is ASCII, and is read back as the target.
abbrev pub IsWritten : AddrPort → Type 0
IsWritten t = IsAscii (show_addr_port t) × (parse_addr_port (show_addr_port t) ≡ some t)

digits-IsAscii : (s : Bytes) → All IsDigit s → IsAscii s
digits-IsAscii [] h = tt
digits-IsAscii (c ∷ s) h = (omega arith, digits-IsAscii s h.1)

-- Two parts with an ASCII byte between them.
IsAscii-join : (s t : Bytes) (c : ℕ) → c < 128 → IsAscii s → IsAscii t → IsAscii (s ++ c ∷ t)
IsAscii-join s t c l hs ht = All-append (λ b. b < 128) s (c ∷ t) hs (l, ht)

itoa-IsAscii : (n : ℕ) → IsAscii (itoa n)
itoa-IsAscii n = digits-IsAscii (itoa n) (itoa_digits n)

-- An IPv4 address with its port is written so.
pub IsWritten-IsV4 : (t : AddrPort) (a b c d : ℕ) → IsV4 t a b c d → IsWritten t
unfolding show_addr_port show_v4
IsWritten-IsV4 t a b c d v =
    let same : t ≡ record { addr = v4 a b c d; port = t.port } =
      ap (λ (x : _). record { addr = x; port = t.port }) v.0 in
    subst IsWritten (sym same) (
      IsAscii-join _ _ _ (omega arith)
          (IsAscii-join _ _ _ (omega arith) (itoa-IsAscii a) (
            IsAscii-join _ _ _ (omega arith) (itoa-IsAscii b)
              (IsAscii-join _ _ _ (omega arith) (itoa-IsAscii c) (itoa-IsAscii d))))
          (itoa-IsAscii t.port),
      parse_addr_port-show_addr_port a b c d v.1 v.2 v.3 v.4 t.port v.5,
    )

texts-IsAscii : (ts : List AddrPort) → All IsWritten ts → All IsAscii (target_texts ts)
texts-IsAscii [] h = tt
texts-IsAscii (t ∷ ts) h = (h.0.0, texts-IsAscii ts h.1)

parse_target_strings-target_texts :
    (ts : List AddrPort) → All IsWritten ts → parse_target_strings (target_texts ts) ≡ ts
unfolding parse_target_strings put_target
parse_target_strings-target_texts [] h = refl
parse_target_strings-target_texts (t ∷ ts) h =
    rw h.0.1 (ap (◌∷◌ t) (parse_target_strings-target_texts ts h.1))

pub decode_id-parse_int : (s : Bytes) → decode_id s ≡ get_or (parse_int s) (pos 0)
unfolding decode_id
decode_id-parse_int [] = unfold parse_int in refl
decode_id-parse_int (c ∷ s) = refl

-- The text of an instance that is stored.
pub decode_id-format_int : (i : ℤ) → IsInt64 i → decode_id (trim_space (format_int i)) ≡ i
decode_id-format_int i h =
    rw trim_space-format_int (decode_id-parse_int (format_int i) ∙ rw (parse_int-format_int i h))

module _ (enc : Encodings) (laws : EncodingLaws enc) where
  decode_time-ne-nil :
      (s : Bytes) (t : Time) → s ≢ [] → enc.parse_time s ≡ some t → decode_time enc s ≡ t
  unfolding decode_time
  decode_time-ne-nil [] t n e = absurd (n refl)
  decode_time-ne-nil (c ∷ s) t n e = rw e

  decode_time-format : (t : Time) → IsDated t → decode_time enc (trim_space (enc.format_time t)) ≡ t
  decode_time-format t h =
      ap (decode_time enc) (laws.format_trimmed t h)
      ∙ decode_time-ne-nil (enc.format_time t) t (laws.format-ne-nil t h) (laws.parse-format t h)

  decode_targets-ne-nil :
      (s : Bytes) (ss : List Bytes)
      → s ≢ []
      → enc.unmarshal s ≡ some ss
      → decode_targets enc s ≡ parse_target_strings ss
  unfolding decode_targets unmarshalled
  decode_targets-ne-nil [] ss n e = absurd (n refl)
  decode_targets-ne-nil (c ∷ s) ss n e = rw e

  pub decode_targets-json :
      (ts : List AddrPort)
      → All IsWritten ts
      → decode_targets enc (targets_json (enc.marshal (target_texts ts))) ≡ ts
  unfolding targets_json
  decode_targets-json ts h =
      let (text, written, present, read) =
        laws.unmarshal-marshal (target_texts ts) (texts-IsAscii ts h) in
      ap (λ m. decode_targets enc (targets_json m)) written
      ∙ decode_targets-ne-nil text (target_texts ts) present read
      ∙ parse_target_strings-target_texts ts h

  -- Each record whose instance fits in 64 bits, whose targets are read back from their texts, and
  -- whose times have years of four digits, is decoded from its hash with the number 0 and not
  -- deleted; where `time` and `encoding/json` read back what they write.
  pub decode_record_map-encode_record_map :
      (r : Record)
      → IsInt64 r.instance_id
      → All IsWritten r.targets
      → IsDated r.created_at
      → IsDated r.updated_at
      → decode_record_map enc r.domain (encode_record_map enc r)
        ≡ record r { id = pos 0; deleted_at = none }
  unfolding decode_record_map encode_record_map text_of lookup equal
  decode_record_map-encode_record_map r i ts c u = rw (
    decode_id-format_int r.instance_id i,
    decode_targets-json r.targets ts,
    decode_time-format r.created_at c,
    decode_time-format r.updated_at u,
  )
