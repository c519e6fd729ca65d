-- ===== src/Examples/Servers.antt =====
-- A repository in memory, its server, and a connection.
use tsdns.Prelude.{
  pos, ◌≡◌, sym, refl, ap, ◌∙◌, Bool, false, Option, none, some, List, [], ◌∷◌, ◌++◌, Bytes,
  if◌then◌else◌, ok, err, record_nil, record_not_found, other, arith, take, Bool-cases, inl, inr,
}
use mathlib.Core.Option
use tsdns.Text.Bytes.{codes, equal, equal_iff, has_prefix}
use tsdns.Text.Space.{space_width, trim_space}
use tsdns.Text.Decimal.{itoa}
use tsdns.Core.Record.{Record, RecordRepository}
use tsdns.Core.Cache.Contents.{last_record}
use tsdns.Core.Server.{
  upsert_record, delete_record, delete_instance_records, install, load_cache, refresh_after,
}
use tsdns.Core.Server.Contract.{content_of, Contract}
use tsdns.Core.Server.Refresh.{cached, upsert_record-cached, failed_change_keeps_tables}
use tsdns.Core.Handler.{handle_query, max_query_size, close_conn}
use tsdns.Core.Handler.Replies.{
  line_outcome, outcome, reply_text, reply_status, handle_query-line_outcome,
}
use tsdns.Core.Handler.Protocol.{handle_query_host_port}
use tsdns.Core.Lookup.Precedence.{answer}
use tsdns.Examples.Fixtures.{no_regexp, stored, glob, server, connection}

-- The rest of a list when the records of a domain are gone.
abbrev pub without : Bytes → List Record → List Record
without domain [] = []
without domain (r ∷ rs) =
    let rest = without domain rs in if equal r.domain domain then rest else r ∷ rest

-- A list of records as a repository; a record that was added later hides those before it.
abbrev pub memory : RecordRepository (List Record)
memory = record {
  find = λ rs. (ok rs, rs);
  find_by_domain =
      λ d rs. (elim (last_record d rs) [ none ↦ err record_not_found | some r ↦ ok r ], rs);
  create = λ o rs. elim o [ none ↦ (err record_nil, rs) | some r ↦ (ok tt, rs ++ r ∷ []) ];
  delete = λ d rs. (ok tt, without d rs);
  delete_by_instance_id = λ i rs. (err (other (codes "not kept")), rs);
  close = λ rs. (ok tt, rs);
}

pub last_record-append :
    (d : Bytes) (rs : List Record) (r : Record)
    → last_record d (rs ++ r ∷ []) ≡ (if equal r.domain d then some r else last_record d rs)
last_record-append d [] r = refl
last_record-append d (x ∷ rs) r = ground (arith, last_record-append d rs r)

pub last_record-without :
    (domain d : Bytes) (rs : List Record)
    → last_record d (without domain rs) ≡ (if equal domain d then none else last_record d rs)
last_record-without domain d [] = ground arith
last_record-without domain d (x ∷ rs) = elim (Bool-cases (equal x.domain domain)) [
  | inl gone ↦
      let same = ap (λ y. equal y d) ((equal_iff x.domain domain).0 gone) in
      ground (arith, same, last_record-without domain d rs)
  | inr kept ↦
      ground
        (arith, last_record-without domain d rs, (equal_iff x.domain d).0, (equal_iff domain d).0)
]

pub if-map :
    (b : Bool) (o p : Option Record)
    → Option.map content_of (if b then o else p)
      ≡ (if b then Option.map content_of o else Option.map content_of p)
if-map b o p = ground arith

pub found_same : (r rs : List Record) → ok r ≡ ok rs → r ≡ rs
found_same r rs e = cc e

unfoldable pub memory-Contract : Contract memory
memory-Contract = record {
  IsValid = λ rs. Unit;
  view = λ rs d. Option.map content_of (last_record d rs);
  Storable = λ r. Unit;
  find_keeps = λ r v. tt;
  create_keeps = λ r rec s v. tt;
  delete_keeps = λ r d v. tt;
  delete_by_instance_id_keeps = λ r i v. tt;
  find_view =
      λ r rs d v e. ap (λ x. Option.map content_of (last_record d x)) (sym (found_same r rs e));
  create_view = λ r rec d v s e.
      ap (Option.map content_of) (last_record-append d r rec)
      ∙ if-map (equal rec.domain d) (some rec) (last_record d r);
  delete_view = λ r domain d v e.
      ap (Option.map content_of) (last_record-without domain d r)
      ∙ if-map (equal domain d) none (last_record d r);
  delete_by_instance_id_view = λ r i d v e. cc e;
}

upsert_record-cached_example :
    cached (upsert_record memory no_regexp (some glob) server).1 (codes "a?c") ≡ (
      if equal glob.domain (codes "a?c")
      then some (content_of glob)
      else Option.map content_of (last_record (codes "a?c") stored))
unfolding upsert_record load_cache refresh_after install memory-Contract
upsert_record-cached_example =
    upsert_record-cached memory no_regexp memory-Contract glob server (codes "a?c") tt tt refl

failed_change_keeps_tables_example :
    ((upsert_record memory no_regexp none server).0 ≡ err record_nil
      → (upsert_record memory no_regexp none server).1.tables ≡ server.tables)
    × ((delete_record memory no_regexp (codes "x") server).0 ≡ err record_nil
        → (delete_record memory no_regexp (codes "x") server).1.tables ≡ server.tables)
    × ((delete_instance_records memory no_regexp (pos 7) server).0 ≡ err record_nil
        → (delete_instance_records memory no_regexp (pos 7) server).1.tables ≡ server.tables)
failed_change_keeps_tables_example =
    failed_change_keeps_tables memory no_regexp none (codes "x") (pos 7) server record_nil

handle_query-line_outcome_example :
    handle_query no_regexp server (connection (codes "ts.example:9987\n"))
    ≡ line_outcome no_regexp
        (trim_space (take max_query_size (codes "ts.example:9987\n")))
        server
        (connection (codes "ts.example:9987\n"))
handle_query-line_outcome_example =
    handle_query-line_outcome no_regexp server (connection (codes "ts.example:9987\n"))
      (codes "ts.example:9987\n") refl

abbrev line : Bytes
line = (codes "ts.example" ++ b':' ∷ itoa 9987) ++ codes "\n"

handle_query_host_port_example :
    handle_query no_regexp server (connection line)
    ≡ outcome
        (reply_status false (answer no_regexp stored (codes "ts.example")))
        (reply_text (answer no_regexp stored (codes "ts.example")) 9987)
        server
        (close_conn (connection line))
unfolding space_width has_prefix itoa
handle_query_host_port_example =
    handle_query_host_port no_regexp stored server (connection line) (codes "ts.example")
      (codes "\n") 9987 refl refl (omega arith) (cc) refl refl (refl, tt) (omega arith)
