-- ===== src/Examples/SqlTables.antt =====
-- A table as a list of rows, which no statement fails on, and a server over it.
use tsdns.Prelude.{
  pos, ◌≡◌, refl, sym, ap, true, false, some, List, [], ◌∷◌, ◌++◌, if◌then◌else◌, Result, ok, err,
  record_nil, record_not_found, arith, take, All, Bool-cases, inl, inr,
}
use mathlib.Core.Option
use tsdns.Text.Bytes.{codes, equal, has_prefix, last_index}
use tsdns.Text.Decimal.{parse_uint}
use tsdns.Text.Space.{trim_space}
use tsdns.Core.Record.{Record}
use tsdns.Core.Cache.{build_tables}
use tsdns.Core.Cache.Contents.{last_record}
use tsdns.Core.Server.{
  Server, upsert_record, delete_instance_records, install, load_cache, refresh_after,
}
use tsdns.Core.Server.Contract.{content_of, unless_instance}
use tsdns.Core.Server.Refresh.{cached, delete_instance_records-cached}
use tsdns.Repository.Sql.Statements.{
  RecordModel, Database, rows_of, without_domain, without_instance, TableLaws,
}
use tsdns.Repository.Sql.{
  find, found_rows, create, delete_by_instance_id, group_models, sql_repository,
}
use tsdns.Repository.Sql.Atomic.{IsAtomic, create-IsAtomic}
use tsdns.Repository.Sql.Contents.{IsKept, IsKept-IsV4}
use tsdns.Repository.Sql.Storage.{IsValid, view, sql_contract, find-create}
use tsdns.Core.Query.{parse_query, parse_trimmed, parse_bracketed, parse_host_port}
use tsdns.Core.Response.{build_response}
use tsdns.Core.Handler.{Conn, close_conn, max_query_size, handle_query}
use tsdns.Core.Handler.Replies.{outcome, hit_status, text_unless_empty}
use tsdns.Core.Handler.Updates.{handle_query-upsert_record}
use tsdns.Examples.Fixtures.{no_regexp, connection, record_for, target}

abbrev Table : Type 0
Table = List RecordModel

abbrev first_row : List RecordModel → Result RecordModel
first_row [] = err record_not_found
first_row (m ∷ ms) = ok m

abbrev committed : Table → Table → Result (Unit {0}) → Result (Unit {0}) × Table
committed before after (ok _) = (ok tt, after)
committed before after (err e) = (err e, before)

abbrev listed : Database Table
listed = record {
  now = λ rows. 9;
  select_all = λ rows. (ok rows, rows);
  select_domain = λ d rows. (ok (rows_of d rows), rows);
  select_one = λ d rows. (first_row (rows_of d rows), rows);
  delete_domain = λ d rows. (ok (ok 1), without_domain d rows);
  delete_instance = λ i rows. (ok 1, without_instance i rows);
  insert_row = λ m rows. (ok tt, rows ++ m ∷ []);
  begin = λ rows. (ok tt, rows);
  finish = committed;
  close = λ rows. (ok tt, rows);
}

listed-TableLaws : TableLaws listed
listed-TableLaws = record {
  rows = λ rows. rows;
  begin_keeps = λ d. refl;
  select_all_keeps = λ d. refl;
  select_all_order = λ d ms domain e g. ap (λ (x : Result Table). rows_of domain (get x)) (sym e);
  select_one_keeps = λ d domain. refl;
  delete_domain_ok = λ d domain n e. refl;
  delete_domain_err = λ d domain x e. cc e;
  delete_instance_ok = λ d i n e. refl;
  delete_instance_err = λ d i x e. cc e;
  insert_row_ok = λ d m e. (m.id, refl);
  commit_ok = λ d e h. refl;
  commit_err = λ d e x h. cc h;
  rollback = λ d e x. (refl, refl);
}
  where
    get : Result Table → Table
    get (ok t) = t
    get (err e) = []

abbrev row : RecordModel
row = record {
  created_at = 3;
  updated_at = 4;
  domain = codes "ts.example";
  ip = codes "10.0.0.7";
  id = pos 1;
  instance_id = pos 7;
  priority = 0;
  port = 9987;
}

abbrev table : Table
table = row ∷ []

table-IsValid : IsValid listed listed-TableLaws table
unfolding listed-TableLaws
table-IsValid domain = elim (Bool-cases (equal row.domain domain)) [
  | inl own ↦ rw own (tt, tt)
  | inr other ↦ rw other tt
]

abbrev added : Record
added = record_for (codes "b") (target ∷ [])

added-IsKept : All IsKept added.targets
added-IsKept = (
  IsKept-IsV4 target 10 0 0 7
      (refl, omega arith, omega arith, omega arith, omega arith, omega arith),
  tt,
)

abbrev behind_create : Table
behind_create = (create listed (some added) table).1

find-create_example :
    Option.map content_of (last_record (codes "b") (group_models behind_create)) ≡ (
      if equal added.domain (codes "b")
      then some (content_of added)
      else view listed listed-TableLaws table (codes "b"))
unfolding find found_rows create trim_space
find-create_example =
    find-create listed listed-TableLaws table added (group_models behind_create) (codes "b")
      table-IsValid added-IsKept refl refl

create-IsAtomic_example :
    IsAtomic listed listed-TableLaws added table (create listed (some added) table)
create-IsAtomic_example = create-IsAtomic listed listed-TableLaws added table

-- A database that inserts no row: the transaction is rolled back.
abbrev full : Database Table
full = record listed { insert_row = λ m rows. (err record_nil, rows) }

full_rolls_back : create full (some added) table ≡ (err record_nil, table)
unfolding create trim_space
full_rolls_back = refl

abbrev sql_server : Server Table
sql_server = record {
  repository = table;
  tables = build_tables no_regexp [];
  events = [];
  addr = codes ":41144";
  cache_refresh_interval = pos 60;
  cancelled = false;
  listening = true;
}

delete_instance_records-cached_example :
    cached
      (delete_instance_records (sql_repository listed) no_regexp (pos 7) sql_server).1
      (codes "b")
    ≡ unless_instance (pos 7) (view listed listed-TableLaws table (codes "b"))
unfolding sql_contract delete_instance_records delete_by_instance_id load_cache refresh_after
    install find found_rows
delete_instance_records-cached_example =
    delete_instance_records-cached (sql_repository listed) no_regexp
      (sql_contract listed listed-TableLaws) (pos 7) sql_server (codes "b") table-IsValid refl

abbrev asked : Conn
asked = connection (codes "b:9987\n")

handle_query-upsert_record_example :
    handle_query no_regexp
      (upsert_record (sql_repository listed) no_regexp (some added) sql_server).1
      asked
    ≡ outcome
        (hit_status false added.targets)
        (text_unless_empty added.targets (
          build_response added
            (parse_query (trim_space (take max_query_size (codes "b:9987\n")))).1))
        (upsert_record (sql_repository listed) no_regexp (some added) sql_server).1
        (close_conn asked)
unfolding sql_contract upsert_record create trim_space load_cache refresh_after install find
    found_rows parse_query parse_trimmed parse_bracketed parse_host_port has_prefix last_index
    parse_uint
handle_query-upsert_record_example =
    handle_query-upsert_record (sql_repository listed) no_regexp
      (sql_contract listed listed-TableLaws) added sql_server asked (codes "b:9987\n") table-IsValid
      added-IsKept refl refl (cc) refl
