-- ===== src/Core/Handler/Updates.antt =====
-- What clients get for a domain whose record was changed just before.
use tsdns.Prelude.{
  ◌≡◌, ◌≢◌, refl, sym, ap, ◌∙◌, Option, none, some, List, [], ◌∷◌, Bytes, if◌then◌else◌, ok, take,
  arith,
}
use mathlib.Core.Option
use mathlib.Core.Option.{some-injective}
use tsdns.Maps.{lookup}
use tsdns.Text.Bytes.{equal_refl}
use tsdns.Text.Space.{trim_space}
use tsdns.Net.Addr.{AddrPort}
use tsdns.Core.Record.{Record, RecordRepository}
use tsdns.Core.Regexp.{Regexp}
use tsdns.Core.Cache.{Tables}
use tsdns.Core.Query.{parse_query, parse_trimmed}
use tsdns.Core.Response.{build_response, respond}
use tsdns.Core.Lookup.{lookup_record}
use tsdns.Core.Server.{Server, upsert_record}
use tsdns.Core.Server.Contract.{Content, content_of, Contract}
use tsdns.Core.Server.Refresh.{cached, upsert_record-cached}
use tsdns.Core.Handler.{Conn, close_conn, max_query_size, handle_query}
use tsdns.Core.Handler.Replies.{
  text_unless_empty, hit_status, reply_text, reply_status, outcome, found, line_outcome,
  handle_query-line_outcome,
}

Option-map-some :
    (o : Option Record) (c : Content)
    → Option.map content_of o ≡ some c
    → (r : Record) × (o ≡ some r) × (content_of r ≡ c)
Option-map-some none c e = absurd (cc e)
Option-map-some (some r) c e = (r, refl, some-injective _ _ e)

lookup_record_exact :
    (re : Regexp) (t : Tables) (host : Bytes) (r : Record)
    → lookup host t.cache ≡ some r
    → lookup_record re t host ≡ some r
unfolding lookup_record
lookup_record_exact re t host r e = ground (arith, e)

module _ {R : Type 0} (re : Regexp) where
  -- The reply depends on what is found only through its targets.
  found_reply :
      (raw : Bytes) (s : Server R) (c : Conn) (r : Record) (ts : List AddrPort)
      → raw ≢ []
      → found re s raw ≡ some r
      → r.targets ≡ ts
      → line_outcome re raw s c
        ≡ outcome
            (hit_status c.write_fails ts)
            (text_unless_empty ts (respond (parse_query raw).1 ts))
            s
            (close_conn c)
  unfolding build_response
  found_reply [] s c r ts n e h = absurd (n refl)
  found_reply (b ∷ raw) s c r ts n e h =
      ap
        (λ o.
          outcome (reply_status c.write_fails o) (reply_text o (parse_query (b ∷ raw)).1) s
            (close_conn c))
        e
      ∙ ap
          (λ x.
            outcome (hit_status c.write_fails x)
              (text_unless_empty x (respond (parse_query (b ∷ raw)).1 x)) s (close_conn c))
          h

empty_query : (parse_query []).0 ≡ []
unfolding parse_query parse_trimmed trim_space
empty_query = refl

module _ {R : Type 0} (re : Regexp) where
  -- A query whose host is a domain that the cache holds is answered with the targets held for it.
  pub handle_query-cached :
      (s : Server R) (c : Conn) (chunk domain : Bytes) (held : Content)
      → cached s domain ≡ some held
      → c.incoming ≡ some chunk
      → domain ≢ []
      → (parse_query (trim_space (take max_query_size chunk))).0 ≡ domain
      → handle_query re s c
        ≡ outcome
            (hit_status c.write_fails held.targets)
            (text_unless_empty held.targets
              (respond (parse_query (trim_space (take max_query_size chunk))).1 held.targets))
            s
            (close_conn c)
  handle_query-cached s c chunk domain held h line ne host =
      let q : Bytes = trim_space (take max_query_size chunk) in
      let (r, e, same) = Option-map-some (lookup domain s.tables.cache) held h in
      let hit : found re s q ≡ some r =
        ap (lookup_record re s.tables) host ∙ lookup_record_exact re s.tables domain r e in
      let asked : q ≢ [] = λ x. ne (sym host ∙ ap (λ y. (parse_query y).0) x ∙ empty_query) in
      handle_query-line_outcome re s c chunk line
      ∙ found_reply re q s c r held.targets asked hit (ap (λ (x : Content). x.targets) same)

module _ {R : Type 0} (repo : RecordRepository R) (re : Regexp) (laws : Contract repo) where
  -- If `UpsertRecord` succeeds for a record, in a valid state of a repository that meets its contract
  -- and can store the record, then a client whose query, behind that, has exactly the record's
  -- domain for its host gets the reply that lists the record's targets, or silence if there are
  -- none, whatever the repository held before. The domain is not empty.
  pub handle_query-upsert_record :
      (rec : Record) (s : Server R) (c : Conn) (chunk : Bytes)
      → laws.IsValid s.repository
      → laws.Storable rec
      → (upsert_record repo re (some rec) s).0 ≡ ok tt
      → c.incoming ≡ some chunk
      → rec.domain ≢ []
      → (parse_query (trim_space (take max_query_size chunk))).0 ≡ rec.domain
      → handle_query re (upsert_record repo re (some rec) s).1 c
        ≡ outcome
            (hit_status c.write_fails rec.targets)
            (text_unless_empty rec.targets
              (build_response rec (parse_query (trim_space (take max_query_size chunk))).1))
            (upsert_record repo re (some rec) s).1
            (close_conn c)
  unfolding build_response
  handle_query-upsert_record rec s c chunk v storable h line ne host =
      handle_query-cached re (upsert_record repo re (some rec) s).1 c chunk rec.domain
        (content_of rec)
        (upsert_record-cached repo re laws rec s rec.domain v storable h
          ∙ ap (λ b. if b then some (content_of rec) else laws.view s.repository rec.domain)
              (equal_refl rec.domain))
        line ne host
