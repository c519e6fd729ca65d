-- ===== src/Core/Handler/Replies.antt =====
-- What a client sees of a query, and what the metrics see of it.
use tsdns.Prelude.{
  ℕ, Bool, true, false, ◌≡◌, ◌≢◌, refl, ap, ◌∙◌, Option, none, some, List, [], ◌∷◌, ◌++◌,
  append-nil, Bytes, if◌then◌else◌, take, arith,
}
use tsdns.Text.Space.{trim_space}
use tsdns.Net.Addr.{AddrPort}
use tsdns.Core.Record.{Record}
use tsdns.Core.Regexp.{Regexp}
use tsdns.Core.Query.{parse_query}
use tsdns.Core.Response.{build_response}
use tsdns.Core.Response.Laws.{build_response-nil_iff}
use tsdns.Core.Lookup.{lookup_record}
use tsdns.Core.Metrics.{Status, query, hit, miss, error}
use tsdns.Core.Server.{Server, report}
use tsdns.Core.Handler.{
  Conn, close_conn, max_query_size, not_found_line, send_response, hit_targets, reply_to,
  handle_line, handle_read, handle_query,
}

-- A record without targets is answered by silence.
abbrev pub text_unless_empty : List AddrPort → Bytes → Option Bytes
text_unless_empty [] text = none
text_unless_empty (t ∷ ts) text = some text

-- The text that answers a query with port `q`, where `o` is what was found for its host.
abbrev pub reply_text : Option Record → ℕ → Option Bytes
reply_text none q = some not_found_line
reply_text (some rec) q = text_unless_empty rec.targets (build_response rec q)

-- The texts that are sent: none if writes fail.
abbrev pub sent_texts : Bool → Option Bytes → List Bytes
sent_texts fails none = []
sent_texts true (some text) = []
sent_texts false (some text) = text ∷ []

abbrev pub hit_status : Bool → List AddrPort → Status
hit_status fails [] = hit
hit_status fails (t ∷ ts) = if fails then error else hit

-- A miss is a miss whether or not it could be written, and silence is a hit.
abbrev pub reply_status : Bool → Option Record → Status
reply_status fails none = miss
reply_status fails (some rec) = hit_status fails rec.targets

module _ {R : Type 0} where
  -- The server and the connection behind a query that was answered and counted.
  abbrev pub outcome : Status → Option Bytes → Server R → Conn → Server R × Conn
  outcome status text s c =
      (report (query status ∷ []) s, record c { sent = c.sent ++ sent_texts c.write_fails text })

  send_response-ne-nil :
      (text : Bytes) (s : Server R) (c : Conn)
      → text ≢ []
      → send_response text s c ≡ outcome (if c.write_fails then error else hit) (some text) s c
  unfolding send_response
  send_response-ne-nil [] s c n = absurd (n refl)
  send_response-ne-nil (b ∷ text) s c n = ground (arith, append-nil c.sent)

  hit_targets-outcome :
      (ts : List AddrPort) (text : Bytes) (s : Server R) (c : Conn)
      → (text ≡ [] → ts ≡ [])
      → hit_targets ts text s c
        ≡ outcome (hit_status c.write_fails ts) (text_unless_empty ts text) s c
  unfolding hit_targets
  hit_targets-outcome [] text s c n = ground (arith, append-nil c.sent)
  hit_targets-outcome (t ∷ ts) text s c n = send_response-ne-nil text s c (λ e. cc (n e))

  reply_to-outcome :
      (o : Option Record) (q : ℕ) (s : Server R) (c : Conn)
      → reply_to o q s c ≡ outcome (reply_status c.write_fails o) (reply_text o q) s c
  unfolding reply_to
  reply_to-outcome none q s c = ground (arith, append-nil c.sent)
  reply_to-outcome (some rec) q s c =
      hit_targets-outcome rec.targets (build_response rec q) s c (build_response-nil_iff rec q).0

module _ {R : Type 0} (re : Regexp) where
  -- What was found for the host of a trimmed query.
  abbrev pub found : Server R → Bytes → Option Record
  found s raw = lookup_record re s.tables (parse_query raw).0

  -- The server and the closed connection behind a query line, which is trimmed.
  abbrev pub line_outcome : Bytes → Server R → Conn → Server R × Conn
  line_outcome [] s c = (s, close_conn c)
  line_outcome (b ∷ raw) s c =
      let o = found s (b ∷ raw) in
      outcome (reply_status c.write_fails o) (reply_text o (parse_query (b ∷ raw)).1) s
        (close_conn c)

  handle_line-outcome :
      (raw : Bytes) (s : Server R) (c : Conn)
      → ((handle_line re raw s c).0, close_conn (handle_line re raw s c).1) ≡ line_outcome raw s c
  unfolding handle_line
  handle_line-outcome [] s c = refl
  handle_line-outcome (b ∷ raw) s c =
      ap (λ (x : Server R × Conn). (x.0, close_conn x.1))
        (reply_to-outcome (found s (b ∷ raw)) (parse_query (b ∷ raw)).1 s c)

  -- A connection whose first read gives `chunk` is closed; if its first 512 bytes, trimmed, are
  -- empty, nothing else happens. Else one query is counted, as a miss with the line `404`, as a hit
  -- with silence for a record without targets, and as a hit with the reply for other records, but
  -- as an error if that reply cannot be written. Nothing else of the server changes.
  pub handle_query-line_outcome :
      (s : Server R) (c : Conn) (chunk : Bytes)
      → c.incoming ≡ some chunk
      → handle_query re s c ≡ line_outcome (trim_space (take max_query_size chunk)) s c
  unfolding handle_query
  handle_query-line_outcome s c chunk e =
      ap (λ o. let x = handle_read re o s c in (x.0, close_conn x.1)) e
      ∙ handle_line-outcome (trim_space (take max_query_size chunk)) s c
