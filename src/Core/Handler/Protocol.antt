-- ===== src/Core/Handler/Protocol.antt =====
-- The protocol from end to end: a line `host:port` and the reply that its client gets.
use tsdns.Prelude.{
  ℕ, ◌≤◌, ◌<◌, false, ◌≡◌, ◌≢◌, refl, ap, ◌∙◌, some, List, [], ◌∷◌, ◌++◌, Bytes, length, take,
  take_all,
}
use tsdns.Text.Bytes.{has_prefix}
use tsdns.Text.Decimal.{itoa}
use tsdns.Text.Space.{space_width, trim_space}
use tsdns.Text.Space.Trailing.{AllSpace, trim_space-append}
use tsdns.Core.Record.{Record}
use tsdns.Core.Regexp.{Regexp}
use tsdns.Core.Cache.{build_tables}
use tsdns.Core.Query.{parse_query}
use tsdns.Core.Query.Accepts.{parse_query_host_port, query_front, query_back, append-ne-nil}
use tsdns.Core.Lookup.{lookup_record}
use tsdns.Core.Lookup.Precedence.{answer, lookup_record-answer}
use tsdns.Core.Server.{Server}
use tsdns.Core.Handler.{Conn, close_conn, max_query_size, handle_query}
use tsdns.Core.Handler.Replies.{
  reply_text, reply_status, outcome, found, line_outcome, handle_query-line_outcome,
}

module _ {R : Type 0} (re : Regexp) where
  line_outcome-ne-nil :
      (raw : Bytes) (s : Server R) (c : Conn)
      → raw ≢ []
      → line_outcome re raw s c
        ≡ outcome
            (reply_status c.write_fails (found re s raw))
            (reply_text (found re s raw) (parse_query raw).1)
            s
            (close_conn c)
  line_outcome-ne-nil [] s c n = absurd (n refl)
  line_outcome-ne-nil (b ∷ raw) s c n = refl

  -- A client that sends the line `h:n`, with ASCII white space such as a newline behind it, gets the
  -- reply for the record that answers `h` among the records in the cache, with the query's port `n`,
  -- and the connection is closed. The host is not empty and starts with neither white space nor
  -- `[`, `n` is below 65536, and the line has at most 512 bytes.
  pub handle_query_host_port :
      (rs : List Record) (s : Server R) (c : Conn) (h w : Bytes) (n : ℕ)
      → s.tables ≡ build_tables re rs
      → c.incoming ≡ some ((h ++ b':' ∷ itoa n) ++ w)
      → length ((h ++ b':' ∷ itoa n) ++ w) ≤ 512
      → h ≢ []
      → space_width h ≡ 0
      → has_prefix h (b'[' ∷ []) ≡ false
      → AllSpace w
      → n < 65536
      → handle_query re s c
        ≡ outcome
            (reply_status c.write_fails (answer re rs h))
            (reply_text (answer re rs h) n)
            s
            (close_conn c)
  handle_query_host_port rs s c h w n tables line fits ne front bracket space port =
      let q : Bytes = h ++ b':' ∷ itoa n in
      let whole : take max_query_size (q ++ w) ≡ q ++ w = take_all 512 (q ++ w) fits in
      let trimmed : trim_space (q ++ w) ≡ q =
        trim_space-append q w (append-ne-nil h b':' (itoa n)) (query_front h n ne front)
          (query_back h n) space in
      let parsed : parse_query q ≡ (h, n) = parse_query_host_port h n port ne front bracket in
      let hosted : found re s q ≡ answer re rs h =
        ap (λ x. lookup_record re s.tables x.0) parsed
        ∙ ap (λ t. lookup_record re t h) tables
        ∙ lookup_record-answer re rs h in
      handle_query-line_outcome re s c (q ++ w) line
      ∙ ap (λ x. line_outcome re (trim_space x) s c) whole
      ∙ ap (λ x. line_outcome re x s c) trimmed
      ∙ line_outcome-ne-nil q s c (append-ne-nil h b':' (itoa n))
      ∙ (λ i.
          outcome (reply_status c.write_fails (hosted i)) (reply_text (hosted i) (parsed i).1) s
            (close_conn c))
