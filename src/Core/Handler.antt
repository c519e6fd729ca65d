-- ===== src/Core/Handler.antt =====
-- `handleQuery`, `handleHit` and `handleNotFound` of core/handler.go.
pub mod Replies
pub mod Protocol
pub mod Updates
use tsdns.Prelude.{
  ℕ, Bool, true, false, Option, none, some, List, [], ◌∷◌, ◌++◌, Bytes, if◌then◌else◌, take,
}
use tsdns.Text.Bytes.{codes}
use tsdns.Text.Space.{trim_space}
use tsdns.Net.Addr.{AddrPort}
use tsdns.Core.Record.{Record}
use tsdns.Core.Regexp.{Regexp}
use tsdns.Core.Query.{parse_query}
use tsdns.Core.Response.{build_response}
use tsdns.Core.Lookup.{lookup_record}
use tsdns.Core.Metrics.{query, hit, miss, error}
use tsdns.Core.Server.{Server, report}

-- A connection: the bytes that are ready when the handler reads, `none` if the read fails; whether
-- writes fail; the texts that were sent; whether it is closed.
pub record Conn : Type 0 where
  pub incoming : Option Bytes
  pub write_fails : Bool
  pub sent : List Bytes
  pub closed : Bool

-- `conn.Write` of the whole text; a text whose write fails does not count as sent.
unfoldable pub write : Bytes → Conn → Conn
write text c = if c.write_fails then c else record c { sent = c.sent ++ text ∷ [] }

-- `defer conn.Close()`.
abbrev pub close_conn : Conn → Conn
close_conn c = record c { closed = true }

abbrev pub max_query_size : ℕ
max_query_size = 512

-- The line `404\n`.
abbrev pub not_found_line : Bytes
not_found_line = codes "404\n"

module _ {R : Type 0} where
  unfoldable pub handle_not_found : Server R → Conn → Server R × Conn
  unfolding write
  handle_not_found s c = (report (query miss ∷ []) s, write not_found_line c)

  -- `handleHit` behind its first test.
  unfoldable pub send_response : Bytes → Server R → Conn → Server R × Conn
  unfolding write
  send_response [] s c = (report (query error ∷ []) s, c)
  send_response (b ∷ response) s c =
      if c.write_fails
      then (report (query error ∷ []) s, write (b ∷ response) c)
      else (report (query hit ∷ []) s, write (b ∷ response) c)

  -- No target stands for NORESPONSE: there is no reply on purpose.
  unfoldable pub hit_targets : List AddrPort → Bytes → Server R → Conn → Server R × Conn
  unfolding send_response
  hit_targets [] response s c = (report (query hit ∷ []) s, c)
  hit_targets (t ∷ ts) response s c = send_response response s c

  unfoldable pub handle_hit : ℕ → Record → Server R → Conn → Server R × Conn
  unfolding hit_targets
  handle_hit port rec s c = hit_targets rec.targets (build_response rec port) s c

  -- The two ways to answer: `exists` is false for `none`.
  unfoldable pub reply_to : Option Record → ℕ → Server R → Conn → Server R × Conn
  unfolding handle_not_found handle_hit
  reply_to none port s c = handle_not_found s c
  reply_to (some rec) port s c = handle_hit port rec s c

module _ {R : Type 0} (re : Regexp) where
  -- `handleQuery` behind the test for an empty query.
  unfoldable pub answer_query : Bytes → Server R → Conn → Server R × Conn
  unfolding reply_to
  answer_query raw s c =
      let (host, port) = parse_query raw in reply_to (lookup_record re s.tables host) port s c

  unfoldable pub handle_line : Bytes → Server R → Conn → Server R × Conn
  unfolding answer_query
  handle_line [] s c = (s, c)
  handle_line (b ∷ raw) s c = answer_query (b ∷ raw) s c

  -- One read of at most 512 bytes is the whole query.
  unfoldable pub handle_read : Option Bytes → Server R → Conn → Server R × Conn
  unfolding handle_line
  handle_read none s c = (s, c)
  handle_read (some chunk) s c = handle_line (trim_space (take max_query_size chunk)) s c

  unfoldable pub handle_query : Server R → Conn → Server R × Conn
  unfolding handle_read
  handle_query s c = let (s', c') = handle_read c.incoming s c in (s', close_conn c')
