-- ===== src/Api/Requests.antt =====
-- Requests and responses, as far as internal/api/handlers.go and internal/api/auth.go read and
-- write them.
use tsdns.Prelude.{ℕ, ℤ, Option, List, Bytes, Error}
use tsdns.Core.Record.{Record}

pub record UpsertRecordRequest : Type 0 where
  pub domain : Bytes
  pub targets : List Bytes
  pub instance_id : ℤ
  pub port : ℤ

-- The handlers that `New` registers.
pub data Route : Type 0 where
  healthz records_list records_upsert record_get record_delete record_path_invalid
        instance_records_delete :
      Route

-- A request: the route and its value of `{domain}` or `{id}`, the body if it is the JSON of an
-- `upsertRecordRequest`, and what the authorisation reads.
pub record Request : Type 0 where
  pub route : Route
  pub path_value : Bytes
  pub body : Option UpsertRecordRequest
  pub path : Bytes
  pub remote_addr : Bytes
  pub api_token : Bytes
  pub authorization : Bytes

-- The bodies that are written: a plain text, a JSON object with a fixed message, with the text of an
-- error, or with a target that is not valid, records, or nothing.
pub data Body : Type 0 where
  text : Bytes → Body
  message : Bytes → Body
  error_of : Error → Body
  invalid_target : Bytes → Body
  record_json : Record → Body
  records_json : List Record → Body
  empty : Body

pub record Response : Type 0 where
  pub status : ℕ
  pub body : Body

abbrev pub respond_with : ℕ → Body → Response
respond_with status body = record { status = status; body = body }
