-- ===== src/Cli/Records/Client.antt =====
-- internal/cli/records.go: the client of the HTTP API.
use tsdns.Prelude.{
  ℕ, ℤ, Bool, false, ◌&&◌, Option, none, some, List, [], ◌∷◌, ◌++◌, Bytes, reverse, if◌then◌else◌,
  ltb, leb, ◌==◌, map, Result, ok, err, Error, other,
}
use tsdns.Text.Bytes.{codes}
use tsdns.Text.Space.{trim_space}
use tsdns.Net.Addr.{AddrPort}
use tsdns.Net.AddrPort.{show_addr_port}
use tsdns.Core.Record.{Record}
use tsdns.Config.{Config}
use tsdns.Api.Targets.{trim_set_left}
use tsdns.Cli.Records.Escape.{path_escape}

-- The client; `socket` is the path that it dials, if it is a socket's.
pub record ApiClient : Type 0 where
  pub base_url : Bytes
  pub token : Bytes
  pub socket : Option Bytes

-- The body of an upsert.
pub record Payload : Type 0 where
  pub instance_id : ℤ
  pub domain : Bytes
  pub targets : List Bytes

-- A request; a header of `none` is not set.
pub record HttpRequest : Type 0 where
  pub method : Bytes
  pub url : Bytes
  pub body : Option Payload
  pub authorization : Option Bytes

-- A response: the status, the field `error` of its body, if that is JSON, and the records in it.
pub record HttpResponse : Type 0 where
  pub status : ℕ
  pub error_field : Option Bytes
  pub records : Result (List Record)

-- `exists` is `os.Stat` without an error; `request_error` is the error of `http.NewRequest` for a
-- method and a URL; `do_request` is the client's `Do`, on the state of the network.
pub record Http (W : Type 0) : Type 0 where
  pub exists : Bytes → Bool
  pub request_error : Bytes → Bytes → Option Error
  pub do_request : ApiClient → HttpRequest → W → Result HttpResponse × W

abbrev pub api_required : Error
api_required = other (codes "api url or socket is required")

-- The error for a status; the text of the body is kept, the rest of the message is left out.
unfoldable pub decode_api_error : Option Bytes → Error
decode_api_error none = other (codes "api error")
decode_api_error (some []) = other (codes "api error")
decode_api_error (some (c ∷ text)) = other (c ∷ text)

-- `strings.TrimRight(s, "/")`.
unfoldable pub trim_right_slashes : Bytes → Bytes
trim_right_slashes s = reverse (trim_set_left (codes "/") (reverse s))

unfoldable pub new_api_client : Bytes → Bytes → ApiClient
unfolding trim_right_slashes
new_api_client base_url token = record {
  base_url = trim_right_slashes base_url;
  token = token;
  socket = none;
}

-- A value of the flag, or that of the configuration.
unfoldable pub flag_or : Bytes → Bytes → Bytes
flag_or [] configured = trim_space configured
flag_or (c ∷ flag) configured = c ∷ flag

unfoldable pub set_auth_headers : Bytes → Option Bytes
set_auth_headers [] = none
set_auth_headers (c ∷ token) = some (codes "Bearer " ++ c ∷ token)

abbrev pub is_success : ℕ → Bool
is_success status = leb 200 status && ltb status 300

abbrev pub records_path : Bytes
records_path = codes "/api/v1/records"

-- The texts of the targets of a payload.
abbrev pub printed : List AddrPort → List Bytes
printed = map show_addr_port

-- The result of a request that changes records.
unfoldable pub succeeded : Result HttpResponse → Result (Unit {0})
unfolding decode_api_error
succeeded (err e) = err e
succeeded (ok r) = if is_success r.status then ok tt else err (decode_api_error r.error_field)

unfoldable pub read_list : Result HttpResponse → Result (List Record)
unfolding decode_api_error
read_list (err e) = err e
read_list (ok r) = if r.status == 200 then r.records else err (decode_api_error r.error_field)

module _ {W : Type 0} (http : Http W) where
  open http use {exists, request_error, do_request}

  -- The test for the socket.
  unfoldable pub has_socket : Bytes → Bool
  has_socket [] = false
  has_socket (c ∷ path) = exists (c ∷ path)

  unfoldable pub resolve_api_client : Config → Bytes → Bytes → ApiClient
  unfolding has_socket new_api_client flag_or
  resolve_api_client cfg api_url token =
      if has_socket cfg.api_socket
      then record { base_url = codes "http://unix"; token = []; socket = some cfg.api_socket }
      else new_api_client (flag_or (trim_space api_url) cfg.api_url)
          (flag_or (trim_space token) cfg.api_token)

  -- `NewRequestWithContext` and `Do`.
  unfoldable pub send : ApiClient → HttpRequest → Option Error → W → Result HttpResponse × W
  send c req (some e) w = (err e, w)
  send c req none w = do_request c req w

  -- A request of the client, by its base URL.
  unfoldable pub request_to :
      Bytes → ApiClient → Bytes → Bytes → Option Payload → W → Result HttpResponse × W
  unfolding send set_auth_headers
  request_to [] c method path body w = (err api_required, w)
  request_to (b ∷ base) c method path body w =
      let url = (b ∷ base) ++ path in
      let req : HttpRequest = record {
        method = method;
        url = url;
        body = body;
        authorization = set_auth_headers (trim_space c.token);
      } in
      send c req (request_error method url) w

  -- The payload stands for its JSON, of texts that are valid UTF-8, for which `json.Marshal` does not fail.
  unfoldable pub upsert_record_via_api : ApiClient → Record → W → Result (Unit {0}) × W
  unfolding request_to succeeded
  upsert_record_via_api c rec w =
      let payload : Payload = record {
        instance_id = rec.instance_id;
        domain = rec.domain;
        targets = printed rec.targets;
      } in
      let (response, w') = request_to c.base_url c (codes "POST") records_path (some payload) w in
      (succeeded response, w')

  unfoldable pub delete_record_via_api : ApiClient → Bytes → W → Result (Unit {0}) × W
  unfolding request_to succeeded
  delete_record_via_api c domain w =
      let (response, w') =
        request_to c.base_url c (codes "DELETE") (records_path ++ (b'/' ∷ path_escape domain)) none
          w in
      (succeeded response, w')

  unfoldable pub list_records_via_api : ApiClient → W → Result (List Record) × W
  unfolding request_to read_list
  list_records_via_api c w =
      let (response, w') = request_to c.base_url c (codes "GET") records_path none w in
      (read_list response, w')
