-- ===== src/Cli/Records/Served.antt =====
-- `records add` over the HTTP API, from the flags to the cache of the server.
use tsdns.Prelude.{
  ℤ, pos, Bool, true, false, ◌≡◌, refl, sym, ap, ◌∙◌, Option, none, some, get_or, List, [], ◌∷◌,
  ◌++◌, Bytes, if◌then◌else◌, Result, ok, err, Error, Bool-cases, inl, inr,
}
use mathlib.Core.Option
use mathlib.Core.Path.{subst}
use tsdns.Text.Bytes.{codes, equal}
use tsdns.Net.Addr.{AddrPort}
use tsdns.Core.Record.{Record, RecordRepository}
use tsdns.Core.Regexp.{Regexp}
use tsdns.Core.Server.{Server, new_record}
use tsdns.Core.Server.Contract.{Contract}
use tsdns.Core.Server.Refresh.{cached}
use tsdns.Config.{Config}
use tsdns.Api.Requests.{UpsertRecordRequest, Route, Request, Response}
use tsdns.Api.Targets.{Parsed, parsed, invalid}
use tsdns.Api.Targets.Printed.{AllV4, parse_targets-show_addr_port}
use tsdns.Api.Auth.{authorized}
use tsdns.Api.Handlers.{
  return_stored, upsert_parsed, upsert_valid, handle_records_upsert, handle, serve, unauthorized,
}
use tsdns.Api.Handlers.Upsert.{created_status, handle_records_upsert-cached}
use tsdns.Cli.Records.Client.{
  ApiClient, Payload, HttpRequest, HttpResponse, Http, is_success, records_path, printed, succeeded,
  send, request_to, resolve_api_client, upsert_record_via_api,
}
use tsdns.Cli.Records.{
  flag_targets, flag_record, validate_record_input, RecordsOptions, add_valid, add_parsed,
  run_add_record,
}

abbrev upsert_of : Payload → UpsertRecordRequest
upsert_of p = record {
  domain = p.domain;
  targets = p.targets;
  instance_id = p.instance_id;
  port = pos 0;
}

-- What the handlers read of an upsert that comes from `remote_addr`.
abbrev pub delivered : Bytes → HttpRequest → Request
delivered remote_addr req = record {
  route = Route.records_upsert;
  path_value = [];
  body = Option.map upsert_of req.body;
  path = records_path;
  remote_addr = remote_addr;
  api_token = [];
  authorization = get_or req.authorization [];
}

module _ {R : Type 0} (repo : RecordRepository R) (re : Regexp) where
  -- An upsert that is answered was served: the status is that of the handlers, and so is what they
  -- left of the server. Nothing is said of a request without an answer.
  abbrev pub IsServed : Bytes → Http (Server R) → Type 0
  IsServed token http =
      (c : ApiClient) (req : HttpRequest) (p : Payload) (s : Server R) (r : HttpResponse)
      → req.body ≡ some p
      → (http.do_request c req s).0 ≡ ok r
      → (remote_addr : Bytes) × (r.status
          ≡ (serve repo re token (delivered remote_addr req) s).0.status)
        × ((http.do_request c req s).1 ≡ (serve repo re token (delivered remote_addr req) s).1)

  return_stored-success :
      (rec : Record) (done : Result (Unit {0})) (s : Server R)
      → is_success (return_stored repo re rec done s).0.status ≡ true
      → (return_stored repo re rec done s).0.status ≡ 201
  unfolding return_stored
  return_stored-success rec (err e) s h = cc h
  return_stored-success rec (ok _) s h = created_status rec _

  upsert_parsed-success :
      (req : UpsertRecordRequest) (p : Parsed) (s : Server R)
      → is_success (upsert_parsed repo re req p s).0.status ≡ true
      → (upsert_parsed repo re req p s).0.status ≡ 201
  unfolding upsert_parsed
  upsert_parsed-success req (invalid t) s h = cc h
  upsert_parsed-success req (parsed ts) s h = return_stored-success _ _ _ h

  upsert_valid-success :
      (req : UpsertRecordRequest) (o : Option Error) (s : Server R)
      → is_success (upsert_valid repo re req o s).0.status ≡ true
      → (upsert_valid repo re req o s).0.status ≡ 201
  unfolding upsert_valid
  upsert_valid-success req (some e) s h = cc h
  upsert_valid-success req none s h = upsert_parsed-success req _ s h

  handle_records_upsert-success :
      (body : Option UpsertRecordRequest) (s : Server R)
      → is_success (handle_records_upsert repo re body s).0.status ≡ true
      → (handle_records_upsert repo re body s).0.status ≡ 201
  unfolding handle_records_upsert
  handle_records_upsert-success none s h = cc h
  handle_records_upsert-success (some req) s h = upsert_valid-success req _ s h

  -- An upsert that succeeds was let through to its handler.
  pub guarded-success :
      (b : Bool) (x : Response × Server R) (s : Server R)
      → is_success (if b then x else (unauthorized, s)).0.status ≡ true
      → (if b then x else (unauthorized, s)) ≡ x
  guarded-success true x s h = refl
  guarded-success false x s h = cc h

  serve-success :
      (token remote_addr : Bytes) (req : HttpRequest) (s : Server R)
      → is_success (serve repo re token (delivered remote_addr req) s).0.status ≡ true
      → serve repo re token (delivered remote_addr req) s
        ≡ handle_records_upsert repo re (Option.map upsert_of req.body) s
  unfolding serve handle
  serve-success token remote_addr req s h =
      guarded-success (authorized token (delivered remote_addr req)) _ s h

module _ {W : Type 0} (http : Http W) where
  pub succeeded-ok :
      (x : Result HttpResponse)
      → succeeded x ≡ ok tt
      → (r : HttpResponse) × (x ≡ ok r) × (is_success r.status ≡ true)
  unfolding succeeded
  succeeded-ok (err e) h = absurd (cc h)
  succeeded-ok (ok r) h = elim (Bool-cases (is_success r.status)) [
    | inl good ↦ (r, refl, good)
    | inr bad ↦ absurd (rejected _ (is_success r.status) bad h)
  ]
    where
      rejected : (e : Error) (b : Bool) → b ≡ false → (if b then ok (tt {0}) else err e) ≡ ok tt → ⊥
      rejected e true bad h = cc bad
      rejected e false bad h = cc h

  send-ok :
      (c : ApiClient) (req : HttpRequest) (o : Option Error) (w : W)
      → succeeded (send http c req o w).0 ≡ ok tt
      → send http c req o w ≡ http.do_request c req w
  unfolding send
  send-ok c req (some e) w h = absurd (unfold succeeded in cc h)
  send-ok c req none w h = refl

  pub request_to-ok :
      (base : Bytes) (c : ApiClient) (method path : Bytes) (body : Option Payload) (w : W)
      → succeeded (request_to http base c method path body w).0 ≡ ok tt
      → (req : HttpRequest) × (req.body ≡ body)
        × (req.method ≡ method)
        × (req.url ≡ base ++ path)
        × (request_to http base c method path body w ≡ http.do_request c req w)
  unfolding request_to
  request_to-ok [] c method path body w h = absurd (unfold succeeded in cc h)
  request_to-ok (b ∷ base) c method path body w h = (_, refl, refl, refl, send-ok c _ _ w h)

  add_valid-ok :
      (opts : RecordsOptions) (o : Option Error) (cfg : Config) (rec : Record) (w : W)
      → (add_valid http opts o cfg rec w).0 ≡ ok tt
      → add_valid http opts o cfg rec w
        ≡ upsert_record_via_api http (resolve_api_client http cfg opts.api_url opts.token) rec w
  unfolding add_valid
  add_valid-ok opts (some e) cfg rec w h = absurd (cc h)
  add_valid-ok opts none cfg rec w h = refl

module _ {R : Type 0} (repo : RecordRepository R) (re : Regexp) (http : Http (Server R)) where
  -- What an upsert through the API that succeeds leaves of the server.
  upsert_record_via_api-served :
      (token : Bytes) (c : ApiClient) (rec : Record) (s : Server R)
      → IsServed repo re token http
      → (upsert_record_via_api http c rec s).0 ≡ ok tt
      → (x : Response × Server R) × (x
          ≡ handle_records_upsert repo re
              (some (record {
                domain = rec.domain;
                targets = printed rec.targets;
                instance_id = rec.instance_id;
                port = pos 0;
              }))
              s)
        × (x.0.status ≡ 201)
        × ((upsert_record_via_api http c rec s).1 ≡ x.1)
  unfolding upsert_record_via_api
  upsert_record_via_api-served token c rec s served h =
      let payload : Payload = record {
        instance_id = rec.instance_id;
        domain = rec.domain;
        targets = printed rec.targets;
      } in
      let (req, body, _, _, sent) =
        request_to-ok http c.base_url c (codes "POST") records_path (some payload) s h in
      let (r, answered, good) = succeeded-ok http _ h in
      let (remote, status, state) =
        served c req payload s r body
          (sym (ap (λ (x : Result HttpResponse × Server R). x.0) sent) ∙ answered) in
      let through = serve-success repo re token remote req s (ap is_success (sym status) ∙ good) in
      let upsert = ap (λ b. handle_records_upsert repo re (Option.map upsert_of b) s) body in
      let created = handle_records_upsert-success repo re (Option.map upsert_of req.body) s (
        ap (λ (x : Response × Server R). is_success x.0.status) (sym through)
        ∙ ap is_success (sym status)
        ∙ good) in
      (
        handle_records_upsert repo re (Option.map upsert_of req.body) s,
        upsert,
        created,
        ap (λ (x : Result HttpResponse × Server R). x.1) sent
            ∙ state
            ∙ ap (λ (x : Response × Server R). x.1) through,
      )

  add_parsed-cached :
      (laws : Contract repo) (token : Bytes) (opts : RecordsOptions) (cfg : Config) (domain : Bytes)
      (instance_id : ℤ) (ts : List AddrPort) (s : Server R) (d : Bytes)
      → IsServed repo re token http
      → laws.IsValid s.repository
      → AllV4 ts
      → laws.Storable (new_record repo re instance_id domain ts)
      → (add_parsed http opts (some ts) cfg domain instance_id s).0 ≡ ok tt
      → cached (add_parsed http opts (some ts) cfg domain instance_id s).1 d ≡ (
          if equal domain d
          then some (record { instance_id = instance_id; targets = ts })
          else laws.view s.repository d)
  unfolding add_parsed
  add_parsed-cached laws token opts cfg domain instance_id ts s d served v v4 storable h =
      let rec : Record = flag_record instance_id domain ts in
      let client = resolve_api_client http cfg opts.api_url opts.token in
      let call = add_valid-ok http opts (validate_record_input (some rec)) cfg rec s h in
      let (x, upsert, created, state) =
        upsert_record_via_api-served token client rec s served
          (sym (ap (λ (y : Result (Unit {0}) × Server R). y.0) call) ∙ h) in
      let printed_back = parse_targets-show_addr_port (pos 0) ts v4 in
      let (valid, (us, read, held)) =
        handle_records_upsert-cached repo re laws
          (record {
            domain = domain;
            targets = printed ts;
            instance_id = instance_id;
            port = pos 0;
          })
          s d v
          (λ us e.
            subst (λ l. laws.Storable (new_record repo re instance_id domain l))
              (parsed_same ts us (sym printed_back ∙ e)) storable)
          (ap (λ (y : Response × Server R). y.0.status) (sym upsert) ∙ created) in
      let back : us ≡ ts = parsed_same us ts (sym read ∙ printed_back) in
      ap (λ (y : Result (Unit {0}) × Server R). cached y.1 d) call
      ∙ ap (λ (t : Server R). cached t d) (state ∙ ap (λ (y : Response × Server R). y.1) upsert)
      ∙ held
      ∙ ap
          (λ l.
            if equal domain d
            then some (record { instance_id = instance_id; targets = l })
            else laws.view s.repository d)
          back
    where
      parsed_same : (us ts : List AddrPort) → parsed us ≡ parsed ts → us ≡ ts
      parsed_same us ts e = cc e

  -- If `records add` over the API succeeds, where the targets of its flag are the IPv4 targets `ts`,
  -- the server's cache holds the instance and `ts` for the domain, and for every other domain what
  -- the repository held before; for a repository in a valid state that meets the contract and can
  -- store the record, and where every upsert that is answered was served.
  pub run_add_record-cached :
      (laws : Contract repo) (token : Bytes) (opts : RecordsOptions) (cfg : Config)
      (domain target : Bytes) (port instance_id : ℤ) (ts : List AddrPort) (s : Server R) (d : Bytes)
      → IsServed repo re token http
      → laws.IsValid s.repository
      → flag_targets port target ≡ some ts
      → AllV4 ts
      → laws.Storable (new_record repo re instance_id domain ts)
      → (run_add_record http opts (ok cfg) domain target port instance_id s).0 ≡ ok tt
      → cached (run_add_record http opts (ok cfg) domain target port instance_id s).1 d ≡ (
          if equal domain d
          then some (record { instance_id = instance_id; targets = ts })
          else laws.view s.repository d)
  unfolding run_add_record
  run_add_record-cached laws token opts cfg domain target port instance_id ts s d served v flags v4
        storable h =
      let call = ap (λ o. add_parsed http opts o cfg domain instance_id s) flags in
      ap (λ (y : Result (Unit {0}) × Server R). cached y.1 d) call
      ∙ add_parsed-cached laws token opts cfg domain instance_id ts s d served v v4 storable
          (sym (ap (λ (y : Result (Unit {0}) × Server R). y.0) call) ∙ h)
