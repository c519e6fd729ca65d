-- ===== src/Cli/Records/Deleted.antt =====
-- `records delete` over the HTTP API, from the domain to the cache of the server.
use tsdns.Prelude.{
  Bool, true, false, ◌≡◌, ◌≢◌, refl, sym, ap, ◌∙◌, none, some, get_or, [], ◌∷◌, ◌++◌, Bytes, All,
  ◌<◌, if◌then◌else◌, Result, ok, err, domain_required,
}
use mathlib.Core.Option.{some-injective}
use tsdns.Text.Bytes.{codes, equal, contains}
use tsdns.Text.Space.{trim_space}
use tsdns.Core.Record.{RecordRepository}
use tsdns.Core.Regexp.{Regexp}
use tsdns.Core.Server.{Server, delete_record}
use tsdns.Core.Server.Contract.{Contract}
use tsdns.Core.Server.Refresh.{cached, delete_record-cached}
use tsdns.Config.{Config}
use tsdns.Api.Requests.{Route, Request, Response}
use tsdns.Api.Auth.{authorized}
use tsdns.Api.Handlers.{
  is_domain, deleted_response, invalid_domain, handle_record_delete, handle, serve,
}
use tsdns.Cli.Records.Escape.{path_escape, path_unescape, path_unescape-path_escape}
use tsdns.Cli.Records.Client.{
  ApiClient, HttpRequest, HttpResponse, Http, is_success, records_path, resolve_api_client,
  delete_record_via_api,
}
use tsdns.Cli.Records.Served.{guarded-success, succeeded-ok, request_to-ok}
use tsdns.Cli.Records.{RecordsOptions, run_delete_record}

-- What the mux takes for one segment of a path: it redirects `.` and `..`.
abbrev pub IsSegment : Bytes → Type 0
IsSegment s = (s ≢ []) × (s ≢ codes ".") × (s ≢ codes "..") × (contains s b'/' ≡ false)

-- What the handlers read of a deletion, with the decoded segment of its path.
abbrev pub deletion : Bytes → HttpRequest → Bytes → Request
deletion remote_addr req value = record {
  route = Route.record_delete;
  path_value = value;
  body = none;
  path = records_path ++ b'/' ∷ value;
  remote_addr = remote_addr;
  api_token = [];
  authorization = get_or req.authorization [];
}

-- A domain is not escaped to a text that reads as itself and that it is not.
path_escape-ne :
    (domain s : Bytes)
    → All (λ c. c < 256) domain
    → path_unescape s ≡ some s
    → domain ≢ s
    → path_escape domain ≢ s
path_escape-ne domain s bytes read n e = n (
    some-injective domain s
      (sym (path_unescape-path_escape domain bytes).1 ∙ ap path_unescape e ∙ read))

path_escape-IsSegment :
    (domain : Bytes)
    → All (λ c. c < 256) domain
    → domain ≢ []
    → domain ≢ codes "."
    → domain ≢ codes ".."
    → IsSegment (path_escape domain)
unfolding path_unescape
path_escape-IsSegment domain bytes n dot dots = (
  path_escape-ne domain [] bytes refl n,
  path_escape-ne domain (codes ".") bytes refl dot,
  path_escape-ne domain (codes "..") bytes refl dots,
  (path_unescape-path_escape domain bytes).0,
)

module _ {R : Type 0} (repo : RecordRepository R) (re : Regexp) where
  -- A deletion that is answered was served. Nothing is said of a request without an answer.
  abbrev pub IsDeleteServed : Bytes → Http (Server R) → Type 0
  IsDeleteServed token http =
      (c : ApiClient) (req : HttpRequest) (base segment value : Bytes) (s : Server R)
      (r : HttpResponse)
      → req.method ≡ codes "DELETE"
      → req.url ≡ base ++ (records_path ++ b'/' ∷ segment)
      → IsSegment segment
      → path_unescape segment ≡ some value
      → (http.do_request c req s).0 ≡ ok r
      → (remote_addr : Bytes) × (r.status
          ≡ (serve repo re token (deletion remote_addr req value) s).0.status)
        × ((http.do_request c req s).1 ≡ (serve repo re token (deletion remote_addr req value) s).1)

  serve-deletion :
      (token remote_addr value : Bytes) (req : HttpRequest) (s : Server R)
      → is_success (serve repo re token (deletion remote_addr req value) s).0.status ≡ true
      → serve repo re token (deletion remote_addr req value) s
        ≡ handle_record_delete repo re value s
  unfolding serve handle
  serve-deletion token remote_addr value req s h =
      guarded-success repo re (authorized token (deletion remote_addr req value)) _ s h

  deleted_response-success :
      (done : Result (Unit {0})) → is_success (deleted_response done).status ≡ true → done ≡ ok tt
  deleted_response-success (ok _) h = refl
  deleted_response-success (err e) h = cc h

  -- The handler behind the test of the domain.
  abbrev delete_if : Bool → Bytes → Server R → Response × Server R
  delete_if b domain s =
      if b
      then (deleted_response (delete_record repo re domain s).0, (delete_record repo re domain s).1)
      else (invalid_domain, s)

  delete_if-success :
      (b : Bool) (domain : Bytes) (s : Server R)
      → is_success (delete_if b domain s).0.status ≡ true
      → ((delete_record repo re domain s).0 ≡ ok tt)
        × ((delete_if b domain s).1 ≡ (delete_record repo re domain s).1)
  delete_if-success true domain s h = (deleted_response-success _ h, refl)
  delete_if-success false domain s h = cc h

  handle_record_delete-cached :
      (laws : Contract repo) (value : Bytes) (s : Server R) (d : Bytes)
      → laws.IsValid s.repository
      → is_success (handle_record_delete repo re value s).0.status ≡ true
      → cached (handle_record_delete repo re value s).1 d
        ≡ (if equal (trim_space value) d then none else laws.view s.repository d)
  unfolding handle_record_delete
  handle_record_delete-cached laws value s d v h =
      let (done, state) = delete_if-success (is_domain (trim_space value)) (trim_space value) s h in
      ap (λ (t : Server R). cached t d) state
      ∙ delete_record-cached repo re laws (trim_space value) s d v done

module _ {R : Type 0} (repo : RecordRepository R) (re : Regexp) (http : Http (Server R)) where
  -- What a deletion through the API that succeeds leaves of the server.
  delete_record_via_api-served :
      (token : Bytes) (c : ApiClient) (domain : Bytes) (s : Server R)
      → IsDeleteServed repo re token http
      → IsSegment (path_escape domain)
      → path_unescape (path_escape domain) ≡ some domain
      → (delete_record_via_api http c domain s).0 ≡ ok tt
      → (is_success (handle_record_delete repo re domain s).0.status ≡ true)
        × ((delete_record_via_api http c domain s).1 ≡ (handle_record_delete repo re domain s).1)
  unfolding delete_record_via_api
  delete_record_via_api-served token c domain s served segment back h =
      let (req, _, method, url, sent) =
        request_to-ok http c.base_url c (codes "DELETE") (records_path ++ b'/' ∷ path_escape domain)
          none s h in
      let (r, answered, good) = succeeded-ok http _ h in
      let (remote, status, state) =
        served c req c.base_url (path_escape domain) domain s r method url segment back
          (sym (ap (λ (x : Result HttpResponse × Server R). x.0) sent) ∙ answered) in
      let through =
        serve-deletion repo re token remote domain req s (ap is_success (sym status) ∙ good) in
      (
        ap (λ (x : Response × Server R). is_success x.0.status) (sym through)
            ∙ ap is_success (sym status)
            ∙ good,
        ap (λ (x : Result HttpResponse × Server R). x.1) sent
            ∙ state
            ∙ ap (λ (x : Response × Server R). x.1) through,
      )

  -- The command, by the test of the domain.
  abbrev delete_unless : Bool → ApiClient → Bytes → Server R → Result (Unit {0}) × Server R
  delete_unless b c domain s =
      if b then (err domain_required, s) else delete_record_via_api http c domain s

  delete_unless-ok :
      (b : Bool) (c : ApiClient) (domain : Bytes) (s : Server R)
      → (delete_unless b c domain s).0 ≡ ok tt
      → (b ≡ false) × (delete_unless b c domain s ≡ delete_record_via_api http c domain s)
  delete_unless-ok true c domain s h = absurd (cc h)
  delete_unless-ok false c domain s h = (refl, refl)

  not_blank : (domain : Bytes) → equal (trim_space domain) [] ≡ false → domain ≢ []
  unfolding trim_space equal
  not_blank [] h = absurd (cc h)
  not_blank (c ∷ domain) h = λ e. cc e

  -- If `records delete` over the API succeeds, for a domain other than `.` and `..`, which the mux
  -- redirects, the server's cache holds nothing for the trimmed domain, and for every other domain
  -- what the repository held before; for a repository in a valid state that meets the contract, and
  -- where every deletion that is answered was served.
  pub run_delete_record-cached :
      (laws : Contract repo) (token : Bytes) (opts : RecordsOptions) (cfg : Config) (domain : Bytes)
      (s : Server R) (d : Bytes)
      → IsDeleteServed repo re token http
      → laws.IsValid s.repository
      → All (λ c. c < 256) domain
      → domain ≢ codes "."
      → domain ≢ codes ".."
      → (run_delete_record http opts (ok cfg) domain s).0 ≡ ok tt
      → cached (run_delete_record http opts (ok cfg) domain s).1 d
        ≡ (if equal (trim_space domain) d then none else laws.view s.repository d)
  unfolding run_delete_record
  run_delete_record-cached laws token opts cfg domain s d served v bytes dot dots h =
      let client = resolve_api_client http cfg opts.api_url opts.token in
      let (filled, call) = delete_unless-ok (equal (trim_space domain) []) client domain s h in
      let (good, state) =
        delete_record_via_api-served token client domain s served
          (path_escape-IsSegment domain bytes (not_blank domain filled) dot dots)
          (path_unescape-path_escape domain bytes).1
          (sym (ap (λ (x : Result (Unit {0}) × Server R). x.0) call) ∙ h) in
      ap (λ (x : Result (Unit {0}) × Server R). cached x.1 d) call
      ∙ ap (λ (t : Server R). cached t d) state
      ∙ handle_record_delete-cached repo re laws domain s d v good
