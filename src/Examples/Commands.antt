-- ===== src/Examples/Commands.antt =====
-- `records` against a server over the repository in memory.
use tsdns.Prelude.{
  ℕ, pos, negsuc, ◌≡◌, refl, ap, sym, true, false, none, some, List, [], ◌∷◌, Bytes, Result, ok,
  err, if◌then◌else◌, arith,
}
use mathlib.Core.Option
use tsdns.Text.Bytes.{codes, equal, contains, replace_byte, last_index, cut_prefix}
use tsdns.Text.Decimal.{parse_uint, itoa}
use tsdns.Net.V4.{parse_v4, show_v4}
use tsdns.Net.AddrPort.{parse_addr, parse_addr_port, host_addr, show_addr_port}
use tsdns.Cli.Import.{fields}
use tsdns.Api.Targets.{equal_fold, parse_target, parse_targets, trim_set, trim_set_left}
use tsdns.Text.Space.{trim_space, space_width}
use tsdns.Net.Addr.{v4, AddrPort, is6}
use tsdns.Core.Record.{Record}
use tsdns.Core.Server.{Server, upsert_record, load_cache, refresh_after, install, get_record}
use tsdns.Core.Server.Contract.{content_of}
use tsdns.Core.Server.Refresh.{cached}
use tsdns.Core.Cache.Contents.{last_record}
use tsdns.Config.{Config, default_config}
use tsdns.Api.Requests.{Response}
use tsdns.Api.Targets.Printed.{AllV4}
use tsdns.Api.Auth.{authorized}
use tsdns.Api.Handlers.{serve, handle_records_upsert, validate_upsert_record_request}
use tsdns.Cli.Records.Client.{
  HttpResponse, Http, resolve_api_client, has_socket, upsert_record_via_api, flag_or,
}
use tsdns.Cli.Records.Served.{delivered, IsServed, run_add_record-cached}
use tsdns.Cli.Records.Authorized.{with_token, authorized-resolve_api_client}
use tsdns.Cli.Records.{RecordsOptions, flag_targets, run_add_record, validate_record_input}
use tsdns.Examples.Fixtures.{no_regexp, stored, server}
use tsdns.Examples.Servers.{memory, memory-Contract}

abbrev pub secret : Bytes
secret = codes "s3cret"

abbrev pub local : Bytes
local = codes "127.0.0.1:52000"

abbrev pub answered : Response × Server (List Record) → Result HttpResponse × Server (List Record)
answered (r, s) = (ok (record { status = r.status; error_field = none; records = ok [] }), s)

abbrev loopback : Http (Server (List Record))
loopback = record {
  exists = λ path. false;
  request_error = λ method url. none;
  do_request = λ c req s. answered (serve memory no_regexp secret (delivered local req) s);
}

result_status : Result HttpResponse → ℕ
result_status (ok r) = r.status
result_status (err e) = 0

pub answered-status :
    (x : Response × Server (List Record)) (r : HttpResponse)
    → (answered x).0 ≡ ok r
    → r.status ≡ x.0.status
unfolding result_status
answered-status x r h = ap result_status (sym h)

loopback-IsServed : IsServed memory no_regexp secret loopback
loopback-IsServed c req p s r body h =
    (local, answered-status (serve memory no_regexp secret (delivered local req) s) r h, refl)

abbrev pub cfg : Config
cfg = record default_config { api_token = secret }

abbrev pub flags : RecordsOptions
flags = record { api_url = []; token = [] }

abbrev host : AddrPort
host = record { addr = v4 10 0 0 7; port = 9987 }

host-AllV4 : AllV4 (host ∷ [])
host-AllV4 =
    ((10, 0, 0, 7, (refl, omega arith, omega arith, omega arith, omega arith, omega arith)), tt)

flags_read : flag_targets (pos 0) (codes "10.0.0.7:9987") ≡ some (host ∷ [])
unfolding flag_targets equal_fold fields replace_byte space_width parse_target parse_addr_port
    last_index host_addr parse_addr parse_v4 is6 parse_uint
flags_read = refl

accepted :
    (run_add_record loopback flags
      (ok cfg)
      (codes "b")
      (codes "10.0.0.7:9987")
      (pos 0)
      (pos 7)
      server).0
    ≡ ok tt
unfolding flag_targets equal_fold fields replace_byte space_width parse_target parse_addr_port
    last_index host_addr parse_addr parse_v4 is6 parse_uint run_add_record validate_record_input
    equal trim_space resolve_api_client upsert_record_via_api serve authorized handle_records_upsert
    validate_upsert_record_request parse_targets upsert_record load_cache refresh_after install
    get_record show_addr_port show_v4 itoa contains cut_prefix trim_set_left
accepted = refl

run_add_record-cached_example :
    cached
      (run_add_record loopback flags
        (ok cfg)
        (codes "b")
        (codes "10.0.0.7:9987")
        (pos 0)
        (pos 7)
        server).1
      (codes "b")
    ≡ (if equal (codes "b") (codes "b")
        then some (record { instance_id = pos 7; targets = host ∷ [] })
        else Option.map content_of (last_record (codes "b") stored))
unfolding memory-Contract
run_add_record-cached_example =
    run_add_record-cached memory no_regexp loopback memory-Contract secret flags cfg (codes "b")
      (codes "10.0.0.7:9987") (pos 0) (pos 7) (host ∷ []) server (codes "b") loopback-IsServed tt
      flags_read host-AllV4 tt accepted

authorized-resolve_api_client_example :
    authorized secret (
      with_token local
        (codes "GET")
        (codes "http://127.0.0.1:8080/api/v1/records")
        none
        (trim_space (resolve_api_client loopback cfg [] []).token))
    ≡ true
unfolding trim_space flag_or
authorized-resolve_api_client_example =
    authorized-resolve_api_client loopback cfg [] [] secret local (codes "GET")
      (codes "http://127.0.0.1:8080/api/v1/records") none refl refl (unfold has_socket in λ h. cc h)

-- A port out of range is not refused: it is taken modulo 2^16.
port_wraps :
    flag_targets (pos 65536) (codes "10.0.0.7")
    ≡ some (record { addr = v4 10 0 0 7; port = 0 } ∷ [])
unfolding flag_targets equal_fold fields replace_byte space_width parse_target parse_addr_port
    last_index host_addr parse_addr parse_v4 is6 parse_uint trim_set contains
port_wraps = refl

negative_port_wraps :
    flag_targets (negsuc 0) (codes "10.0.0.7")
    ≡ some (record { addr = v4 10 0 0 7; port = 65535 } ∷ [])
unfolding flag_targets equal_fold fields replace_byte space_width parse_target parse_addr_port
    last_index host_addr parse_addr parse_v4 is6 parse_uint trim_set contains
negative_port_wraps = refl
