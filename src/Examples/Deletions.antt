-- ===== src/Examples/Deletions.antt =====
-- `records delete` against a server over the repository in memory.
use tsdns.Prelude.{
  ℕ, suc, ◌≡◌, refl, ap, sym, ◌∙◌, Option, none, some, List, ◌∷◌, ◌++◌, append_assoc, Bytes, drop,
  drop_behind, false, Result, ok, err, if◌then◌else◌, arith, other,
}
use mathlib.Core.Option
use tsdns.Text.Bytes.{codes, equal, contains, last_index, cut_prefix}
use tsdns.Text.Bytes.Laws.{last_index_append}
use tsdns.Text.Space.{trim_space}
use tsdns.Core.Record.{Record}
use tsdns.Core.Server.{Server, delete_record, load_cache, refresh_after, install}
use tsdns.Core.Server.Contract.{content_of}
use tsdns.Core.Server.Refresh.{cached}
use tsdns.Core.Cache.Contents.{last_record}
use tsdns.Api.Targets.{trim_set_left}
use tsdns.Api.Auth.{authorized}
use tsdns.Api.Handlers.{serve, handle_record_delete, is_domain}
use tsdns.Cli.Records.{run_delete_record}
use tsdns.Cli.Records.Client.{
  HttpRequest, HttpResponse, Http, records_path, delete_record_via_api, resolve_api_client,
}
use tsdns.Cli.Records.Escape.{path_escape, path_unescape}
use tsdns.Cli.Records.Deleted.{deletion, IsDeleteServed, run_delete_record-cached}
use tsdns.Examples.Fixtures.{no_regexp, stored, server}
use tsdns.Examples.Servers.{memory, memory-Contract}
use tsdns.Examples.Commands.{secret, local, answered, answered-status, cfg, flags}

-- The decoded text behind the last slash of an address.
abbrev decoded_behind : Bytes → Option ℕ → Option Bytes
decoded_behind url none = none
decoded_behind url (some i) = path_unescape (drop (suc i) url)

abbrev after_slash : Bytes → Option Bytes
after_slash url = decoded_behind url (last_index url b'/')

abbrev exchange :
    HttpRequest → Server (List Record) → Option Bytes → Result HttpResponse × Server (List Record)
exchange req s none = (err (other (codes "no path")), s)
exchange req s (some value) = answered (serve memory no_regexp secret (deletion local req value) s)

abbrev loopback : Http (Server (List Record))
loopback = record {
  exists = λ path. false;
  request_error = λ method url. none;
  do_request = λ c req s. exchange req s (after_slash req.url);
}

after_slash-append :
    (prefix segment : Bytes)
    → contains segment b'/' ≡ false
    → after_slash (prefix ++ b'/' ∷ segment) ≡ path_unescape segment
after_slash-append prefix segment h =
    ap (decoded_behind (prefix ++ b'/' ∷ segment)) (last_index_append prefix b'/' segment h)
    ∙ ap path_unescape (drop_behind prefix b'/' segment)

exchange-status :
    (req : HttpRequest) (s : Server (List Record)) (value : Bytes) (r : HttpResponse)
    → (exchange req s (some value)).0 ≡ ok r
    → r.status ≡ (serve memory no_regexp secret (deletion local req value) s).0.status
exchange-status req s value r h =
    answered-status (serve memory no_regexp secret (deletion local req value) s) r h

loopback-IsDeleteServed : IsDeleteServed memory no_regexp secret loopback
loopback-IsDeleteServed c req base segment value s r method url is_segment read h =
    let found : after_slash req.url ≡ some value =
      ap after_slash (url ∙ sym (append_assoc base records_path (b'/' ∷ segment)))
      ∙ after_slash-append (base ++ records_path) segment is_segment.3
      ∙ read in
    (
      local,
      exchange-status req s value r (sym (ap (λ o. (exchange req s o).0) found) ∙ h),
      ap (λ o. (exchange req s o).1) found,
    )

gone : (run_delete_record loopback flags (ok cfg) (codes "ts.example") server).0 ≡ ok tt
unfolding run_delete_record resolve_api_client delete_record_via_api path_escape path_unescape
    last_index serve authorized handle_record_delete is_domain delete_record load_cache
    refresh_after install equal trim_space contains trim_set_left cut_prefix
gone = refl

run_delete_record-cached_example :
    cached
      (run_delete_record loopback flags (ok cfg) (codes "ts.example") server).1
      (codes "ts.example")
    ≡ (if equal (trim_space (codes "ts.example")) (codes "ts.example")
        then none
        else Option.map content_of (last_record (codes "ts.example") stored))
unfolding memory-Contract
run_delete_record-cached_example =
    run_delete_record-cached memory no_regexp loopback memory-Contract secret flags cfg
      (codes "ts.example") server (codes "ts.example") loopback-IsDeleteServed tt
      (
        omega arith,
        (
          omega arith,
          (
            omega arith,
            (
              omega arith,
              (
                omega arith,
                (omega arith, (omega arith, (omega arith, (omega arith, (omega arith, tt))))),
              ),
            ),
          ),
        ),
      )
      (λ e. cc e) (λ e. cc e) gone
