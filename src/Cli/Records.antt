-- ===== src/Cli/Records.antt =====
-- internal/cli/records.go: `records add`, `delete` and `list`, over the HTTP API or on the storage.
-- The network, the disk and the storage are parameters; flags and output are left out.
pub mod Escape
pub mod Client
pub mod Served
pub mod Deleted
pub mod Authorized
use tsdns.Prelude.{
  ℤ, is_negative, Bool, true, false, Option, none, some, List, [], ◌∷◌, Bytes, if◌then◌else◌, ◌>>=◌,
  Result, ok, err, Error, domain_required, record_nil, other,
}
use tsdns.Text.Bytes.{codes, equal, replace_byte}
use tsdns.Text.Space.{trim_space}
use tsdns.Net.Addr.{AddrPort}
use tsdns.Core.Record.{Record, RecordRepository}
use tsdns.Config.{Config}
use tsdns.Api.Targets.{equal_fold, parse_target}
use tsdns.Cli.Import.{fields, invalid_part}
use tsdns.Cli.Records.Client.{
  Http, resolve_api_client, upsert_record_via_api, delete_record_via_api, list_records_via_api,
}

-- The loop over the parts of `--target`; a part without a port has that of `--port`.
unfoldable pub parse_parts : ℤ → List Bytes → Option (List AddrPort)
parse_parts port [] = some []
parse_parts port (p ∷ ps) = do t ← parse_target port p; ts ← parse_parts port ps; some (t ∷ ts)

unfoldable pub flag_targets : ℤ → Bytes → Option (List AddrPort)
unfolding parse_parts
flag_targets port [] = some []
flag_targets port (c ∷ text) =
    if equal_fold (codes "NORESPONSE") (c ∷ text)
    then some []
    else parse_parts port (fields (replace_byte b',' b' ' (c ∷ text)))

abbrev pub flag_record : ℤ → Bytes → List AddrPort → Record
flag_record instance_id domain targets = record {
  id = ℤ.pos 0;
  instance_id = instance_id;
  domain = domain;
  targets = targets;
  created_at = 0;
  updated_at = 0;
  deleted_at = none;
}

abbrev pub invalid_instance_id : Error
invalid_instance_id = other (codes "instance-id must be >= 0")

unfoldable pub validate_record_input : Option Record → Option Error
validate_record_input none = some record_nil
validate_record_input (some r) =
    if equal (trim_space r.domain) []
    then some domain_required
    else if is_negative r.instance_id
    then some invalid_instance_id
    else none

-- The storage: `storage.Open`, and the repository over its state.
pub record Direct (R : Type 0) : Type 0 where
  pub repo : RecordRepository R
  pub open_repo : Bytes → Result R

-- A call on a repository that was opened, which is closed behind it; the error of `Close` is ignored.
unfoldable pub closing {ℓ} :
    {R : Type 0} {A : Type ℓ}
    → RecordRepository R
    → (R → Result A × R)
    → Result R
    → Result A × Option R
closing repo call (err e) = (err e, none)
closing repo call (ok r) =
    let (done, r') = call r in let (closed, r'') = repo.close r' in (done, some r'')

module _ {R : Type 0} (direct : Direct R) where
  open direct use {repo, open_repo}

  unfoldable pub upsert_record_direct : Config → Record → Result (Unit {0}) × Option R
  unfolding closing
  upsert_record_direct cfg rec = closing repo (repo.create (some rec)) (open_repo cfg.storage_dsn)

  unfoldable pub delete_record_direct : Config → Bytes → Result (Unit {0}) × Option R
  unfolding closing
  delete_record_direct cfg domain = closing repo (repo.delete domain) (open_repo cfg.storage_dsn)

  unfoldable pub list_records_direct : Config → Result (List Record) × Option R
  unfolding closing
  list_records_direct cfg = closing repo repo.find (open_repo cfg.storage_dsn)

-- The flags of `records`.
pub record RecordsOptions : Type 0 where
  pub api_url : Bytes
  pub token : Bytes

-- The commands without `--direct`, behind `config.Load`, on the state `W` of the network.
module _ {W : Type 0} (http : Http W) (opts : RecordsOptions) where
  -- Behind the validation.
  unfoldable pub add_valid : Option Error → Config → Record → W → Result (Unit {0}) × W
  add_valid (some e) cfg rec w = (err e, w)
  add_valid none cfg rec w =
      upsert_record_via_api http (resolve_api_client http cfg opts.api_url opts.token) rec w

  -- Behind the parsing of the targets.
  unfoldable pub add_parsed :
      Option (List AddrPort) → Config → Bytes → ℤ → W → Result (Unit {0}) × W
  unfolding add_valid
  add_parsed none cfg domain instance_id w = (err invalid_part, w)
  add_parsed (some targets) cfg domain instance_id w =
      let rec = flag_record instance_id domain targets in
      add_valid (validate_record_input (some rec)) cfg rec w

  -- `runAddRecord`, for a domain, a target, a port and an instance.
  unfoldable pub run_add_record : Result Config → Bytes → Bytes → ℤ → ℤ → W → Result (Unit {0}) × W
  unfolding add_parsed
  run_add_record (err e) domain target port instance_id w = (err e, w)
  run_add_record (ok cfg) domain target port instance_id w =
      add_parsed (flag_targets port target) cfg domain instance_id w

  unfoldable pub run_delete_record : Result Config → Bytes → W → Result (Unit {0}) × W
  run_delete_record (err e) domain w = (err e, w)
  run_delete_record (ok cfg) domain w =
      if equal (trim_space domain) []
      then (err domain_required, w)
      else delete_record_via_api http (resolve_api_client http cfg opts.api_url opts.token) domain w

  unfoldable pub run_list_records : Result Config → W → Result (List Record) × W
  run_list_records (err e) w = (err e, w)
  run_list_records (ok cfg) w =
      list_records_via_api http (resolve_api_client http cfg opts.api_url opts.token) w
