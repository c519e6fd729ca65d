-- ===== src/Repository/Redis/Commands.antt =====
-- repository/redis/redis.go: the keys, and the commands of the transactions.
use tsdns.Prelude.{ℤ, ◌==ℤ◌, List, [], ◌∷◌, ◌++◌, Bytes, Bool, true, false}
use tsdns.Text.Bytes.{codes}
use tsdns.Text.Decimal.{format_int}
use tsdns.Core.Record.{Record}
use tsdns.Repository.Redis.Client.{Hash, Command, hset, sadd, srem, del}

unfoldable pub key_domains : Bytes → Bytes
key_domains prefix = prefix ++ codes ":domains"

unfoldable pub key_record : Bytes → Bytes → Bytes
key_record prefix domain = prefix ++ (codes ":record:" ++ domain)

unfoldable pub key_instance_domains : Bytes → ℤ → Bytes
key_instance_domains prefix i = prefix ++ (codes ":instance:" ++ (format_int i ++ codes ":domains"))

abbrev pub record_keys : Bytes → List Bytes → List Bytes
record_keys prefix [] = []
record_keys prefix (d ∷ ds) = key_record prefix d ∷ record_keys prefix ds

-- `SRem` from the set of the old instance, unless the record stays in it.
unfoldable pub moved_from : Bool → Bytes → ℤ → Bytes → List Command
moved_from true prefix old domain = []
moved_from false prefix old domain = srem (key_instance_domains prefix old) domain ∷ []

-- The commands of `Create`.
unfoldable pub create_commands : Bytes → Record → ℤ → Hash → List Command
unfolding moved_from
create_commands prefix r old hash =
    hset (key_record prefix r.domain) hash
    ∷ sadd (key_domains prefix) r.domain
    ∷ sadd (key_instance_domains prefix r.instance_id) r.domain
    ∷ moved_from (old ==ℤ r.instance_id) prefix old r.domain

-- The commands of `Delete`.
unfoldable pub delete_commands : Bytes → Bytes → ℤ → List Command
delete_commands prefix domain i =
    del (key_record prefix domain)
    ∷ srem (key_domains prefix) domain
    ∷ srem (key_instance_domains prefix i) domain
    ∷ []

-- The commands of `DeleteByInstanceID`.
unfoldable pub removal_commands : Bytes → ℤ → List Bytes → List Command
removal_commands prefix i [] = del (key_instance_domains prefix i) ∷ []
removal_commands prefix i (d ∷ ds) =
    del (key_record prefix d) ∷ srem (key_domains prefix) d ∷ removal_commands prefix i ds
