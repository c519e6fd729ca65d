-- ===== src/Repository/Redis/Setup.antt =====
-- repository/redis/redis.go: `NewRepository`, from the options to a client that answers.
use tsdns.Prelude.{ℤ, [], ◌∷◌, Bytes, Result, ok, err, other}
use tsdns.Text.Bytes.{codes}
use tsdns.Text.Space.{trim_space}
use tsdns.Repository.Redis.Client.{Redis}

pub record Options : Type 0 where
  pub addr : Bytes
  pub password : Bytes
  pub prefix : Bytes
  pub db : ℤ

-- The repository: the state of its client, and the prefix of its keys.
pub record Connected (D : Type 0) : Type 0 where
  pub state : D
  pub key_prefix : Bytes

-- The prefix, by what trimming leaves of it.
unfoldable pub prefix_or_default : Bytes → Bytes → Bytes
prefix_or_default [] prefix = codes "tsdns"
prefix_or_default (c ∷ trimmed) prefix = prefix

-- `new_client` is `goredis.NewClient`, for an address, a password and a database.
module _ {D : Type 0} (client : Redis D) (new_client : Bytes → Bytes → ℤ → D) where
  -- Behind the ping. The error of `Close` is ignored.
  unfoldable pub pinged : Bytes → Result (Unit {0}) × D → Result (Connected D)
  pinged prefix (err e, d) = err e
  pinged prefix (ok _, d) = ok (record { state = d; key_prefix = prefix })

  -- `NewRepository`, by the trimmed address.
  unfoldable pub new_repository_trimmed : Bytes → Options → Result (Connected D)
  unfolding prefix_or_default pinged
  new_repository_trimmed [] opt = err (other (codes "redis addr is required"))
  new_repository_trimmed (c ∷ addr) opt =
      pinged (prefix_or_default (trim_space opt.prefix) opt.prefix)
        (client.ping (new_client opt.addr opt.password opt.db))

  unfoldable pub new_repository : Options → Result (Connected D)
  unfolding new_repository_trimmed
  new_repository opt = new_repository_trimmed (trim_space opt.addr) opt
