-- ===== src/Storage/Hosts.antt =====
-- internal/storage/storage.go: hosts with their ports, and the number of a Redis database.
use tsdns.Prelude.{
  ℕ, ◌+◌, ℤ, pos, Bool, false, not, ◌&&◌, ◌||◌, Option, none, some, [], ◌∷◌, ◌++◌, Bytes, ◌==◌, leb,
  is_negative, if◌then◌else◌, take, drop, Result, ok, err, other,
}
use tsdns.Text.Bytes.{codes, contains, index, last_index}
use tsdns.Text.Decimal.{parse_int}
use tsdns.Api.Targets.{trim_set}

-- `strings.ToLower` of a scheme, which is ASCII.
unfoldable pub to_lower : Bytes → Bytes
to_lower [] = []
to_lower (c ∷ s) = (if leb b'A' c && leb c b'Z' then c + 32 else c) ∷ to_lower s

-- Whether `net.SplitHostPort` succeeds, where the last colon is at `i`.
unfoldable pub splits_at : ℕ → Bytes → Bool
splits_at i [] = false
splits_at i (c ∷ s) =
    if c == b'['
    then elim (index (c ∷ s) b']') [
      | none ↦ false
      | some e ↦ e + 1 == i && not (contains s b'[') && not (contains (drop (e + 1) (c ∷ s)) b']')
    ]
    else not (contains (take i (c ∷ s)) b':')
      && not (contains (c ∷ s) b'[')
      && not (contains (c ∷ s) b']')

unfoldable pub splits_host_port : Bytes → Bool
unfolding splits_at
splits_host_port s = elim (last_index s b':') [ none ↦ false | some i ↦ splits_at i s ]

-- The address with a port, if it has no colon.
unfoldable pub ensure_port : Bytes → Bytes → Bytes
ensure_port port host =
    if splits_host_port host || contains host b':' then host else host ++ b':' ∷ port

unfoldable pub ensure_mysql_port : Bytes → Bytes
unfolding ensure_port
ensure_mysql_port host = ensure_port (codes "3306") host

unfoldable pub ensure_redis_port : Bytes → Bytes
unfolding ensure_port
ensure_redis_port [] = []
ensure_redis_port (c ∷ host) = ensure_port (codes "6379") (c ∷ host)

-- The number of the database, by the text between the slashes and by the result of `Atoi`.
unfoldable pub checked_db : Option ℤ → Result ℤ
checked_db none = err (other (codes "invalid redis db number"))
checked_db (some n) = if is_negative n then err (other (codes "invalid redis db number")) else ok n

unfoldable pub redis_db_of : Bytes → Result ℤ
unfolding checked_db
redis_db_of [] = ok (pos 0)
redis_db_of (c ∷ s) = checked_db (parse_int (c ∷ s))

unfoldable pub extract_redis_db : Bytes → Result ℤ
unfolding redis_db_of
extract_redis_db path = redis_db_of (trim_set (codes "/") path)
