-- ===== src/Api/Auth.antt =====
-- internal/api/auth.go: who may call the handlers.
use tsdns.Prelude.{Bool, true, not, ◌||◌, none, some, [], ◌∷◌, Bytes, if◌then◌else◌}
use tsdns.Text.Bytes.{codes, equal, contains, cut_prefix}
use tsdns.Text.Space.{trim_space}
use tsdns.Api.Requests.{Request}

-- What follows `Bearer ` in the header Authorization.
unfoldable pub bearer_token : Bytes → Bytes
bearer_token [] = []
bearer_token (c ∷ auth) = elim (cut_prefix (c ∷ auth) (codes "Bearer ")) [
  | some after ↦ trim_space after
  | none ↦ []
]

unfoldable pub token_or_bearer : Bytes → Bytes → Bytes
unfolding bearer_token
token_or_bearer [] auth = bearer_token auth
token_or_bearer (c ∷ v) auth = c ∷ v

unfoldable pub extract_token : Request → Bytes
unfolding token_or_bearer
extract_token r = token_or_bearer (trim_space r.api_token) (trim_space r.authorization)

-- The tests in front of the handler, for a token that is set: the path of the health check, a
-- connection that is no TCP connection, and the token.
unfoldable pub passes : Bytes → Request → Bool
unfolding extract_token
passes token r =
    equal r.path (codes "/healthz")
    || not (contains r.remote_addr b':')
    || equal (extract_token r) token

-- The whole test: a blank token lets all requests pass.
unfoldable pub authorized : Bytes → Request → Bool
unfolding passes
authorized token r = if equal (trim_space token) [] then true else passes token r
