-- ===== src/Api/Handlers/Access.antt =====
-- What `authMiddleware` keeps from the handlers.
use tsdns.Prelude.{
  true, false, ◌≡◌, ◌≢◌, refl, sym, ap, ◌∙◌, [], ◌∷◌, Bytes, Option, none, some, Bool-cases, inl,
  inr,
}
use tsdns.Text.Bytes.{codes, equal, equal_iff, contains, cut_prefix}
use tsdns.Text.Space.{trim_space}
use tsdns.Text.Space.Laws.{trim_space-trim_space}
use tsdns.Core.Record.{RecordRepository}
use tsdns.Core.Regexp.{Regexp}
use tsdns.Core.Server.{Server}
use tsdns.Api.Requests.{Request}
use tsdns.Api.Auth.{bearer_token, token_or_bearer, extract_token, passes, authorized}
use tsdns.Api.Handlers.{unauthorized, serve}

equal-ne : (a b : Bytes) → a ≢ b → equal a b ≡ false
equal-ne a b n = elim (Bool-cases (equal a b)) [
  | inl same ↦ absurd (n ((equal_iff a b).0 same))
  | inr other ↦ other
]

-- A request over TCP, and not for the health check.
abbrev pub IsRemote : Request → Type 0
IsRemote r = (r.path ≢ codes "/healthz") × (contains r.remote_addr b':' ≡ true)

pub authorized-IsRemote :
    (token : Bytes) (r : Request)
    → trim_space token ≢ []
    → IsRemote r
    → authorized token r ≡ equal (extract_token r) token
unfolding authorized passes
authorized-IsRemote token r set remote =
    rw (equal-ne (trim_space token) [] set, equal-ne r.path (codes "/healthz") remote.0, remote.1)

abbrev IsTrimmed : Bytes → Type 0
IsTrimmed s = trim_space s ≡ s

nil-IsTrimmed : IsTrimmed []
unfolding trim_space
nil-IsTrimmed = refl

cut_token-IsTrimmed :
    (o : Option Bytes) → IsTrimmed (elim o [ some after ↦ trim_space after | none ↦ [] ])
cut_token-IsTrimmed none = nil-IsTrimmed
cut_token-IsTrimmed (some after) = trim_space-trim_space after

bearer_token-IsTrimmed : (auth : Bytes) → IsTrimmed (bearer_token auth)
unfolding bearer_token
bearer_token-IsTrimmed [] = nil-IsTrimmed
bearer_token-IsTrimmed (c ∷ auth) = cut_token-IsTrimmed (cut_prefix (c ∷ auth) (codes "Bearer "))

token_or_bearer-IsTrimmed : (v auth : Bytes) → IsTrimmed v → IsTrimmed (token_or_bearer v auth)
unfolding token_or_bearer
token_or_bearer-IsTrimmed [] auth h = bearer_token-IsTrimmed auth
token_or_bearer-IsTrimmed (c ∷ v) auth h = h

extract_token-IsTrimmed : (r : Request) → IsTrimmed (extract_token r)
unfolding extract_token
extract_token-IsTrimmed r =
    token_or_bearer-IsTrimmed (trim_space r.api_token) (trim_space r.authorization)
      (trim_space-trim_space r.api_token)

module _ {R : Type 0} (repo : RecordRepository R) (re : Regexp) where
  -- Where a token is set, a request over TCP, that is not for the health check and does not show the
  -- token, is answered by 401, and nothing of the server and its repository changes.
  pub serve-unauthorized :
      (token : Bytes) (r : Request) (s : Server R)
      → trim_space token ≢ []
      → IsRemote r
      → extract_token r ≢ token
      → serve repo re token r s ≡ (unauthorized, s)
  unfolding serve
  serve-unauthorized token r s set remote other =
      rw (authorized-IsRemote token r set remote, equal-ne (extract_token r) token other)

  -- A token that is set with white space at one of its ends cannot be shown: every request over TCP
  -- that is not for the health check is answered by 401.
  pub serve_untrimmed :
      (token : Bytes) (r : Request) (s : Server R)
      → trim_space token ≢ []
      → trim_space token ≢ token
      → IsRemote r
      → serve repo re token r s ≡ (unauthorized, s)
  serve_untrimmed token r s set spaced remote =
      serve-unauthorized token r s set remote
        (λ e. spaced (ap trim_space (sym e) ∙ extract_token-IsTrimmed r ∙ e))
