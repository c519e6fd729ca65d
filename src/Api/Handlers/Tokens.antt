-- ===== src/Api/Handlers/Tokens.antt =====
-- Which requests show the token, by their headers.
use tsdns.Prelude.{
  ◌≡◌, ◌≢◌, refl, sym, ap, ◌∙◌, Option, none, some, [], ◌∷◌, ◌++◌, Bytes, if◌then◌else◌, arith,
}
use tsdns.Text.Bytes.{codes, equal_iff, cut_prefix}
use mathlib.Core.Option.{some-injective}
use tsdns.Text.Space.{trim_space}
use tsdns.Core.Record.{RecordRepository}
use tsdns.Core.Regexp.{Regexp}
use tsdns.Core.Server.{Server}
use tsdns.Api.Requests.{Request}
use tsdns.Api.Auth.{bearer_token, token_or_bearer, extract_token}
use tsdns.Api.Handlers.{unauthorized, handle, serve}
use tsdns.Api.Handlers.Access.{IsRemote, authorized-IsRemote, serve-unauthorized}

-- The trimmed headers X-Api-Token and Authorization show a token: the first is the token, or it is
-- empty and the second is `Bearer ` and the token with white space around it.
pub data Shows (token : Bytes) : Bytes → Bytes → Type 0 where
  by_header : (header auth : Bytes) → header ≡ token → Shows token header auth
  by_bearer :
      (auth after : Bytes)
      → auth ≡ codes "Bearer " ++ after
      → trim_space after ≡ token
      → Shows token [] auth

cut_prefix_split : (s p r : Bytes) → cut_prefix s p ≡ some r → s ≡ p ++ r
unfolding cut_prefix
cut_prefix_split s [] r h = some-injective s r h
cut_prefix_split [] (x ∷ p) r h = absurd (cc h)
cut_prefix_split (c ∷ s) (x ∷ p) r h = ground (arith, cut_prefix_split s p r)

cut_prefix_append : (p r : Bytes) → cut_prefix (p ++ r) p ≡ some r
unfolding cut_prefix
cut_prefix_append [] [] = refl
cut_prefix_append [] (c ∷ r) = refl
cut_prefix_append (x ∷ p) r = ground (arith, cut_prefix_append p r)

-- What is read of a header that is cut.
abbrev after_prefix : Option Bytes → Bytes
after_prefix none = []
after_prefix (some after) = trim_space after

bearer_token_lem :
    (auth : Bytes) → bearer_token auth ≡ after_prefix (cut_prefix auth (codes "Bearer "))
unfolding bearer_token cut_prefix
bearer_token_lem [] = refl
bearer_token_lem (c ∷ auth) = elim (cut_prefix (c ∷ auth) (codes "Bearer ")) [
  | none ↦ refl
  | some after ↦ refl
]

cut-Shows :
    (token auth : Bytes) (o : Option Bytes)
    → token ≢ []
    → cut_prefix auth (codes "Bearer ") ≡ o
    → after_prefix o ≡ token
    → Shows token [] auth
cut-Shows token auth none n e h = absurd (n (sym h))
cut-Shows token auth (some after) n e h =
    Shows.by_bearer auth after (cut_prefix_split auth (codes "Bearer ") after e) h

module _ (token : Bytes) (set : token ≢ []) where
  token_or_bearer-Shows :
      (header auth : Bytes) → token_or_bearer header auth ≡ token → Shows token header auth
  unfolding token_or_bearer
  token_or_bearer-Shows [] auth h =
      cut-Shows token auth _ set refl (sym (bearer_token_lem auth) ∙ h)
  token_or_bearer-Shows (c ∷ header) auth h = Shows.by_header (c ∷ header) auth h

  by_header-token : (header auth : Bytes) → header ≡ token → token_or_bearer header auth ≡ token
  unfolding token_or_bearer
  by_header-token [] auth e = absurd (set (sym e))
  by_header-token (c ∷ header) auth e = e

  Shows-token_or_bearer :
      (header auth : Bytes) → Shows token header auth → token_or_bearer header auth ≡ token
  unfolding token_or_bearer
  Shows-token_or_bearer header auth (Shows.by_header _ _ e) = by_header-token header auth e
  Shows-token_or_bearer _ auth (Shows.by_bearer _ after e h) =
      bearer_token_lem auth
      ∙ ap (λ a. after_prefix (cut_prefix a (codes "Bearer "))) e
      ∙ ap after_prefix (cut_prefix_append (codes "Bearer ") after)
      ∙ h

-- The request shows the token.
abbrev pub ShowsToken : Bytes → Request → Type 0
ShowsToken token r = Shows token (trim_space r.api_token) (trim_space r.authorization)

not_nil : (token : Bytes) → trim_space token ≢ [] → token ≢ []
unfolding trim_space
not_nil [] n = n
not_nil (c ∷ token) n = λ e. cc e

module _ {R : Type 0} (repo : RecordRepository R) (re : Regexp) where
  -- Where a token is set, a request over TCP that is not for the health check is handled if one of its
  -- headers shows the token, trimmed: X-Api-Token, or, if that is blank, Authorization behind
  -- `Bearer `. If not, it is answered by 401, and nothing of the server and its repository changes.
  pub serve-ShowsToken :
      (token : Bytes) (r : Request) (s : Server R)
      → trim_space token ≢ []
      → IsRemote r
      → (ShowsToken token r → serve repo re token r s ≡ handle repo re r r.route s)
        × (¬ ShowsToken token r → serve repo re token r s ≡ (unauthorized, s))
  unfolding serve extract_token
  serve-ShowsToken token r s set remote =
      let header = trim_space r.api_token in
      let auth = trim_space r.authorization in
      let named = not_nil token set in
      (
        λ shows.
            ap (λ b. if b then handle repo re r r.route s else (unauthorized, s))
              (authorized-IsRemote token r set remote
                ∙ (equal_iff (extract_token r) token).1
                    (Shows-token_or_bearer token named header auth shows)),
        λ hidden.
            serve-unauthorized repo re token r s set remote
              (λ e. hidden (token_or_bearer-Shows token named header auth e)),
      )
