-- ===== src/Cli/Records/Authorized.antt =====
-- The header that the client sets, and the test of `authMiddleware`.
use tsdns.Prelude.{
  ◌≡◌, ◌≢◌, refl, sym, ap, ◌∙◌, true, false, Option, some, [], ◌∷◌, ◌++◌, reverse, reverse-append,
  reverse-reverse, Bytes, arith, Bool-cases, inl, inr,
}
use tsdns.Text.Bytes.{codes, equal, equal_refl, contains, cut_prefix}
use tsdns.Text.Space.{space_width, space_width_back, trim_space}
use tsdns.Text.Space.Laws.{trim_space_stop, trim_space_back}
use tsdns.Api.Requests.{Request}
use tsdns.Api.Auth.{bearer_token, token_or_bearer, extract_token, passes, authorized}
use tsdns.Config.{Config}
use tsdns.Cli.Records.Client.{
  Payload, Http, set_auth_headers, flag_or, has_socket, new_api_client, resolve_api_client,
}
use tsdns.Cli.Records.Served.{delivered}

-- No white space ends behind a text that has none at its end, if a blank stands in front of it.
width_back_blank :
    (h rest : Bytes) → h ≢ [] → space_width_back h ≡ 0 → space_width_back (h ++ b' ' ∷ rest) ≡ 0
unfolding space_width_back
width_back_blank [] rest n h = absurd (n refl)
width_back_blank (c ∷ []) [] n h = ground arith
width_back_blank (c ∷ []) (d ∷ rest) n h = ground arith
width_back_blank (c ∷ b ∷ []) rest n h = ground arith
width_back_blank (c ∷ b ∷ a ∷ s) rest n h = h

reverse-ne-nil : (s : Bytes) → s ≢ [] → reverse s ≢ []
reverse-ne-nil s n e = n (sym (reverse-reverse s) ∙ ap reverse e)

bearer_trimmed :
    (token : Bytes)
    → token ≢ []
    → trim_space token ≡ token
    → trim_space (codes "Bearer " ++ token) ≡ codes "Bearer " ++ token
bearer_trimmed token n t = trim_space_stop (codes "Bearer " ++ token) (unfold space_width in refl) (
    ap space_width_back (reverse-append (codes "Bearer ") token)
    ∙ width_back_blank (reverse token) (codes "reraeB") (reverse-ne-nil token n)
        (ap (λ s. space_width_back (reverse s)) (sym t) ∙ trim_space_back token))

bearer_token-bearer :
    (token : Bytes) → trim_space token ≡ token → bearer_token (codes "Bearer " ++ token) ≡ token
unfolding bearer_token cut_prefix
bearer_token-bearer token t = t

extract_token-delivered :
    (token remote_addr method url : Bytes) (body : Option Payload)
    → trim_space token ≡ token
    → token ≢ []
    → extract_token (
        delivered remote_addr (record {
          method = method;
          url = url;
          body = body;
          authorization = some (codes "Bearer " ++ token);
        }))
      ≡ token
unfolding extract_token
extract_token-delivered token remote_addr method url body t n =
    ap (token_or_bearer (trim_space [])) (bearer_trimmed token n t)
    ∙ unfold trim_space token_or_bearer in bearer_token-bearer token t

-- A request that shows the token passes, and so does one that comes over the socket.
authorized-extract_token :
    (token : Bytes) (r : Request) → extract_token r ≡ token → authorized token r ≡ true
unfolding authorized passes
authorized-extract_token token r e = ground (arith, ap (λ x. equal x token) e ∙ equal_refl token)

authorized_local :
    (token : Bytes) (r : Request) → contains r.remote_addr b':' ≡ false → authorized token r ≡ true
unfolding authorized passes
authorized_local token r e = ground (arith, e)

authorized_blank : (r : Request) → authorized [] r ≡ true
unfolding authorized trim_space equal
authorized_blank r = refl

-- The request with the header for a token.
abbrev pub with_token : Bytes → Bytes → Bytes → Option Payload → Bytes → Request
with_token remote_addr method url body token =
    delivered remote_addr
      (record { method = method; url = url; body = body; authorization = set_auth_headers token })

authorized-with_token :
    (token remote_addr method url : Bytes) (body : Option Payload)
    → trim_space token ≡ token
    → authorized token (with_token remote_addr method url body token) ≡ true
unfolding set_auth_headers
authorized-with_token [] remote_addr method url body t = authorized_blank _
authorized-with_token (c ∷ token) remote_addr method url body t =
    authorized-extract_token (c ∷ token) _
      (extract_token-delivered (c ∷ token) remote_addr method url body t (λ x. cc x))

module _ {W : Type 0} (http : Http W) where
  resolved_token :
      (cfg : Config) (api_url flag : Bytes)
      → has_socket http cfg.api_socket ≡ false
      → (resolve_api_client http cfg api_url flag).token ≡ flag_or (trim_space flag) cfg.api_token
  unfolding resolve_api_client new_api_client
  resolved_token cfg api_url flag h = rw h

  -- A request of the client that is made from the flags and the configuration passes the
  -- authorisation of a server with the same token, if the token has no white space at its ends:
  -- over TCP by the header, and over the socket, where no remote address has a colon, without.
  pub authorized-resolve_api_client :
      (cfg : Config) (api_url flag token remote_addr method url : Bytes) (body : Option Payload)
      → flag_or (trim_space flag) cfg.api_token ≡ token
      → trim_space token ≡ token
      → (has_socket http cfg.api_socket ≡ true → contains remote_addr b':' ≡ false)
      → authorized token (
          with_token remote_addr method url body
            (trim_space (resolve_api_client http cfg api_url flag).token))
        ≡ true
  authorized-resolve_api_client cfg api_url flag token remote_addr method url body same t local =
      elim (Bool-cases (has_socket http cfg.api_socket)) [
        | inl socket ↦ authorized_local token _ (local socket)
        | inr tcp ↦
            let client = resolved_token cfg api_url flag tcp ∙ same in
            ap (λ x. authorized token (with_token remote_addr method url body (trim_space x)))
              client
            ∙ ap (λ x. authorized token (with_token remote_addr method url body x)) t
            ∙ authorized-with_token token remote_addr method url body t
      ]
