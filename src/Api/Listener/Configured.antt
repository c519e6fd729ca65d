-- ===== src/Api/Listener/Configured.antt =====
-- Where the API is served for a configuration that was loaded.
use tsdns.Prelude.{
  Bool, true, false, ◌&&◌, ◌≡◌, ◌≢◌, refl, ap, sym, ◌∙◌, Option, none, some, List, [], ◌∷◌, ◌++◌,
  append-nil, Bytes, if◌then◌else◌, Result, ok, Error, arith, Bool-cases, inl, inr,
}
use tsdns.Config.{Config, Env, is_blank, load}
use tsdns.Config.Sources.{load-IsComplete}
use tsdns.Api.Listener.{
  Endpoint, Sockets, Listening, tcp_endpoints, serve_socket, chmod_socket, listen_socket,
  listen_tcp_if, listen_and_serve,
}

abbrev unless_blank : Bool → Endpoint → List Endpoint
unless_blank b e = if b then [] else e ∷ []

-- The endpoints that a configuration asks for.
abbrev pub endpoints : Config → List Endpoint
endpoints c =
    unless_blank (is_blank c.api_listen) (Endpoint.tcp c.api_listen)
    ++ unless_blank (is_blank c.api_socket) (Endpoint.unix c.api_socket)

module _ {W : Type 0} (sockets : Sockets W) where
  -- The calls for the two kinds of endpoints do not fail.
  abbrev pub AllowsListening : Type 0
  AllowsListening =
      (path : Bytes) (w : W)
      → ((sockets.listen_tcp path w).0 ≡ none)
        × ((sockets.listen_unix path w).0 ≡ none)
        × ((sockets.make_writable path w).0 ≡ none)

  -- If there is no error, the endpoints `es` are served.
  abbrev Serves : List Endpoint → Listening W → Type 0
  Serves es x = x.0 ≡ none → x.1 ≡ es

  tcp_endpoints-Serves :
      (addr : Bytes) (x : Option Error × W) → Serves (Endpoint.tcp addr ∷ []) (tcp_endpoints addr x)
  unfolding tcp_endpoints
  tcp_endpoints-Serves addr (some e, w) h = absurd (cc h)
  tcp_endpoints-Serves addr (none, w) h = refl

  listen_tcp_if-Serves :
      (b : Bool) (addr : Bytes) (w : W)
      → Serves (unless_blank b (Endpoint.tcp addr)) (listen_tcp_if sockets b addr w)
  unfolding listen_tcp_if
  listen_tcp_if-Serves true addr w h = refl
  listen_tcp_if-Serves false addr w h = tcp_endpoints-Serves addr _ h

  serve_socket-Serves :
      (socket : Bytes) (o : Option Error) (es : List Endpoint) (x : Option Error × W)
      → (serve_socket sockets socket o es x).0 ≡ none
      → (o ≡ none) × ((serve_socket sockets socket o es x).1 ≡ es ++ Endpoint.unix socket ∷ [])
  unfolding serve_socket
  serve_socket-Serves socket o es (some e, w) h = absurd (cc h)
  serve_socket-Serves socket o es (none, w) h = (h, refl)

  chmod_socket-Serves :
      (socket : Bytes) (o : Option Error) (es : List Endpoint) (x : Option Error × W)
      → (chmod_socket sockets socket o es x).0 ≡ none
      → (o ≡ none) × ((chmod_socket sockets socket o es x).1 ≡ es ++ Endpoint.unix socket ∷ [])
  unfolding chmod_socket
  chmod_socket-Serves socket o es (some e, w) h = absurd (cc h)
  chmod_socket-Serves socket o es (none, w) h = serve_socket-Serves socket o es _ h

  -- The branch on the socket.
  abbrev socket_if : Bool → Bytes → Listening W → Listening W
  socket_if b socket x =
      if b
      then x
      else chmod_socket sockets socket x.0 x.1
          (sockets.listen_unix socket (sockets.remove socket x.2))

  socket_if-Serves :
      (b : Bool) (socket : Bytes) (es : List Endpoint) (x : Listening W)
      → Serves es x
      → Serves (es ++ unless_blank b (Endpoint.unix socket)) (socket_if b socket x)
  socket_if-Serves true socket es x s h = s h ∙ sym (append-nil es)
  socket_if-Serves false socket es x s h =
      let (before, served) = chmod_socket-Serves socket x.0 x.1 _ h in
      served ∙ ap (λ l. l ++ Endpoint.unix socket ∷ []) (s before)

  tcp_endpoints-allowed :
      (addr : Bytes) (x : Option Error × W) → x.0 ≡ none → (tcp_endpoints addr x).0 ≡ none
  unfolding tcp_endpoints
  tcp_endpoints-allowed addr (some e, w) h = absurd (cc h)
  tcp_endpoints-allowed addr (none, w) h = refl

  serve_socket-allowed :
      (socket : Bytes) (es : List Endpoint) (x : Option Error × W)
      → x.0 ≡ none
      → (serve_socket sockets socket none es x).0 ≡ none
  unfolding serve_socket
  serve_socket-allowed socket es (some e, w) h = absurd (cc h)
  serve_socket-allowed socket es (none, w) h = refl

  chmod_socket-allowed :
      (socket : Bytes) (o : Option Error) (es : List Endpoint) (x : Option Error × W)
      → AllowsListening
      → o ≡ none
      → x.0 ≡ none
      → (chmod_socket sockets socket o es x).0 ≡ none
  unfolding chmod_socket
  chmod_socket-allowed socket o es (some e, w) a before h = absurd (cc h)
  chmod_socket-allowed socket o es (none, w) a before h =
      ap (λ x. (serve_socket sockets socket x es (sockets.make_writable socket w)).0) before
      ∙ serve_socket-allowed socket es _ (a socket w).2

  listen_tcp_if-allowed :
      (b : Bool) (addr : Bytes) (w : W)
      → AllowsListening
      → (listen_tcp_if sockets b addr w).0 ≡ none
  unfolding listen_tcp_if
  listen_tcp_if-allowed true addr w a = refl
  listen_tcp_if-allowed false addr w a = tcp_endpoints-allowed addr _ (a addr w).0

  socket_if-allowed :
      (b : Bool) (socket : Bytes) (x : Listening W)
      → AllowsListening
      → x.0 ≡ none
      → (socket_if b socket x).0 ≡ none
  socket_if-allowed true socket x a h = h
  socket_if-allowed false socket x a h = chmod_socket-allowed socket x.0 x.1 _ a h (a socket _).1

  nonempty :
      (c : Config) → (is_blank c.api_listen && is_blank c.api_socket) ≡ false → endpoints c ≢ []
  nonempty c h e = elim (Bool-cases (is_blank c.api_listen)) [
    | inl blank ↦ elim (Bool-cases (is_blank c.api_socket)) [
      | inl both ↦ ground (arith, blank, both, h)
      | inr socket ↦ ground (arith, blank, socket, e)
    ]
    | inr named ↦ ground (arith, named, e)
  ]

  -- For a configuration that was loaded, `ListenAndServe` returns no error before it waits for its
  -- servers, if the calls for TCP and for Unix sockets do not fail; and whenever it returns none, it
  -- serves the address and the socket that are not blank, of which there is one at least.
  pub load-Serves :
      (read : Bytes → Config → Result Config) (env : Env) (path : Bytes) (c : Config) (w : W)
      → load read env path ≡ ok c
      → (AllowsListening → (listen_and_serve sockets c.api_listen c.api_socket w).0 ≡ none)
        × ((listen_and_serve sockets c.api_listen c.api_socket w).0 ≡ none
            → (listen_and_serve sockets c.api_listen c.api_socket w).1 ≡ endpoints c)
        × (endpoints c ≢ [])
  unfolding listen_and_serve listen_socket
  load-Serves read env path c w h =
      let (_, _, _, complete) = load-IsComplete read env path c h in
      let some_method : (is_blank c.api_listen && is_blank c.api_socket) ≡ false = complete.3 in
      let tcp_part = listen_tcp_if sockets (is_blank c.api_listen) c.api_listen w in
      (
        rw some_method (λ a.
            socket_if-allowed (is_blank c.api_socket) c.api_socket tcp_part a
              (listen_tcp_if-allowed (is_blank c.api_listen) c.api_listen w a)),
        rw some_method (
            socket_if-Serves (is_blank c.api_socket) c.api_socket _ tcp_part
              (listen_tcp_if-Serves (is_blank c.api_listen) c.api_listen w)),
        nonempty c some_method,
      )
