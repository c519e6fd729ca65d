-- ===== src/Api/Listener.antt =====
-- `ListenAndServe` of internal/api/server.go, up to its wait for an error.
pub mod Configured
use tsdns.Prelude.{
  Bool, true, false, ◌&&◌, Option, none, some, List, [], ◌∷◌, ◌++◌, Bytes, if◌then◌else◌, Error,
  other,
}
use tsdns.Text.Bytes.{codes}
use tsdns.Config.{is_blank}

-- Where the HTTP server is served.
pub data Endpoint : Type 0 where
  tcp : Bytes → Endpoint
  unix : Bytes → Endpoint

-- The calls of package os and package net, on the state of the machine: `listen_tcp` has the error of
-- the listener that `http.Server.ListenAndServe` opens. The error of `os.Remove` is ignored.
pub record Sockets (W : Type 0) : Type 0 where
  pub listen_tcp : Bytes → W → Option Error × W
  pub remove : Bytes → W → W
  pub listen_unix : Bytes → W → Option Error × W
  pub make_writable : Bytes → W → Option Error × W

abbrev pub server_closed : Error
server_closed = other (codes "http: Server closed")

-- What is behind the calls so far: the error that is returned without a wait for the servers, if there
-- is one, the endpoints that are served, and the state. The goroutine for TCP is run to its end or to
-- its wait for connections before the Unix socket is opened.
abbrev pub Listening : Type 0 → Type 0
Listening W = Option Error × List Endpoint × W

unfoldable pub tcp_endpoints : {W : Type 0} → Bytes → Option Error × W → Listening W
tcp_endpoints addr (some e, w) = (some e, [], w)
tcp_endpoints addr (none, w) = (none, tcp addr ∷ [], w)

module _ {W : Type 0} (sockets : Sockets W) where
  -- The error of TCP waits in the channel; an error of the Unix socket is returned before it is read.
  unfoldable pub serve_socket :
      Bytes → Option Error → List Endpoint → Option Error × W → Listening W
  serve_socket socket waiting served (some e, w) = (some e, served, w)
  serve_socket socket waiting served (none, w) = (waiting, served ++ unix socket ∷ [], w)

  unfoldable pub chmod_socket :
      Bytes → Option Error → List Endpoint → Option Error × W → Listening W
  unfolding serve_socket
  chmod_socket socket waiting served (some e, w) = (some e, served, w)
  chmod_socket socket waiting served (none, w) =
      serve_socket socket waiting served (sockets.make_writable socket w)

  unfoldable pub listen_socket : Bytes → Listening W → Listening W
  unfolding chmod_socket
  listen_socket socket (waiting, served, w) =
      if is_blank socket
      then (waiting, served, w)
      else chmod_socket socket waiting served (sockets.listen_unix socket (sockets.remove socket w))

  unfoldable pub listen_tcp_if : Bool → Bytes → W → Listening W
  unfolding tcp_endpoints
  listen_tcp_if true addr w = (none, [], w)
  listen_tcp_if false addr w = tcp_endpoints addr (sockets.listen_tcp addr w)

  unfoldable pub listen_and_serve : Bytes → Bytes → W → Listening W
  unfolding listen_socket listen_tcp_if
  listen_and_serve addr socket w =
      if is_blank addr && is_blank socket
      then (some server_closed, [], w)
      else listen_socket socket (listen_tcp_if (is_blank addr) addr w)
