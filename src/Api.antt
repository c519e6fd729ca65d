-- ===== src/Api.antt =====
-- internal/api: the HTTP interface of the record manager. Routing and JSON are library code: a
-- request names the route that the mux chose for it, and holds the decoded body.
pub mod Requests
pub mod Targets
pub mod Auth
pub mod Handlers
pub mod Listener
