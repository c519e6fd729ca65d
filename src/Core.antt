-- ===== src/Core.antt =====
-- The package tsdns (core): records, queries, replies, the cache, the server and its handler.
pub mod Record
pub mod Query
pub mod Response
pub mod Glob
pub mod Regexp
pub mod Cache
pub mod Lookup
pub mod Metrics
pub mod Server
pub mod Handler
pub mod Running
pub mod Builder
