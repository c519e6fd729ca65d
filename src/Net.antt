-- ===== src/Net.antt =====
-- Go's `net/netip`, as far as the program uses it: addresses, addresses with a port, their text.
pub mod Addr
pub mod V4
pub mod V6
pub mod AddrPort
