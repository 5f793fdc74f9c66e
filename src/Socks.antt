-- ===== src/Socks.antt =====
-- .evergreen/socks5srv.py: a Socks5 proxy server.
pub mod Stream
pub mod Remap
pub mod Connect
pub mod Handler
pub mod Relay
mod Tests
