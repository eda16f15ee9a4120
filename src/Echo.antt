-- ===== src/Echo.antt =====
-- The echo server of MyChat/MyTCPSrv01.cpp: `third_party_lib::session`, the `connection` that waits
-- for its socket, and the `server` that accepts connections.
pub mod Session
pub mod Connection
pub mod Buffer
pub mod Serving
pub mod Server
mod Tests
