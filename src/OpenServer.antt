-- ===== src/OpenServer.antt =====
-- The open server of ipc2/open_server.
pub mod Clients
pub mod Request
pub mod Loop
pub mod Table
pub mod Invariant
pub mod Serving
pub mod Keeping
pub mod Reachable
mod Tests
