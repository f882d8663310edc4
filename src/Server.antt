-- ===== src/Server.antt =====
-- crates/tracker-server: the server's state under its lock, its receipts of completed commands, and
-- the errors that it answers with.
pub mod Errors
pub mod Core
pub mod Resources
pub mod Commands
pub mod Handler
pub mod Requests
pub mod Tests
pub mod RequestTests
