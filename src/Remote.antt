-- ===== src/Remote.antt =====
-- crates/tracker-remote with the data of crates/tracker-protocol: the state of a remote client, its
-- exchange with a server, and what it makes of the answers.
pub mod Protocol
pub mod Mutation
pub mod Errors
pub mod Decoding
pub mod Transport
pub mod Client
pub mod Session
pub mod Creation
pub mod Tests
pub mod ExchangeTests
