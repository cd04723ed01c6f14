-- ===== src/Connection.antt =====
-- impl/connection/ and detail/connection.hpp: the life of a connection.
pub mod State
pub mod Runtime
pub mod Attempt
pub mod Owners
pub mod Effects
pub mod Life
pub mod Queue
pub mod Moves
pub mod Running
pub mod Trying
pub mod Verdict
pub mod Dialing
pub mod Reach
pub mod Begins
pub mod Losing
mod Tests
pub mod Policy
pub mod Receive
