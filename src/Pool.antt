-- ===== src/Pool.antt =====
-- pool.hpp, the class `client_pool`, with client.hpp: the clients in one buffer, the stack of free
-- ones, and the handling of their events.
pub mod State
pub mod Handlers
pub mod Process
pub mod Lifecycle
pub mod Dispatch
pub mod Callbacks
pub mod Settled
pub mod Invariant
pub mod Clients
pub mod Handling
pub mod Chain
pub mod Arming
pub mod Kept
pub mod Stopping
pub mod Starting
pub mod Ending
pub mod History
pub mod Bag
pub mod Contents
pub mod Serving
pub mod Tests
pub mod RunTests
pub mod Samples
