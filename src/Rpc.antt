-- ===== src/Rpc.antt =====
-- The asynchronous RPCs of the server (tiny_inference_server/tie_server/src/rpc): the request
-- handlers, the life of an RPC object, the pool that owns the objects, the loop that executes them
-- on completion events, and what holds of it.
pub mod Process
pub mod Classes
pub mod Host
pub mod Execute
pub mod Invariant
pub mod Steps
pub mod Safety
pub mod Counting
pub mod Listening
pub mod Queues
pub mod Sequential
pub mod Replies
pub mod Shutdown
pub mod Threads
pub mod Races
pub mod Whole
pub mod Confined
pub mod Creation
pub mod Accesses
pub mod Interleaving
pub mod Uninterrupted
pub mod Round
pub mod Scheduled
