-- ===== src/Server.antt =====
-- The server process (tiny_inference_server/tie_server/src): configuration, the gRPC server's life, the
-- manager that owns the servers, the shutdown flag and the main program.
pub mod Config
pub mod Grpc
pub mod Startup
pub mod Life
pub mod Manager
pub mod Main
pub mod Exit
pub mod Members
pub mod Options
pub mod Defaults
pub mod CommandLine
pub mod Logging
pub mod Program
pub mod Concurrent
pub mod Enrollment
pub mod Stranded
pub mod Answering
pub mod Calls
pub mod Halting
pub mod Shrinking
pub mod Draining
pub mod Halted
pub mod Lifetime
pub mod Stopping
pub mod Calm
pub mod Untaken
pub mod Refinement
pub mod Ending
