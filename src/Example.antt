-- ===== src/Example.antt =====
-- The examples: an asynchronous server and its client (grpc_example/src), the pattern that the server is
-- built on, and the programs of the client library (tiny_inference_client/examples/src).
pub mod Server
pub mod Likeness
pub mod Runs
pub mod Client
pub mod Sessions
pub mod Vision
pub mod Image
pub mod Sending
pub mod Scratchpad
