-- ===== src/Tests.antt =====
-- The theorems applied at concrete inputs, and runs of the definitions.
pub mod Rpc
pub mod Server
mod CommandLine
pub mod Client
mod Tensors
mod Threads
mod Onnx
mod Example
mod Calls
