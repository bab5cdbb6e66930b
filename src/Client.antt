-- ===== src/Client.antt =====
-- The client library (tiny_inference_client/tie_client): data types, call results, the conversion of
-- tensors to and from messages, and the gRPC client.
pub mod DataType
pub mod CallResult
pub mod Api
pub mod Grpc
pub mod Loopback
pub mod Answers
pub mod Memory
pub mod Sizes
pub mod Contents
pub mod Writer
pub mod Writes
pub mod Requests
pub mod Reader
pub mod Reads
pub mod Responses
pub mod Infer
pub mod Inference
pub mod Unary
pub mod Names
pub mod Interface
