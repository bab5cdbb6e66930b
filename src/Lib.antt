-- ===== src/Lib.antt =====
-- The tiny inference engine: a gRPC server for machine-learning inference, the engine behind it, and its
-- C++ client.
--
-- The parts and the files that model them:
--
-- - Messages: the messages and methods of proto/services.proto.
-- - Engine: tiny_inference_engine/tie_engine, the engine and backend interfaces as records of functions
--   over a state, the null backend, the backend factory (`create_backend`) and the engine
--   (`engine_over`, `create_engine`). Engine/Onnx is src/onnx_backend, over Engine/Runtime, what it
--   uses of ONNX Runtime, and Engine/Names, the names that it takes from the runtime's allocator;
--   Engine/Loading, Engine/Models and Engine/Several have what follows.
-- - Rpc: tiny_inference_server/tie_server/src/rpc and the event loop of src/grpc_server.cpp.
--   Rpc/Process is `process_request` of the nine RPC classes, Rpc/Classes what else differs between them.
--   Rpc/Host is the state: RPC objects, the pool `rpc_pool` and the operations that the gRPC runtime holds.
--   Rpc/Execute is `rpc_unary_async::execute` (`execute`) and the loop `grpc_server::rpc_handler`
--   (`handle_event`, `step`, `run`).
--   Rpc/Invariant and Rpc/Steps have the invariant and the cases of one round; Rpc/Safety,
--   Rpc/Counting, Rpc/Queues, Rpc/Listening, Rpc/Sequential, Rpc/Replies what follows for runs; Rpc/Shutdown
--   has the events of operations that are given up. Rpc/Threads is
--   the same code with one thread for each queue, whose accesses to shared state are interleaved
--   (`turn`, `schedule`); Rpc/Confined, Rpc/Creation and Rpc/Accesses say which thread is at which object,
--   Rpc/Interleaving has all interleavings, and Rpc/Uninterrupted, Rpc/Round and Rpc/Scheduled compare
--   them with Rpc/Execute. Rpc/Races adds that the pool's table has no lock, and
--   Rpc/Whole compares the two.
-- - Server: tiny_inference_server/tie_server/src. Server/Config is server_config.hpp, Server/Grpc the life
--   of `grpc_server`, Server/Manager `server_manager`, `http_server` and the shutdown flag, Server/Main
--   the loop of main.cpp. Server/Startup, Server/Life and Server/Exit have their theorems.
--   Server/Members, Server/Options and Server/Defaults are the constructor of command_line_parser.cpp: its
--   statements, the options, and the configuration that it leaves; Server/CommandLine is the parse,
--   Server/Logging logging.cpp, Server/Program all of main.cpp. Server/Concurrent has the threads of
--   `grpc_server::start` in any interleaving, Server/Enrollment one after the other.
--   Server/Answering and Server/Calls have clients that call such a server one after another.
--   Server/Halting is `grpc_server::stop` access by access, beside the threads of the server;
--   Server/Shrinking, Server/Draining and Server/Halted have its course while all threads wait,
--   Server/Lifetime a server from its start to its end, Server/Calm, Server/Untaken and Server/Ending
--   who takes the events after the release,
--   Server/Refinement that `stop` of Server/Grpc is what it comes to, and
--   Server/Stranded and Server/Stopping the release while threads run.
-- - Client: tiny_inference_client/tie_client. Client/DataType, Client/CallResult and Client/Api are the types
--   of the interface, Client/Grpc the calls of `grpc_client`, and Client/Infer its inference call;
--   Client/Interface is `client_interface`, which the programs of Example use.
--   Client/Sizes, Client/Contents, Client/Memory and Client/Writer are the request half of
--   `tensor_converter`, Client/Reader the response half. Client/Loopback joins the client to the
--   handlers of Rpc/Process. Client/Answers, Client/Writes, Client/Requests, Client/Reads, Client/Responses
--   and Client/Inference have theorems; Client/Names has the two tables of Client/DataType as a
--   correspondence. Client/Unary is client_rpc_unary_async.hpp.
-- - Example: Example/Server is `ServerImpl` of grpc_example/src/server.cpp, which Example/Likeness and
--   Example/Runs compare with Rpc/Execute. Example/Client is grpc_example/src/client.cpp and the programs
--   client_example_server_info and client_example_model_info of tiny_inference_client/examples, Example/Vision
--   and Example/Image client_example_simple_inference and client_example_model_infer; Example/Sessions and
--   Example/Sending have their theorems. Example/Scratchpad is scratchpad.cpp.
-- - Base: names from the library, association lists (Base/Table), signed integers (Base/Int) and
--   products (Base/Product).
-- - Tests: the theorems at concrete inputs.
--
-- How they interact: Server/Grpc registers RPC objects with `spawn` of Rpc/Execute; the runtime's events
-- reach them through `run`, which calls `process_request` with the engine's record; the client's stub is a
-- record that Client/Loopback fills with the same `process_request`, and which the event loops answer as
-- (Rpc/Sequential).
--
-- Conventions. Integers are native numbers with their wrap-around written out: ids modulo 2 ^ 64, the
-- writer's counter modulo 2 ^ 32, `int` and `size_t` counts as bit patterns. `none` is undefined
-- behaviour or termination of the process where a function's comment says so. `write_from` has fuel, one for
-- each round; a size below 2 ^ 32 needs no more than size + 1. `copy_from` has fuel
-- too, of which two rounds are enough: it faults in the second. `serve_from` has fuel for the number of
-- servers; `main` gives one more than there are moments of time, and each server that returns uses up one.
--
-- The gRPC runtime is not modelled beyond the operations that it holds: it returns an event only for one
-- of them, and to a thread of its queue. In Rpc/Threads each access to shared state is made as a whole, and
-- `process_request` counts as one access; in Rpc/Races the insertions into the pool's table and the
-- erasures have a begin and an end, and what an overlap of two of them does is not defined. What becomes of the
-- `stop` of a running server beside its threads is an argument of `main` (Server/Manager).
-- The library CLI11 is a record of operations and laws (`Cli`), two functions stand for spdlog, a record
-- for ONNX Runtime, and a record of operations and laws for OpenCV (`Vision`). The ONNX backend is not
-- part of the build, and one of its branches does not compile: that branch is `undefined`.
-- Not modelled: `dump` of the configuration, traces and sleeps; signals without a handler of the program;
-- the example server_backend_runner.cpp of the engine, which calls an interface that no longer exists;
-- tests.

pub mod Base
pub mod Engine
pub mod Messages
pub mod Rpc
pub mod Server
pub mod Client
pub mod Example
pub mod Tests
