-- ===== src/Client/Loopback.antt =====
-- The client's calls against the server's handlers: `grpc_client` (grpc_client.cpp) over a stub that
-- hands each request to `process_request` (rpc/rpc_*.cpp) and gives back its response.
use tiny_inference_engine.Base.{ℕ, ◌≡◌, refl, true, ◌∷◌}
use tiny_inference_engine.Engine.{EngineInterface}
use tiny_inference_engine.Messages.{Kind, RequestOf, default_response}
use tiny_inference_engine.Rpc.Process.{process_request}
use tiny_inference_engine.Rpc.Sequential.{Session, serve}
use tiny_inference_engine.Client.Grpc.{Status, Stub}

abbrev pub status_ok : Status
status_ok = record { ok = true; error_code = 0; error_message = "" }

module _ {S : Type 0} (engine : EngineInterface S) where
  -- A call that reaches the server's handlers and comes back. The world is the engine's state.
  abbrev pub loopback : Stub S
  loopback = record {
    call = λ k request s.
        let (s', response) = process_request engine k s request (default_response k) in
        (s', status_ok, response);
  }

  -- The loopback answers as the sequential server does, to which the event loops are refined.
  pub loopback-serve :
      (t : ℕ) (k : Kind) (request : RequestOf k) (s : Session S)
      → serve engine (record { tag = t; kind = k; request = request }) s ≡ record {
        engine = (loopback.call k request s.engine).0;
        replies =
            record { tag = t; kind = k; response = (loopback.call k request s.engine).2 }
            ∷ s.replies;
      }
  unfolding serve
  loopback-serve t k request s = refl
