-- ===== src/Client/Inference.antt =====
-- What the client's inference call reports: `grpc_client::infer` (grpc_client.cpp).
use tiny_inference_engine.Base.{ℕ, ◌≡◌, ◌≤◌, refl, false, true, List, map}
use tiny_inference_engine.Engine.{EngineInterface}
use tiny_inference_engine.Messages.{Kind, ModelInferRequest, default_response}
use tiny_inference_engine.Rpc.Process.{process_request}
use tiny_inference_engine.Client.CallResult.{ok_result, error_result}
use tiny_inference_engine.Client.Api.{InferRequest, InferTensor, no_infer_response}
use tiny_inference_engine.Client.Grpc.{Stub}
use tiny_inference_engine.Client.Loopback.{loopback}
use tiny_inference_engine.Client.Contents.{Field}
use tiny_inference_engine.Client.Writer.{done}
use tiny_inference_engine.Client.Requests.{Source, AllSound, message, get_infer_request-message}
use tiny_inference_engine.Client.Reader.{Heap, get_infer_response, read_outputs, described}
use tiny_inference_engine.Client.Reads.{AllHeld, without_data}
use tiny_inference_engine.Client.Responses.{AllUnreadable, get_infer_response-dangles}
use tiny_inference_engine.Client.Infer.{infer}

-- The message that a sound request becomes.
abbrev pub sent : InferRequest → List Source → ModelInferRequest
sent r ss = record {
  model_name = r.model_name;
  model_version = r.model_version;
  id = r.id;
  inputs = map message ss;
}

module _ {W : Type 0} (stub : Stub W) (fuel : ℕ) (objects : ℕ → Field → List ℕ) (ss : List Source)
    (r : InferRequest) (h : Heap) (w : W) where
  -- An inference call with a sound request whose RPC fails reports the unknown error and an empty
  -- response, leaves the heap as it is, and changes the world as its RPC did, which was sent exactly the
  -- caller's values.
  pub infer-failed :
      AllSound h.blocks fuel ss
      → r.input_tensors ≡ map (λ s. s.tensor) ss
      → (stub.call Kind.model_infer (sent r ss) w).1.ok ≡ false
      → infer stub fuel objects r h w
        ≡ done ((stub.call Kind.model_infer (sent r ss) w).0, error_result, h, no_infer_response)
  unfolding infer
  infer-failed ok e failed = rw (get_infer_request-message fuel h.blocks ss r ok e, failed) refl

  -- An inference call with a sound request whose RPC succeeds, with a response whose copies stay within
  -- their container objects, reports OK and the response's names, shapes and data types, and no data that
  -- can be read.
  pub infer-dangles :
      AllSound h.blocks fuel ss
      → 2 ≤ fuel
      → r.input_tensors ≡ map (λ s. s.tensor) ss
      → (stub.call Kind.model_infer (sent r ss) w).1.ok ≡ true
      → AllHeld objects 0 (stub.call Kind.model_infer (sent r ss) w).2.outputs
      → let response = (stub.call Kind.model_infer (sent r ss) w).2 in
        (h' : Heap) × (xs : List InferTensor) × (infer stub fuel objects r h w
          ≡ done (
            (stub.call Kind.model_infer (sent r ss) w).0,
            ok_result,
            h',
            record {
              model_name = response.model_name;
              model_version = response.model_version;
              id = response.id;
              output_tensors = xs;
            },
          ))
        × (map without_data xs ≡ map described response.outputs)
        × AllUnreadable h'.blocks xs
  unfolding infer
  infer-dangles ok two e succeeds held =
      let (h', xs, read, same, _, gone) =
        get_infer_response-dangles fuel objects (stub.call Kind.model_infer (sent r ss) w).2 h two
          held in
      (
        h',
        xs,
        rw (get_infer_request-message fuel h.blocks ss r ok e, succeeds, read) refl,
        same,
        gone,
      )

-- Against the server's handler, an inference call with a sound request reports OK and an empty response
-- without its id, whatever the engine, which is not asked.
pub infer-loopback :
    {S : Type 0} (engine : EngineInterface S) (fuel : ℕ) (objects : ℕ → Field → List ℕ)
    (ss : List Source) (r : InferRequest) (h : Heap) (s : S)
    → AllSound h.blocks fuel ss
    → r.input_tensors ≡ map (λ x. x.tensor) ss
    → infer (loopback engine) fuel objects r h s ≡ done (s, ok_result, h, no_infer_response)
unfolding infer process_request default_response get_infer_response read_outputs
infer-loopback engine fuel objects ss r h s ok e =
    rw (get_infer_request-message fuel h.blocks ss r ok e) refl
