-- ===== src/Client/Infer.antt =====
-- `grpc_client::infer` (grpc_client.cpp).
use tiny_inference_engine.Base.{ℕ, not, List, if◌then◌else◌}
use tiny_inference_engine.Messages.{Kind}
use tiny_inference_engine.Client.CallResult.{CallResult, ok_result, error_result}
use tiny_inference_engine.Client.Api.{InferRequest, InferResponse, no_infer_response}
use tiny_inference_engine.Client.Grpc.{Stub}
use tiny_inference_engine.Client.Contents.{Field}
use tiny_inference_engine.Client.Writer.{Outcome, done, ◌>>=◌, get_infer_request}
use tiny_inference_engine.Client.Reader.{Heap, get_infer_response}

-- The caller's data are in the heap too; `objects` are the containers of the response.
unfoldable pub infer :
    {W : Type 0}
    → Stub W
    → ℕ
    → (ℕ → Field → List ℕ)
    → InferRequest
    → Heap
    → W
    → Outcome (W × CallResult × Heap × InferResponse)
infer stub fuel objects infer_request h w =
    get_infer_request fuel h.blocks infer_request >>= λ request.
    let (w', rpc_status, response) = stub.call Kind.model_infer request w in
    if not rpc_status.ok
    then done (w', error_result, h, no_infer_response)
    else (get_infer_response fuel objects response h >>= λ (h', infer_response).
        done (w', ok_result, h', infer_response))
