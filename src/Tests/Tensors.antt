-- ===== src/Tests/Tensors.antt =====
-- Requests and responses with small tensors.
use tiny_inference_engine.Base.{ℕ, ◌^◌, ◌<◌, ◌≡◌, ◌∷◌, [], ◌++◌, List, refl, some, arith, map}
use tiny_inference_engine.Base.Table.{find}
use tiny_inference_engine.Engine.{NullState, null_state}
use tiny_inference_engine.Messages.{default_response, no_contents, ModelInferRequest}
use tiny_inference_engine.Client.DataType.{Value, from_string, type_of}
use tiny_inference_engine.Client.CallResult.{ok_result, error_result}
use tiny_inference_engine.Client.Api.{block, no_server_metadata, no_model_metadata}
use tiny_inference_engine.Client.Api
use tiny_inference_engine.Client.Grpc.{Stub}
use tiny_inference_engine.Client.Memory.{Memory, encode}
use tiny_inference_engine.Client.Sizes.{output_size}
use tiny_inference_engine.Client.Contents.{CType, converted_as}
use tiny_inference_engine.Client.Writer.{done, get_infer_request}
use tiny_inference_engine.Client.Requests.{Source, IsSound, message, get_infer_request-message}
use tiny_inference_engine.Tests.Rpc.{null_engine}
use tiny_inference_engine.Messages
use tiny_inference_engine.Messages.{Kind, ModelInferResponse, ResponseOf}
use tiny_inference_engine.Client.Api.{no_infer_response}
use tiny_inference_engine.Client.Sizes.{accumulate_size}
use tiny_inference_engine.Client.Contents.{Field}
use tiny_inference_engine.Client.Loopback.{status_ok}
use tiny_inference_engine.Client.Reader.{Heap, get_infer_response, described}
use tiny_inference_engine.Client.Reads.{AllHeld, without_data}
use tiny_inference_engine.Client.Responses.{AllUnreadable, get_infer_response-dangles}
use tiny_inference_engine.Client.Infer.{infer}
use tiny_inference_engine.Client.Inference.{infer-failed, infer-dangles, infer-loopback}
use tiny_inference_engine.Tests.Client.{to_null, unreached}

-- The shorts 1, 2 and -1, and one byte behind them.
abbrev shorts : List ℕ
shorts = 1 ∷ 2 ∷ 65535 ∷ []

abbrev memory : Memory
memory = (7, encode 2 shorts ++ 99 ∷ []) ∷ []

find-memory : find 7 memory ≡ some (encode 2 shorts ++ 99 ∷ [])
unfolding find
find-memory = refl

abbrev three_shorts : Source
three_shorts = record {
  tensor = record { name = "x"; shape = 1 ∷ 3 ∷ []; datatype = Value.int16; address = block 7 };
  type = CType.int16;
  values = shorts;
}

three_shorts-IsSound : IsSound memory three_shorts
unfolding converted_as
three_shorts-IsSound = record {
  converted = refl;
  numeric = λ e. cc;
  at = 7;
  rest = 99 ∷ [];
  address = refl;
  laid_out = find-memory;
  fit = (omega arith, (omega arith, (omega arith, tt)));
  counted = refl;
  small = omega arith;
}

abbrev request : Api.InferRequest
request = record {
  model_name = "resnet";
  model_version = "1";
  id = "42";
  input_tensors = three_shorts.tensor ∷ [];
  output_tensors = [];
}

get_infer_request-message_example :
    get_infer_request 4 memory request
    ≡ done (record {
      model_name = "resnet";
      model_version = "1";
      id = "42";
      inputs = message three_shorts ∷ [];
    })
get_infer_request-message_example =
    get_infer_request-message 4 memory (three_shorts ∷ []) request
      (three_shorts-IsSound, omega arith, tt) refl

-- A tensor with 2 ^ 31 elements.
abbrev huge : Api.InferTensor
huge = record { name = "x"; shape = 2 ^ 31 ∷ []; datatype = Value.uint8; address = block 7 }

abbrev huge_request : Api.InferRequest
huge_request = record request { input_tensors = three_shorts.tensor ∷ huge ∷ [] }

-- An output with one int16 element, whose container object has 24 bytes.
abbrev one_short : Messages.InferTensor
one_short = record { name = "y"; datatype = "INT16"; shape = 1 ∷ 1 ∷ []; contents = no_contents }

abbrev response : ModelInferResponse
response = record {
  model_name = "resnet";
  model_version = "1";
  id = "42";
  outputs = one_short ∷ [];
}

abbrev container : ℕ → Field → List ℕ
container i f =
    0 ∷ 0 ∷ 0 ∷ 0 ∷ 0 ∷ 0 ∷ 0 ∷ 0 ∷ 1 ∷ 0 ∷ 0 ∷ 0 ∷ 1 ∷ 0 ∷ 0 ∷ 0 ∷ 16 ∷ 32 ∷ 0 ∷ 0 ∷ 0 ∷ 0 ∷ 0 ∷ 0
    ∷ []

abbrev heap : Heap
heap = record { next = 8; blocks = memory }

one_short-Held : AllHeld container 0 (one_short ∷ [])
unfolding converted_as from_string type_of output_size accumulate_size
one_short-Held =
    (record { enough = omega arith; bounded = omega arith; single = λ s. omega arith }, tt)

get_infer_response-dangles_example :
    (h' : Heap) × (xs : List Api.InferTensor) × (get_infer_response 4 container response heap
      ≡ done (
        h',
        record { model_name = "resnet"; model_version = "1"; id = "42"; output_tensors = xs },
      ))
    × (map without_data xs ≡ map described (one_short ∷ []))
    × ((b : ℕ) → b < 8 → find b h'.blocks ≡ find b memory)
    × AllUnreadable h'.blocks xs
get_infer_response-dangles_example =
    get_infer_response-dangles 4 container response heap (omega arith) one_short-Held

infer-failed_example :
    infer unreached 4 container request heap null_state
    ≡ done (null_state, error_result, heap, no_infer_response)
infer-failed_example =
    infer-failed unreached 4 container (three_shorts ∷ []) request heap null_state
      (three_shorts-IsSound, omega arith, tt) refl refl

-- A server that answers each inference call with the response.
abbrev answer : (k : Kind) → ResponseOf k
answer Kind.model_infer = response
answer k = default_response k

abbrev answering : Stub NullState
answering = record { call = λ k q w. (w, status_ok, answer k) }

infer-dangles_example :
    (h' : Heap) × (xs : List Api.InferTensor) × (infer answering 4 container request heap null_state
      ≡ done (
        null_state,
        ok_result,
        h',
        record { model_name = "resnet"; model_version = "1"; id = "42"; output_tensors = xs },
      ))
    × (map without_data xs ≡ map described (one_short ∷ []))
    × AllUnreadable h'.blocks xs
infer-dangles_example =
    infer-dangles answering 4 container (three_shorts ∷ []) request heap null_state
      (three_shorts-IsSound, omega arith, tt) (omega arith) refl refl one_short-Held

infer-loopback_example :
    infer to_null 4 container request heap null_state
    ≡ done (null_state, ok_result, heap, no_infer_response)
infer-loopback_example =
    infer-loopback null_engine 4 container (three_shorts ∷ []) request heap null_state
      (three_shorts-IsSound, omega arith, tt) refl
