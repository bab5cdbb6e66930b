-- ===== src/Tests/Onnx.antt =====
-- A runtime whose models have as many inputs as its argument says, and one output.
use tiny_inference_engine.Base.{ℕ, zero, suc, ◌*◌, ◌≡◌, ◌⊎◌, refl, true, some, [], ◌∷◌, arith}
use tiny_inference_engine.Engine.{InferRequest}
use tiny_inference_engine.Engine.Runtime.{Runtime, OutputTensor}
use tiny_inference_engine.Engine.Onnx.{returns, undefined, OnnxBackend, model_load, infer}
use tiny_inference_engine.Engine.Models.{the_tensor, infer-loaded}
use tiny_inference_engine.Engine.Several.{infer-several_inputs}

-- The output is one number, at the address 7.
abbrev output : ℕ → OutputTensor
output i = record { address = 7; element_count = 1; shape = 1 ∷ [] }

abbrev some_runtime : ℕ → Runtime
some_runtime n = record {
  Session = ℕ;
  open_session = λ name. some n;
  input_count = λ s. s;
  output_count = λ s. 1;
  input_name = λ s i. "x";
  output_name = λ s i. "y";
  input_shape = λ s i. 2 ∷ 3 ∷ [];
  output_shape = λ s i. 1 ∷ [];
  input_type = λ s i. 1;
  output_type = λ s i. 1;
  run = λ s inputs outputs. some output;
}

abbrev doubled : ℕ → ℕ
doubled zero = 1
doubled (suc n) = 2 * suc n

abbrev new_backend : (n : ℕ) → OnnxBackend (some_runtime n)
new_backend n = record { model_sessions = []; names = record { next = 0; live = [] }; freed = [] }

abbrev request : InferRequest
request = record { model_name = "model.onnx"; bytes = 0 ∷ 0 ∷ 128 ∷ 63 ∷ []; shape = 2 ∷ 3 ∷ [] }

infer-several_inputs_example :
    (model_load (some_runtime 2) doubled "model.onnx" "1" (new_backend 2) ≡ undefined)
    ⊎ ((b' : OnnxBackend (some_runtime 2)) × (model_load
            (some_runtime 2)
            doubled
            "model.onnx"
            "1"
            (new_backend 2)
          ≡ returns (b', true))
        × (infer (some_runtime 2) doubled request b' ≡ undefined))
infer-several_inputs_example =
    infer-several_inputs (some_runtime 2) doubled request "1" (new_backend 2) 2 refl refl refl refl
      (omega arith)

infer-loaded_example :
    (b' : OnnxBackend (some_runtime 1)) × (model_load
        (some_runtime 1)
        doubled
        "model.onnx"
        "1"
        (new_backend 1)
      ≡ returns (b', true))
    × (infer (some_runtime 1) doubled request b'
        ≡ returns (
          record b' { freed = 7 ∷ b'.freed },
          record { tensors = the_tensor (some_runtime 1) doubled 1 output; model_name = "" },
        ))
infer-loaded_example =
    infer-loaded (some_runtime 1) doubled request "1" (new_backend 1) 1 output refl refl refl refl
      (omega arith) (omega arith) refl
