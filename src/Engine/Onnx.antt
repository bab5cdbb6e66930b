-- ===== src/Engine/Onnx.antt =====
-- `onnx_backend` (tie_engine/src/onnx_backend/onnx_backend.cpp and .hpp).
--
-- The file is not part of the build, and does not compile: where a model is loaded already, `model_load`
-- has a `continue` outside a loop. That branch is `undefined` here, as is a use of memory that was freed and
-- the overflow of an `int64_t`.
-- The library ONNX Runtime and the growth of a vector are parameters.
use tiny_inference_engine.Base.{
  ℕ, zero, suc, ◌+◌, ◌*◌, ◌%◌, ◌^◌, String, Bool, true, Option, none, some, List, [], ◌∷◌, ◌++◌,
  ◌>>=◌, if◌then◌else◌, not, ltb, ◌-◌, false,
}
use tiny_inference_engine.Base.Table.{find}
use tiny_inference_engine.Engine.{
  InferRequest, InferResponse, TensorInfo, dt_float_dt, ModelMetadata, no_members, no_response,
}
use tiny_inference_engine.Engine.Runtime.{Runtime, InputTensor, OutputTensor}
use tiny_inference_engine.Engine.Names.{Names, ModelInfo, Infos, no_infos, allocate, emplace_back}
use text.Mathlib.Text.{◌==◌ as str_eq}

-- A call of the backend: it returns, leaves by an exception of the runtime, or has no defined effect.
pub data Outcome {ℓ} (A : Type ℓ) : Type ℓ where
  returns : A → Outcome A
  throws undefined : Outcome A

-- The associations of a `std::map`; their order is not kept.
abbrev pub lookup {ℓ} : {V : Type ℓ} → String → List (String × V) → Option V
lookup k [] = none
lookup k ((j, v) ∷ m) = if str_eq j k then some v else lookup k m

-- `emplace` leaves an entry of the same key.
abbrev pub emplace {ℓ} : {V : Type ℓ} → String → V → List (String × V) → List (String × V)
emplace k v m = elim (lookup k m) [ none ↦ (k, v) ∷ m | some u ↦ m ]

module _ (ort : Runtime) where
  pub record SessionInfo : Type 0 where
    pub inputs : Infos
    pub outputs : Infos
    pub session : ort.Session

  -- The members that change, with the allocator's blocks, and the buffers of outputs that were freed.
  pub record OnnxBackend : Type 0 where
    pub model_sessions : List (String × SessionInfo)
    pub names : Names
    pub freed : List ℕ

-- The loop over the inputs or the outputs of a session, from an index on: so many are left.
unfoldable pub read_infos :
    (ℕ → ℕ) → (ℕ → String) → (ℕ → List ℕ) → (ℕ → ℕ) → ℕ → ℕ → Infos → Names → Option (Infos × Names)
read_infos grow name shape type zero idx v h = some (v, h)
read_infos grow name shape type (suc left) idx v h =
    let (p, h1) = allocate (name idx) h in
    emplace_back grow (record { name = p; shape = shape idx; type = type idx }) v h1 >>= λ r.
    read_infos grow name shape type left (idx + 1) r.0 r.1

abbrev xor : Bool → Bool → Bool
xor true b = not b
xor false b = b

-- The sign and the magnitude of an `int64_t`, which is given by its bits.
abbrev pub is_negative : ℕ → Bool
is_negative x = not (ltb x (2 ^ 63))

abbrev pub magnitude : ℕ → ℕ
magnitude x = if ltb x (2 ^ 63) then x else 2 ^ 64 - x

-- The product of two `int64_t`, by its bits; `none`: it overflows, which has no defined effect.
unfoldable pub mul_int64 : ℕ → ℕ → Option ℕ
mul_int64 x y =
    let p = magnitude x * magnitude y in
    if xor (is_negative x) (is_negative y)
    then if ltb (2 ^ 63) p then none else some ((2 ^ 64 - p) % 2 ^ 64)
    else if ltb p (2 ^ 63)
    then some p
    else none

-- `vector_product`
unfoldable pub vector_product : ℕ → List ℕ → Option ℕ
unfolding mul_int64
vector_product acc [] = some acc
vector_product acc (x ∷ xs) = mul_int64 acc x >>= λ p. vector_product p xs

-- `4 * input_tensor_size`, which becomes a `size_t` with the same bits.
unfoldable pub byte_count_of : List ℕ → Option ℕ
unfolding vector_product mul_int64
byte_count_of shape = vector_product 1 shape >>= mul_int64 4

-- `input_names` and `input_data`, as `Run` reads them. `none`: a name was freed, or a size overflows.
unfoldable pub input_data : Names → List ℕ → List ModelInfo → Option (List (String × InputTensor))
unfolding byte_count_of
input_data h bytes [] = some []
input_data h bytes (i ∷ is) =
    let rest = input_data h bytes is in
    find i.name h.live >>= λ text.
    (byte_count_of i.shape >>= λ size.
    (rest >>= λ ts.
    some
      ((text, record { bytes = bytes; byte_count = size; shape = i.shape; type = i.type }) ∷ ts)))

unfoldable pub output_names : Names → List ModelInfo → Option (List String)
output_names h [] = some []
output_names h (i ∷ is) =
    let rest = output_names h is in find i.name h.live >>= λ text. (rest >>= λ ts. some (text ∷ ts))

-- The loop that fills `response.tensors`, from an index on.
unfoldable pub add_tensors :
    (ℕ → OutputTensor) → ℕ → List String → List (String × TensorInfo) → List (String × TensorInfo)
add_tensors out idx [] m = m
add_tensors out idx (n ∷ ns) m = add_tensors out (idx + 1) ns (
    emplace n
      (record {
        address = (out idx).address;
        count = (out idx).element_count;
        shape = (out idx).shape;
        datatype = dt_float_dt;
      })
      m)

-- The buffers that the destructor of `output_data` frees.
unfoldable pub buffers : (ℕ → OutputTensor) → ℕ → List String → List ℕ
buffers out idx [] = []
buffers out idx (n ∷ ns) = (out idx).address ∷ buffers out (idx + 1) ns

module _ (ort : Runtime) (grow : ℕ → ℕ) where
  unfoldable pub load_session : ort.Session → Names → Option (SessionInfo ort × Names)
  load_session s h =
      read_infos grow (ort.input_name s) (ort.input_shape s) (ort.input_type s) (ort.input_count s)
        0 no_infos h
      >>= λ r.
          (read_infos grow (ort.output_name s) (ort.output_shape s) (ort.output_type s)
              (ort.output_count s) 0 no_infos r.1
            >>= λ r'. some (record { inputs = r.0; outputs = r'.0; session = s }, r'.1))

  abbrev is_model_ready : String → String → OnnxBackend ort → Bool
  is_model_ready model_name model_version b = true

  unfoldable pub model_load : String → String → OnnxBackend ort → Outcome (OnnxBackend ort × Bool)
  unfolding load_session
  model_load model_name model_version b = elim (lookup model_name b.model_sessions) [
    | some info ↦ undefined
    | none ↦ elim (ort.open_session model_name) [
      | none ↦ throws
      | some s ↦ elim (load_session s b.names) [
        | none ↦ undefined
        | some (info, names) ↦ returns (
          record b { model_sessions = emplace model_name info b.model_sessions; names = names },
          true,
        )
      ]
    ]
  ]

  abbrev model_unload : String → String → OnnxBackend ort → OnnxBackend ort × Bool
  model_unload model_name model_version b = (b, true)

  abbrev model_metadata : String → String → OnnxBackend ort → OnnxBackend ort × ModelMetadata
  model_metadata model_name model_version b = (b, no_members)

  -- `infer` for a model that is loaded.
  unfoldable pub infer_with :
      SessionInfo ort → InferRequest → OnnxBackend ort → Outcome (OnnxBackend ort × InferResponse)
  infer_with info request b = elim (input_data b.names request.bytes info.inputs.items) [
    | none ↦ undefined
    | some inputs ↦ elim (output_names b.names info.outputs.items) [
      | none ↦ undefined
      | some outputs ↦ elim (ort.run info.session inputs outputs) [
        | none ↦ throws
        | some out ↦ returns (
          record b { freed = buffers out 0 outputs ++ b.freed },
          record { tensors = add_tensors out 0 outputs []; model_name = "" },
        )
      ]
    ]
  ]

  unfoldable pub infer : InferRequest → OnnxBackend ort → Outcome (OnnxBackend ort × InferResponse)
  unfolding infer_with
  infer request b = elim (lookup request.model_name b.model_sessions) [
    | none ↦ returns (b, no_response)
    | some info ↦ infer_with info request b
  ]
