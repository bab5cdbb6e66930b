-- ===== src/Engine/Models.antt =====
-- What becomes of a model that is loaded into `onnx_backend` (tie_engine/src/onnx_backend).
use text.Mathlib.TextEquality.{eq_iff}
use tiny_inference_engine.Base.{
  ℕ, zero, suc, ◌≤◌, lt→ltb, ◌<◌, ◌+◌, ◌*◌, ◌^◌, ◌≡◌, refl, ◌∙◌, ap, String, true, false, Option,
  none, some, List, [], ◌∷◌, arith, ◌==◌, ==_refl,
}
use tiny_inference_engine.Base.Table.{find, assign, find-assign}
use tiny_inference_engine.Engine.{InferRequest, TensorInfo, dt_float_dt}
use native.Mathlib.Nat.{le-mul_of_pos_right, mul_assoc, mul_comm}
use tiny_inference_engine.Base.Product.{product}
use tiny_inference_engine.Engine.Runtime.{Runtime, InputTensor, OutputTensor}
use tiny_inference_engine.Engine.Names.{Names, Infos, allocate, emplace_back, destroy}
use tiny_inference_engine.Engine.Onnx.{
  returns, undefined, lookup, emplace, SessionInfo, OnnxBackend, read_infos, vector_product,
  mul_int64, byte_count_of, input_data, output_names, add_tensors, buffers, load_session,
  model_load, infer_with, infer,
}

mul_int64-small :
    (x y : ℕ) → x < 2 ^ 63 → y < 2 ^ 63 → x * y < 2 ^ 63 → mul_int64 x y ≡ some (x * y)
unfolding mul_int64
mul_int64-small x y lx ly lt =
    rw (lt→ltb x (2 ^ 63) lx, lt→ltb y (2 ^ 63) ly, lt→ltb (x * y) (2 ^ 63) lt) refl

positive_left : (x y : ℕ) → 0 < x * y → 0 < x
positive_left zero y pos = absurd (omega (arith, pos))
positive_left (suc x) y pos = omega arith

positive_right : (x y : ℕ) → 0 < x * y → 0 < y
positive_right x zero pos = absurd (omega (arith, pos))
positive_right x (suc y) pos = omega arith

vector_product-product :
    (acc : ℕ) (xs : List ℕ)
    → 0 < acc * product xs
    → acc * product xs < 2 ^ 63
    → vector_product acc xs ≡ some (acc * product xs)
unfolding vector_product
vector_product-product acc [] pos small = ap some (omega arith)
vector_product-product acc (x ∷ xs) pos small =
    let regroup : acc * x * product xs ≡ acc * (x * product xs) = mul_assoc acc x (product xs) in
    let pos1 : 0 < acc * x * product xs = rw regroup pos in
    let small1 : acc * x * product xs < 2 ^ 63 = rw regroup small in
    let rest = le-mul_of_pos_right (acc * x) (positive_right (acc * x) (product xs) pos1) in
    let both = positive_left (acc * x) (product xs) pos1 in
    let left = le-mul_of_pos_right acc (positive_right acc x both) in
    let right : x ≤ acc * x =
      rw (mul_comm acc x) (le-mul_of_pos_right x (positive_left acc x both)) in
    let step : mul_int64 acc x ≡ some (acc * x) =
      mul_int64-small acc x (omega (arith, left, rest, small1)) (omega (arith, right, rest, small1))
        (omega (arith, rest, small1)) in
    rw step (vector_product-product (acc * x) xs pos1 small1 ∙ ap some regroup)

byte_count_of-product :
    (shape : List ℕ)
    → 0 < product shape
    → 4 * product shape < 2 ^ 63
    → byte_count_of shape ≡ some (4 * product shape)
unfolding byte_count_of
byte_count_of-product shape pos small =
    let whole : vector_product 1 shape ≡ some (1 * product shape) =
      vector_product-product 1 shape (omega (arith, pos)) (omega (arith, small)) in
    let one : 1 * product shape ≡ product shape = omega arith in
    rw (whole, one) (mul_int64-small 4 (product shape) (omega arith) (omega (arith, small)) small)

lookup-emplace :
    {V : Type 0} (k : String) (v : V) (m : List (String × V))
    → lookup k m ≡ none
    → lookup k (emplace k v m) ≡ some v
lookup-emplace k v m absent = rw (emplace, absent, lookup, (eq_iff k k).1 refl) refl

module _ (ort : Runtime) (grow : ℕ → ℕ) where
  -- The backend with a new model.
  abbrev pub with_model : String → SessionInfo ort → Names → OnnxBackend ort → OnnxBackend ort
  with_model model_name info names b = record b {
    model_sessions = emplace model_name info b.model_sessions;
    names = names;
  }

  pub model_load-opened :
      (model_name model_version : String) (b : OnnxBackend ort) (s : ort.Session)
      (o : Option (SessionInfo ort × Names))
      → lookup model_name b.model_sessions ≡ none
      → ort.open_session model_name ≡ some s
      → load_session ort grow s b.names ≡ o
      → model_load ort grow model_name model_version b ≡ elim o [
        | none ↦ undefined
        | some (info, names) ↦ returns (with_model model_name info names b, true)
      ]
  unfolding model_load
  model_load-opened model_name model_version b s o absent opened loaded =
      rw (model_load, absent, opened, loaded) refl

  pub infer-model :
      (request : InferRequest) (info : SessionInfo ort) (names : Names) (b : OnnxBackend ort)
      → lookup request.model_name b.model_sessions ≡ none
      → infer ort grow request (with_model request.model_name info names b)
        ≡ infer_with ort grow info request (with_model request.model_name info names b)
  unfolding infer
  infer-model request info names b absent =
      rw (infer, lookup-emplace request.model_name info b.model_sessions absent) refl

  -- The input that a model with one input is run with.
  abbrev pub the_input : ort.Session → List ℕ → List (String × InputTensor)
  the_input s bytes =
      (
        ort.input_name s 0,
        record {
          bytes = bytes;
          byte_count = 4 * product (ort.input_shape s 0);
          shape = ort.input_shape s 0;
          type = ort.input_type s 0;
        },
      )
      ∷ []

  -- The tensor of an answer with one output.
  abbrev pub the_tensor : ort.Session → (ℕ → OutputTensor) → List (String × TensorInfo)
  the_tensor s out =
      (
        ort.output_name s 0,
        record {
          address = (out 0).address;
          count = (out 0).element_count;
          shape = (out 0).shape;
          datatype = dt_float_dt;
        },
      )
      ∷ []

  abbrev one_info : ℕ → List ℕ → ℕ → Infos
  one_info p shape type = record {
    items = record { name = p; shape = shape; type = type } ∷ [];
    capacity = grow 0;
  }

  abbrev single : ort.Session → Names → SessionInfo ort
  single s h = record {
    inputs = one_info h.next (ort.input_shape s 0) (ort.input_type s 0);
    outputs = one_info (h.next + 1) (ort.output_shape s 0) (ort.output_type s 0);
    session = s;
  }

  abbrev single_names : ort.Session → Names → Names
  single_names s h = record {
    next = h.next + 1 + 1;
    live = assign (h.next + 1) (ort.output_name s 0) (assign h.next (ort.input_name s 0) h.live);
  }

  load_session-single :
      (s : ort.Session) (h : Names)
      → ort.input_count s ≡ 1
      → ort.output_count s ≡ 1
      → load_session ort grow s h ≡ some (single s h, single_names s h)
  unfolding load_session read_infos allocate emplace_back destroy
  load_session-single s h one_in one_out = rw (one_in, one_out) refl

  single-input_data :
      (s : ort.Session) (h : Names) (bytes : List ℕ)
      → 0 < product (ort.input_shape s 0)
      → 4 * product (ort.input_shape s 0) < 2 ^ 63
      → input_data (single_names s h) bytes (single s h).inputs.items ≡ some (the_input s bytes)
  unfolding input_data
  single-input_data s h bytes pos small =
      let apart : (h.next + 1 == h.next) ≡ false = ground arith in
      let named : find h.next (single_names s h).live ≡ some (ort.input_name s 0) =
        rw (find-assign, apart, find-assign, ==_refl h.next) refl in
      rw (input_data, named, byte_count_of-product (ort.input_shape s 0) pos small) refl

  single-output_names :
      (s : ort.Session) (h : Names)
      → output_names (single_names s h) (single s h).outputs.items ≡ some (ort.output_name s 0 ∷ [])
  unfolding output_names
  single-output_names s h =
      let named : find (h.next + 1) (single_names s h).live ≡ some (ort.output_name s 0) =
        rw (find-assign, ==_refl (h.next + 1)) refl in
      rw (output_names, named) refl

  infer_with-single :
      (request : InferRequest) (b : OnnxBackend ort) (s : ort.Session) (h : Names)
      (out : ℕ → OutputTensor)
      → 0 < product (ort.input_shape s 0)
      → 4 * product (ort.input_shape s 0) < 2 ^ 63
      → b.names ≡ single_names s h
      → ort.run s (the_input s request.bytes) (ort.output_name s 0 ∷ []) ≡ some out
      → infer_with ort grow (single s h) request b
        ≡ returns (
          record b { freed = (out 0).address ∷ b.freed },
          record { tensors = the_tensor s out; model_name = "" },
        )
  unfolding infer_with buffers add_tensors
  infer_with-single request b s h out pos small named ran =
      let ins = (single s h).inputs.items in
      let outs = (single s h).outputs.items in
      let inputs : input_data b.names request.bytes ins ≡ some (the_input s request.bytes) =
        ap (λ n. input_data n request.bytes ins) named
        ∙ single-input_data s h request.bytes pos small in
      let outputs : output_names b.names outs ≡ some (ort.output_name s 0 ∷ []) =
        ap (λ n. output_names n outs) named ∙ single-output_names s h in
      rw (infer_with, inputs, outputs, ran) refl

  -- A model with one input and one output that is loaded, where 4 times the product of the input's shape,
  -- of positive numbers, is below 2 ^ 63, is run with the bytes of the request, as many as that product
  -- times 4 whatever the element type; the answer has the output's tensor under its name, and points to a
  -- buffer that was freed when `infer` returned.
  pub infer-loaded :
      (request : InferRequest) (model_version : String) (b : OnnxBackend ort) (s : ort.Session)
      (out : ℕ → OutputTensor)
      → lookup request.model_name b.model_sessions ≡ none
      → ort.open_session request.model_name ≡ some s
      → ort.input_count s ≡ 1
      → ort.output_count s ≡ 1
      → 0 < product (ort.input_shape s 0)
      → 4 * product (ort.input_shape s 0) < 2 ^ 63
      → ort.run s (the_input s request.bytes) (ort.output_name s 0 ∷ []) ≡ some out
      → (b' : OnnxBackend ort) × (model_load ort grow request.model_name model_version b
          ≡ returns (b', true))
        × (infer ort grow request b'
            ≡ returns (
              record b' { freed = (out 0).address ∷ b'.freed },
              record { tensors = the_tensor s out; model_name = "" },
            ))
  infer-loaded request model_version b s out absent opened one_in one_out pos small ran =
      let b' = with_model request.model_name (single s b.names) (single_names s b.names) b in
      (
        b',
        model_load-opened request.model_name model_version b s _ absent opened
            (load_session-single s b.names one_in one_out),
        infer-model request (single s b.names) (single_names s b.names) b absent
            ∙ infer_with-single request b' s b.names out pos small refl ran,
      )
