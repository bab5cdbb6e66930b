-- ===== src/Example/Sending.antt =====
-- What client_example_simple_inference.cpp sends and what it answers with.
use tiny_inference_engine.Base.{
  ℕ, ◌<◌, ◌≡◌, refl, ap, sym, ◌∙◌, false, none, some, List, [], ◌∷◌, append-nil, length, map, arith,
  ==_refl, if◌then◌else◌, Option, ◌>>=◌,
}
use tiny_inference_engine.Base.Table.{find-assign}
use tiny_inference_engine.Messages.{Kind, RequestOf}
use tiny_inference_engine.Engine.{EngineInterface}
use tiny_inference_engine.Client.DataType.{fp32}
use tiny_inference_engine.Client.Api.{InferResponse, block, add_input_tensor}
use tiny_inference_engine.Client.CallResult.{CallResult, is_ok}
use tiny_inference_engine.Client.Grpc.{Stub, model_load}
use tiny_inference_engine.Client.Memory.{encode}
use tiny_inference_engine.Client.Writes.{Fit}
use tiny_inference_engine.Client.Contents.{Field, float, converted_as}
use tiny_inference_engine.Client.Writer.{done, thrown}
use tiny_inference_engine.Client.Reader.{Heap, allocate}
use tiny_inference_engine.Client.Requests.{Source, IsSound}
use tiny_inference_engine.Client.Infer.{infer}
use tiny_inference_engine.Client.Answers.{load_answers}
use tiny_inference_engine.Client.Interface.{create_client}
use tiny_inference_engine.Client.Loopback.{loopback}
use tiny_inference_engine.Client.Inference.{sent, infer-failed, infer-loopback}
use tiny_inference_engine.Example.Client.{says}
use tiny_inference_engine.Example.Vision.{Vision, VisionLaws, prepared, shown, image_request}
use tiny_inference_engine.Example.Image.{infer_image, simple_inference}

-- The image's numbers as the tensor that they become.
abbrev pub picture : ℕ → List ℕ → Source
picture b values = record {
  tensor = record {
    name = "squeezenet0_flatten0_reshape0";
    shape = 224 ∷ 224 ∷ 3 ∷ [];
    datatype = fp32;
    address = block b;
  };
  type = float;
  values = values;
}

-- An image that the program is done with preparing: 224 by 224 pixels of three numbers.
record IsPicture {Mat : Type 0} (cv : Vision Mat) (image : Mat) (values : List ℕ) : Type 0 where
  cols : cv.cols image ≡ 224
  rows : cv.rows image ≡ 224
  channels : cv.channels image ≡ 3
  bytes : cv.data_bytes image ≡ encode 4 values
  fit : Fit 4 values
  count : length values ≡ 150528

>>=-eq-some {ℓ κ} :
    {A : Type ℓ} {B : Type κ} (o : Option A) (f : A → Option B) {b : B}
    → (o >>= f) ≡ some b
    → (a : A) × (o ≡ some a) × (f a ≡ some b)
>>=-eq-some none f e = cc
>>=-eq-some (some a) f e = (a, refl, e)

module _ {Mat : Type 0} (cv : Vision Mat) where
  shown-same : (m n : Mat) → shown cv m ≡ some n → m ≡ n
  unfolding shown
  shown-same m n e = ground arith

  prepared-IsPicture :
      (image : Mat)
      → VisionLaws cv
      → prepared cv ≡ some image
      → (values : List ℕ) × IsPicture cv image values
  unfolding prepared
  prepared-IsPicture image laws e =
      let first = cv.imread "images/dog.jpg" in
      let (m0, _, e0) = >>=-eq-some (shown cv first) _ e in
      let (small, small_eq, e1) = >>=-eq-some (cv.resize m0 224 224) _ e0 in
      let (rgb, rgb_eq, e2) = >>=-eq-some (cv.cvt_color small) _ e1 in
      let same = shown-same (cv.convert_to rgb) image e2 in
      let (c0, r0) = laws.resized m0 small 224 224 small_eq in
      let (c1, r1, three) = laws.coloured small rgb rgb_eq in
      let (c2, r2, ch2) = laws.kept rgb in
      let (values, bytes, fit, count) = laws.numbers rgb in
      (
        values,
        record {
          cols = cc;
          rows = cc;
          channels = cc;
          bytes = cc;
          fit = fit;
          count = count ∙ rw (c1 ∙ c0, r1 ∙ r0, three) refl;
        },
      )

  -- The request carries the picture, which its block holds.
  picture-IsSound :
      (image : Mat) (values : List ℕ) (h : Heap)
      → IsPicture cv image values
      → IsSound (allocate (cv.data_bytes image) h).blocks (picture h.next values)
  unfolding converted_as allocate
  picture-IsSound image values h p = record {
    converted = refl;
    numeric = λ e. cc;
    at = h.next;
    rest = [];
    address = refl;
    laid_out =
        rw (find-assign h.next h.next (cv.data_bytes image) h.blocks, ==_refl h.next, p.bytes)
          (ap some (sym (append-nil (encode 4 values))));
    fit = p.fit;
    counted = sym p.count;
    small = omega (arith, p.count);
  }

  image_request-picture :
      (image : Mat) (values : List ℕ) (b : ℕ)
      → IsPicture cv image values
      → (image_request cv image b).input_tensors ≡ map (λ s. s.tensor) (picture b values ∷ [])
  unfolding image_request add_input_tensor
  image_request-picture image values b p = rw (p.cols, p.rows, p.channels) refl

module _ {W : Type 0} (stub : Stub W) (fuel : ℕ) (objects : ℕ → Field → List ℕ) {Mat : Type 0}
    (cv : Vision Mat) (image : Mat) (h : Heap) (w : W) where
  -- The program that has prepared an image ends as its inference call does.
  simple_inference-ran :
      (w' : W) (r : CallResult) (h' : Heap) (response : InferResponse)
      → prepared cv ≡ some image
      → let request = image_request cv image h.next in
        infer stub fuel objects request
            (allocate (cv.data_bytes image) h)
            (model_load stub "models/squeezenet1.1-7.onnx" "" w).0
          ≡ done (w', r, h', response)
        → simple_inference (create_client (λ uri. stub) fuel objects) cv h w
          ≡ done (
            w',
            says "Running client_example_simple_inference"
                ∷ (if is_ok r then [] else says "Unable to perform inference" ∷ []),
            if is_ok r then 0 else 1,
          )
  unfolding simple_inference infer_image image_request add_input_tensor
  simple_inference-ran w' r h' response e ran =
      ap
        (λ o. elim o [
          | none ↦ thrown
          | some m ↦ infer_image (create_client (λ uri. stub) fuel objects) cv m h w
        ])
        e
      ∙ rw (ran) refl

module _ {Mat : Type 0} (cv : Vision Mat) (image : Mat) (laws : VisionLaws cv) (fuel : ℕ)
    (objects : ℕ → Field → List ℕ) (h : Heap) where
  -- The example program whose inference RPC fails has loaded the model
  -- models/squeezenet1.1-7.onnx by name, sent 150528 numbers as one tensor of 224 by 224 by 3, which are
  -- the image's data, and ends with EXIT_FAILURE, if the image can be read, shown and prepared.
  pub simple_inference-fails :
      {W : Type 0} (stub : Stub W) (w : W)
      → prepared cv ≡ some image
      → 150528 < fuel
      → ((r : RequestOf Kind.model_infer) (w' : W) → (stub.call Kind.model_infer r w').1.ok ≡ false)
      → (values : List ℕ) × (cv.data_bytes image ≡ encode 4 values)
        × (length values ≡ 150528)
        × (let w1 = (model_load stub "models/squeezenet1.1-7.onnx" "" w).0 in
            simple_inference (create_client (λ uri. stub) fuel objects) cv h w
            ≡ done (
              (stub.call Kind.model_infer
                  (sent (image_request cv image h.next) (picture h.next values ∷ []))
                  w1).0,
              says "Running client_example_simple_inference"
                  ∷ says "Unable to perform inference"
                  ∷ [],
              1,
            ))
  unfolding is_ok
  simple_inference-fails stub w e enough fails =
      let (values, p) = prepared-IsPicture cv image laws e in
      let w1 = (model_load stub "models/squeezenet1.1-7.onnx" "" w).0 in
      let request = image_request cv image h.next in
      let ran =
        infer-failed stub fuel objects (picture h.next values ∷ []) request
          (allocate (cv.data_bytes image) h) w1
          (picture-IsSound cv image values h p, omega (arith, p.count), tt)
          (image_request-picture cv image values h.next p) (fails _ w1) in
      (values, p.bytes, p.count, simple_inference-ran stub fuel objects cv image h w _ _ _ _ e ran)

  -- Against the server's handlers, the example program ends with EXIT_SUCCESS and has changed the engine
  -- by the load of models/squeezenet1.1-7.onnx only, whatever the engine, which is not asked for an
  -- inference, if the image can be read, shown and prepared.
  pub simple_inference-loopback :
      {S : Type 0} (engine : EngineInterface S) (s : S)
      → prepared cv ≡ some image
      → 150528 < fuel
      → simple_inference (create_client (λ uri. loopback engine) fuel objects) cv h s
        ≡ done (
          (engine.model_load "models/squeezenet1.1-7.onnx" "" s).0,
          says "Running client_example_simple_inference" ∷ [],
          0,
        )
  unfolding is_ok
  simple_inference-loopback engine s e enough =
      let (values, p) = prepared-IsPicture cv image laws e in
      let s1 = (engine.model_load "models/squeezenet1.1-7.onnx" "" s).0 in
      let request = image_request cv image h.next in
      let ran =
        infer-loopback engine fuel objects (picture h.next values ∷ []) request
          (allocate (cv.data_bytes image) h) s1
          (picture-IsSound cv image values h p, omega (arith, p.count), tt)
          (image_request-picture cv image values h.next p) in
      simple_inference-ran (loopback engine) fuel objects cv image h s _ _ _ _ e (
        ap
          (λ r. infer (loopback engine) fuel objects request (allocate (cv.data_bytes image) h) r.0)
          (load_answers engine "models/squeezenet1.1-7.onnx" "" s).0
        ∙ ran)
