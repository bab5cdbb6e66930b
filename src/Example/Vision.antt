-- ===== src/Example/Vision.antt =====
-- The image of client_example_simple_inference.cpp (tiny_inference_client/examples/src) and the request
-- that it becomes.
--
-- OpenCV is a parameter: what the program uses of `cv::Mat`, with `none` or `false` for a call that
-- throws.
use tiny_inference_engine.Base.{
  ℕ, ◌*◌, ◌≡◌, String, Bool, Option, none, some, List, [], ◌∷◌, length, ◌>>=◌, if◌then◌else◌,
}
use tiny_inference_engine.Client.DataType.{fp32}
use tiny_inference_engine.Client.Api.{InferRequest, add_input_tensor, block}
use tiny_inference_engine.Client.Memory.{encode}
use tiny_inference_engine.Client.Writes.{Fit}

pub record Vision (Mat : Type 0) : Type 0 where
  pub imread : String → Mat
  pub imshow : Mat → Bool
  pub resize : Mat → ℕ → ℕ → Option Mat
  -- COLOR_BGR2RGB
  pub cvt_color : Mat → Option Mat
  -- to CV_32F, scaled by 1 / 255
  pub convert_to : Mat → Mat
  pub cols : Mat → ℕ
  pub rows : Mat → ℕ
  pub channels : Mat → ℕ
  -- The bytes at `data`.
  pub data_bytes : Mat → List ℕ

-- What OpenCV's documentation says of these calls: the size after `resize` is the one asked for; the
-- conversion to RGB keeps the size and makes three channels; the conversion to CV_32F keeps both and
-- makes one 32-bit number of each channel of each pixel, one behind the other.
pub record VisionLaws {Mat : Type 0} (cv : Vision Mat) : Type 0 where
  pub resized : (m n : Mat) (c r : ℕ) → cv.resize m c r ≡ some n → (cv.cols n ≡ c) × (cv.rows n ≡ r)
  pub coloured :
      (m n : Mat)
      → cv.cvt_color m ≡ some n
      → (cv.cols n ≡ cv.cols m) × (cv.rows n ≡ cv.rows m) × (cv.channels n ≡ 3)
  pub kept :
      (m : Mat)
      → (cv.cols (cv.convert_to m) ≡ cv.cols m)
        × (cv.rows (cv.convert_to m) ≡ cv.rows m)
        × (cv.channels (cv.convert_to m) ≡ cv.channels m)
  pub numbers :
      (m : Mat)
      → (values : List ℕ) × (cv.data_bytes (cv.convert_to m) ≡ encode 4 values)
        × Fit 4 values
        × (length values ≡ cv.cols m * (cv.rows m * cv.channels m))

module _ {Mat : Type 0} (cv : Vision Mat) where
  unfoldable pub shown : Mat → Option Mat
  shown image = if cv.imshow image then some image else none

  -- From `imread` to the second `imshow`.
  unfoldable pub prepared : Option Mat
  unfolding shown
  prepared = shown (cv.imread "images/dog.jpg") >>= λ image.
      cv.resize image 224 224 >>= λ small. cv.cvt_color small >>= λ rgb. shown (cv.convert_to rgb)

-- An `infer_request` as it is made.
abbrev pub no_request : InferRequest
no_request = record {
  model_name = "";
  model_version = "";
  id = "";
  input_tensors = [];
  output_tensors = [];
}

module _ {Mat : Type 0} (cv : Vision Mat) where
  -- The request for an image whose data are in this block.
  unfoldable pub image_request : Mat → ℕ → InferRequest
  image_request image b =
      add_input_tensor (block b) (cv.cols image ∷ cv.rows image ∷ cv.channels image ∷ []) fp32
        "squeezenet0_flatten0_reshape0"
        (record no_request { model_name = "models/squeezenet1.1-7.onnx"; model_version = "" })
