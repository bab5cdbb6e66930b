-- ===== src/Example/Image.antt =====
-- client_example_simple_inference.cpp and client_example_model_infer.cpp
-- (tiny_inference_client/examples/src).
--
-- The programs catch no exception: `thrown` is their end by one, with the lines before it left out.
use tiny_inference_engine.Base.{
  ℕ, String, ◌≡◌, refl, none, some, List, [], ◌∷◌, ◌++◌, if◌then◌else◌,
}
use tiny_inference_engine.Client.CallResult.{is_ok}
use tiny_inference_engine.Client.Interface.{ClientInterface, create_client}
use tiny_inference_engine.Client.Contents.{Field}
use tiny_inference_engine.Client.Writer.{Outcome, done, thrown, ◌>>=◌}
use tiny_inference_engine.Client.Reader.{Heap, allocate}
use tiny_inference_engine.Client.Loopback.{loopback}
use tiny_inference_engine.Client.Inference.{infer-loopback}
use tiny_inference_engine.Engine.{EngineInterface}
use tiny_inference_engine.Example.Client.{Line, says, says_count, report}
use tiny_inference_engine.Example.Vision.{Vision, prepared, no_request, image_request}

module _ {W : Type 0} (factory : String → ClientInterface W) where
  abbrev client : ClientInterface W
  client = factory "localhost:50051"

  -- `main` of client_example_simple_inference.cpp from the request on. EXIT_FAILURE is 1.
  unfoldable pub infer_image :
      {Mat : Type 0} → Vision Mat → Mat → Heap → W → Outcome (W × List Line × ℕ)
  infer_image cv image h w =
      let request = image_request cv image h.next in
      let (w1, _, _) = client.model_load request.model_name request.model_version w in
      client.infer request (allocate (cv.data_bytes image) h) w1 >>= λ (w2, call_result, _, _).
      done (
        w2,
        says "Running client_example_simple_inference"
            ∷ (if is_ok call_result then [] else says "Unable to perform inference" ∷ []),
        if is_ok call_result then 0 else 1,
      )

  unfoldable pub simple_inference :
      {Mat : Type 0} → Vision Mat → Heap → W → Outcome (W × List Line × ℕ)
  simple_inference cv h w = elim (prepared cv) [
    | none ↦ thrown
    | some image ↦ infer_image cv image h w
  ]

  -- `main` of client_example_model_infer.cpp, whose one worker is joined.
  unfoldable pub model_infer : Heap → W → Outcome (W × List Line × ℕ)
  model_infer h w = client.infer no_request h w >>= λ (w', call_result, _, _). done (
    w',
    says "Running client_example_model_infer"
          ∷ says_count "start infer {}" 0
          ∷ report call_result (says "infer OK" ∷ []) "infer ERROR"
        ++ says "Example client_example_model_infer finished" ∷ [],
    0,
  )

-- Against the server's handlers, the program's one inference call, with an empty request, is reported as
-- OK, and the engine is as before.
model_infer-loopback :
    {S : Type 0} (engine : EngineInterface S) (fuel : ℕ) (objects : ℕ → Field → List ℕ) (h : Heap)
    (s : S)
    → model_infer (create_client (λ uri. loopback engine) fuel objects) h s
      ≡ done (
        s,
        says "Running client_example_model_infer"
            ∷ says_count "start infer {}" 0
            ∷ says "infer OK"
            ∷ says "Example client_example_model_infer finished"
            ∷ [],
        0,
      )
unfolding model_infer report is_ok
model_infer-loopback engine fuel objects h s =
    rw (infer-loopback engine fuel objects [] no_request h s tt refl) refl
