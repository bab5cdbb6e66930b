-- ===== src/Engine/Several.antt =====
-- A model with several inputs, in `onnx_backend` (tie_engine/src/onnx_backend).
use tiny_inference_engine.Base.{
  ℕ, zero, suc, ◌<◌, ◌≤◌, ◌≡◌, ◌⊎◌, inl, inr, refl, ◌∙◌, ap, String, true, Option, none, some, List,
  ◌∷◌, ◌>>=◌, arith, ==_refl, Option-cases,
}
use tiny_inference_engine.Base.Table.{find, find-erase}
use tiny_inference_engine.Engine.{InferRequest}
use tiny_inference_engine.Engine.Runtime.{Runtime}
use tiny_inference_engine.Engine.Names.{Names, ModelInfo, Infos, no_infos}
use tiny_inference_engine.Engine.Onnx.{
  returns, undefined, lookup, SessionInfo, OnnxBackend, read_infos, input_data, load_session,
  model_load, infer_with, infer,
}
use tiny_inference_engine.Engine.Loading.{
  read_infos-gone, read_infos-two, read_infos-three, two_infos, two_names,
}
use tiny_inference_engine.Engine.Models.{with_model, model_load-opened, infer-model}

several : (n : ℕ) → 2 ≤ n → (n ≡ 2) ⊎ ((m : ℕ) × (n ≡ suc (suc (suc m))))
several zero many = absurd (omega (arith, many))
several (suc zero) many = absurd (omega (arith, many))
several (suc (suc zero)) many = inl refl
several (suc (suc (suc m))) many = inr (m, refl)

module _ (ort : Runtime) (grow : ℕ → ℕ) where
  input_infos : ort.Session → ℕ → ℕ → Infos → Names → Option (Infos × Names)
  input_infos s = read_infos grow (ort.input_name s) (ort.input_shape s) (ort.input_type s)

  output_infos : ort.Session → Names → Option (Infos × Names)
  output_infos s =
      read_infos grow (ort.output_name s) (ort.output_shape s) (ort.output_type s)
        (ort.output_count s) 0 no_infos

  -- The session's entry, once its inputs have been read.
  with_outputs : ort.Session → Infos × Names → Option (SessionInfo ort × Names)
  with_outputs s r =
      output_infos s r.1 >>= λ r'. some (record { inputs = r.0; outputs = r'.0; session = s }, r'.1)

  with_outputs-read :
      (s : ort.Session) (r : Infos × Names) (o : Option (Infos × Names))
      → output_infos s r.1 ≡ o
      → with_outputs s r
        ≡ (o >>= λ r'. some (record { inputs = r.0; outputs = r'.0; session = s }, r'.1))
  unfolding with_outputs
  with_outputs-read s r o e =
      ap (λ x. x >>= λ r'. some (record { inputs = r.0; outputs = r'.0; session = s }, r'.1)) e

  output_infos-gone :
      (s : ort.Session) (h h' : Names) (outputs : Infos) (p : ℕ)
      → output_infos s h ≡ some (outputs, h')
      → p < h.next
      → find p h.live ≡ none
      → find p h'.live ≡ none
  unfolding output_infos
  output_infos-gone s h h' outputs p e lt gone =
      read_infos-gone grow (ort.output_name s) (ort.output_shape s) (ort.output_type s)
        (ort.output_count s) 0 no_infos outputs p h h' e lt gone

  load_session-read :
      (s : ort.Session) (h : Names) (o : Option (Infos × Names))
      → input_infos s (ort.input_count s) 0 no_infos h ≡ o
      → load_session ort grow s h ≡ (o >>= with_outputs s)
  unfolding load_session input_infos with_outputs output_infos
  load_session-read s h o e = ap (λ x. x >>= with_outputs s) e

  -- The inputs of a session with two inputs, and the names after they were read.
  abbrev both : ort.Session → Names → Infos × Names
  both s h = (
    two_infos grow (ort.input_name s) (ort.input_shape s) (ort.input_type s) h,
    two_names grow (ort.input_name s) (ort.input_shape s) (ort.input_type s) h,
  )

  load_session-two :
      (s : ort.Session) (h : Names)
      → grow 0 ≡ 1
      → grow 1 ≡ 2
      → ort.input_count s ≡ 2
      → load_session ort grow s h ≡ with_outputs s (both s h)
  unfolding read_infos input_infos
  load_session-two s h first second two = load_session-read s h (some (both s h)) (
      rw two (
        read_infos-two grow (ort.input_name s) (ort.input_shape s) (ort.input_type s) 0 h first
          second))

  load_session-many :
      (s : ort.Session) (n : ℕ) (h : Names)
      → grow 0 ≡ 1
      → grow 1 ≡ 2
      → ort.input_count s ≡ suc (suc (suc n))
      → load_session ort grow s h ≡ none
  unfolding input_infos
  load_session-many s n h first second many = load_session-read s h none (
      rw many (
        read_infos-three grow (ort.input_name s) (ort.input_shape s) (ort.input_type s) n h first
          second))

  input_data-lost :
      (h : Names) (bytes : List ℕ) (i : ModelInfo) (is : List ModelInfo)
      → find i.name h.live ≡ none
      → input_data h bytes (i ∷ is) ≡ none
  unfolding input_data
  input_data-lost h bytes i is lost = rw (input_data, lost) refl

  infer_with-lost :
      (info : SessionInfo ort) (request : InferRequest) (b : OnnxBackend ort)
      → input_data b.names request.bytes info.inputs.items ≡ none
      → infer_with ort grow info request b ≡ undefined
  unfolding infer_with
  infer_with-lost info request b lost = rw (infer_with, lost) refl

  -- The vector of `model_info` copies the pointers to the names when it grows, and frees the names: a model
  -- with two or more inputs cannot be used. To load it has no defined effect, or its inference has none;
  -- where a vector grows from no element to one and then to two.
  pub infer-several_inputs :
      (request : InferRequest) (model_version : String) (b : OnnxBackend ort) (s : ort.Session)
      → grow 0 ≡ 1
      → grow 1 ≡ 2
      → lookup request.model_name b.model_sessions ≡ none
      → ort.open_session request.model_name ≡ some s
      → 2 ≤ ort.input_count s
      → (model_load ort grow request.model_name model_version b ≡ undefined)
        ⊎ ((b' : OnnxBackend ort) × (model_load ort grow request.model_name model_version b
              ≡ returns (b', true))
            × (infer ort grow request b' ≡ undefined))
  infer-several_inputs request model_version b s first second absent opened many =
      let load = model_load-opened ort grow request.model_name model_version b s in
      elim (several (ort.input_count s) many) [
        | inr (n, more) ↦
            inl (load none absent opened (load_session-many s n b.names first second more))
        | inl two ↦
            let loads = load_session-two s b.names first second two in
            elim (Option-cases (output_infos s (both s b.names).1)) [
              | inl lost ↦
                  inl (
                    load none absent opened
                      (loads ∙ with_outputs-read s (both s b.names) none lost))
              | inr ((outputs, names), read) ↦
                  let info : SessionInfo ort = record {
                    inputs = (both s b.names).0;
                    outputs = outputs;
                    session = s;
                  } in
                  inr (
                    with_model ort grow request.model_name info names b,
                    load (some (info, names)) absent opened
                        (loads ∙ with_outputs-read s (both s b.names) (some (outputs, names)) read),
                    infer-model ort grow request info names b absent
                        ∙ infer_with-lost info request _ (
                            input_data-lost names request.bytes _ _ (
                              output_infos-gone s (both s b.names).1 names outputs b.names.next read
                                (omega arith) (rw (find-erase, ==_refl b.names.next) refl))),
                  )
            ]
      ]
