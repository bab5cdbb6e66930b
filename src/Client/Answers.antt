-- ===== src/Client/Answers.antt =====
-- What the client reports of a call.
use tiny_inference_engine.Base.{
  some, String, ◌≡◌, refl, true, false, List, [], ◌∷◌, ◌++◌, arith, append_assoc, append-nil, sym,
  ◌∙◌, ap,
}
use tiny_inference_engine.Engine.{
  EngineInterface, NullState, create_engine, create_backend, engine_over, null_backend,
}
use tiny_inference_engine.Messages.{Kind, RequestOf, ModelListResponse, default_response, no_fields}
use tiny_inference_engine.Rpc.Process.{process_request, server_name, server_version, add_models}
use tiny_inference_engine.Client.CallResult.{is_ok, ok_result, error_result}
use tiny_inference_engine.Client.Api.{no_server_metadata, no_model_metadata}
use tiny_inference_engine.Client.Grpc.{
  Stub, is_server_live, is_server_ready, server_metadata, is_model_ready, model_list, model_load,
  model_unload, model_metadata,
}
use tiny_inference_engine.Client.Loopback.{loopback}

module _ {W : Type 0} (stub : Stub W) (n v : String) (w : W) where
  -- The result of each of the client's eight calls is OK exactly if the status of its RPC is.
  pub is_ok-status :
      (is_ok (is_server_live stub w).1 ≡ (stub.call Kind.server_live no_fields w).1.ok)
      × (is_ok (is_server_ready stub w).1 ≡ (stub.call Kind.server_ready no_fields w).1.ok)
      × (is_ok (server_metadata stub w).1 ≡ (stub.call Kind.server_metadata no_fields w).1.ok)
      × (is_ok (is_model_ready stub n v w).1
          ≡ (stub.call Kind.model_ready (record { name = n; version = v }) w).1.ok)
      × (is_ok (model_list stub w).1 ≡ (stub.call Kind.model_list no_fields w).1.ok)
      × (is_ok (model_load stub n v w).1 ≡ (stub.call Kind.model_load (record { name = n }) w).1.ok)
      × (is_ok (model_unload stub n v w).1
          ≡ (stub.call Kind.model_unload (record { name = n }) w).1.ok)
      × (is_ok (model_metadata stub n v w).1
          ≡ (stub.call Kind.model_metadata (record { name = n; version = v }) w).1.ok)
  unfolding is_ok is_server_live is_server_ready server_metadata is_model_ready model_list
      model_load model_unload model_metadata
  is_ok-status = (
    ground arith,
    ground arith,
    ground arith,
    ground arith,
    ground arith,
    ground arith,
    ground arith,
    ground arith,
  )

  -- Where every RPC fails, each of the client's eight calls reports the unknown error with false, an
  -- empty list or empty metadata, and changes the world as its RPC did.
  pub failed_calls :
      ((k : Kind) (r : RequestOf k) → (stub.call k r w).1.ok ≡ false)
      → (is_server_live stub w ≡ ((stub.call Kind.server_live no_fields w).0, error_result, false))
        × (is_server_ready stub w
            ≡ ((stub.call Kind.server_ready no_fields w).0, error_result, false))
        × (server_metadata stub w
            ≡ ((stub.call Kind.server_metadata no_fields w).0, error_result, no_server_metadata))
        × (is_model_ready stub n v w ≡ (
          (stub.call Kind.model_ready (record { name = n; version = v }) w).0,
          error_result,
          false,
        ))
        × (model_list stub w ≡ ((stub.call Kind.model_list no_fields w).0, error_result, []))
        × (model_load stub n v w
            ≡ ((stub.call Kind.model_load (record { name = n }) w).0, error_result, false))
        × (model_unload stub n v w
            ≡ ((stub.call Kind.model_unload (record { name = n }) w).0, error_result, false))
        × (model_metadata stub n v w ≡ (
          (stub.call Kind.model_metadata (record { name = n; version = v }) w).0,
          error_result,
          no_model_metadata,
        ))
  unfolding is_server_live is_server_ready server_metadata is_model_ready model_list model_load
      model_unload model_metadata
  failed_calls f = (
    rw (f Kind.server_live no_fields),
    rw (f Kind.server_ready no_fields),
    rw (f Kind.server_metadata no_fields),
    rw (f Kind.model_ready (record { name = n; version = v })),
    rw (f Kind.model_list no_fields),
    rw (f Kind.model_load (record { name = n })),
    rw (f Kind.model_unload (record { name = n })),
    rw (f Kind.model_metadata (record { name = n; version = v })),
  )

module _ {S : Type 0} (engine : EngineInterface S) where
  models-add_models :
      (ms : List String) (r : ModelListResponse) → (add_models ms r).models ≡ r.models ++ ms
  unfolding add_models
  models-add_models [] r = sym (append-nil r.models)
  models-add_models (m ∷ ms) r =
      models-add_models ms (record r { models = r.models ++ m ∷ [] })
      ∙ append_assoc r.models (m ∷ []) ms

  -- The client's queries report what the server and its engine say: the server is live, it is ready if
  -- its engine is, its name and version are those of the build, a model is ready if the engine says so of
  -- that name and version, and the model list is the engine's, in the engine's order. None changes the
  -- engine's state.
  pub query_answers :
      (n v : String) (s : S)
      → (is_server_live (loopback engine) s ≡ (s, ok_result, true))
        × (is_server_ready (loopback engine) s ≡ (s, ok_result, engine.is_engine_ready s))
        × (server_metadata (loopback engine) s ≡ (
          s,
          ok_result,
          record {
            server_name = server_name;
            server_version = server_version;
            server_extensions = [];
          },
        ))
        × (is_model_ready (loopback engine) n v s ≡ (s, ok_result, engine.is_model_ready n v s))
        × (model_list (loopback engine) s ≡ (s, ok_result, engine.model_list s))
  unfolding is_server_live is_server_ready server_metadata is_model_ready model_list process_request
      default_response
  query_answers n v s = (
    refl,
    refl,
    refl,
    refl,
    ap (λ ms. (s, ok_result, ms))
        (models-add_models (engine.model_list s) (record { models = [] })),
  )

  -- The client's load and unload reach the engine with the model's name and an empty version, whatever
  -- version the caller names, and report success whatever the engine answers.
  pub load_answers :
      (n v : String) (s : S)
      → (model_load (loopback engine) n v s ≡ ((engine.model_load n "" s).0, ok_result, true))
        × (model_unload (loopback engine) n v s ≡ ((engine.model_unload n "" s).0, ok_result, true))
  unfolding model_load model_unload process_request default_response
  load_answers n v s = (refl, refl)

  -- The client's metadata query reaches the engine with name and version, and reports empty metadata
  -- whatever the engine answers.
  pub metadata_answers :
      (n v : String) (s : S)
      → model_metadata (loopback engine) n v s
        ≡ ((engine.model_metadata n v s).0, ok_result, no_model_metadata)
  unfolding model_metadata process_request default_response
  metadata_answers n v s = refl

  -- The client's load and unload reach the engine with the model's name and an empty version, whatever
  -- version the caller names, and report success whatever the engine answers; its metadata query reaches
  -- the engine with name and version, and reports empty metadata whatever the engine answers.
  pub engine_answers :
      (n v : String) (s : S)
      → (model_load (loopback engine) n v s ≡ ((engine.model_load n "" s).0, ok_result, true))
        × (model_unload (loopback engine) n v s ≡ ((engine.model_unload n "" s).0, ok_result, true))
        × (model_metadata (loopback engine) n v s
            ≡ ((engine.model_metadata n v s).0, ok_result, no_model_metadata))
  engine_answers n v s =
      let (load, unload) = load_answers n v s in (load, unload, metadata_answers n v s)

-- The server's factory gives an engine; through it the client is told that the server is
-- ready, that every model of every version is ready and can be loaded and unloaded, and that there is no
-- model.
pub created_answers :
    (n v : String) (s : NullState)
    → (engine : EngineInterface NullState) × (create_engine ≡ some engine)
      × (is_server_ready (loopback engine) s ≡ (s, ok_result, true))
      × (is_model_ready (loopback engine) n v s ≡ (s, ok_result, true))
      × (model_load (loopback engine) n v s ≡ (s, ok_result, true))
      × (model_unload (loopback engine) n v s ≡ (s, ok_result, true))
      × (model_list (loopback engine) s ≡ (s, ok_result, []))
unfolding create_engine create_backend engine_over null_backend
created_answers n v s =
    let engine = engine_over null_backend in
    let (_, ready, _, model, list) = query_answers engine n v s in
    let (load, unload) = load_answers engine n v s in
    (engine, refl, ready, model, load, unload, list)
