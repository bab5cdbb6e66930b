-- ===== src/Rpc/Classes.antt =====
-- The nine RPC classes (rpc/rpc_*.cpp) apart from `process_request`: the name that the constructor hands
-- to the base class, the method whose next call `setup_request` asks for, and the class of which
-- `create_rpc` makes an object. `write_response` is the same in all of them.
use tiny_inference_engine.Base.{◌≡◌, refl, String}
use tiny_inference_engine.Messages.{
  Kind, server_live, server_ready, server_metadata, model_list, model_load, model_metadata,
  model_ready, model_unload, model_infer,
}

pub record RpcClass : Type 0 where
  pub name : String
  pub listens : Kind
  pub creates : Kind

abbrev pub rpc_server_live : RpcClass
rpc_server_live = record { name = "rpc_server_live"; listens = server_live; creates = server_live }

abbrev pub rpc_server_ready : RpcClass
rpc_server_ready = record {
  name = "rpc_server_ready";
  listens = server_ready;
  creates = server_ready;
}

abbrev pub rpc_server_metadata : RpcClass
rpc_server_metadata = record {
  name = "rpc_server_metadata";
  listens = server_metadata;
  creates = server_metadata;
}

abbrev pub rpc_model_list : RpcClass
rpc_model_list = record { name = "rpc_model_list"; listens = model_list; creates = model_list }

abbrev pub rpc_model_load : RpcClass
rpc_model_load = record { name = "rpc_model_load"; listens = model_load; creates = model_load }

abbrev pub rpc_model_metadata : RpcClass
rpc_model_metadata = record {
  name = "rpc_model_metadata";
  listens = model_metadata;
  creates = model_metadata;
}

abbrev pub rpc_model_ready : RpcClass
rpc_model_ready = record { name = "rpc_model_ready"; listens = model_ready; creates = model_ready }

abbrev pub rpc_model_unload : RpcClass
rpc_model_unload = record {
  name = "rpc_model_unload";
  listens = model_unload;
  creates = model_unload;
}

abbrev pub rpc_model_infer : RpcClass
rpc_model_infer = record { name = "rpc_model_infer"; listens = model_infer; creates = model_infer }

unfoldable pub class_of : Kind → RpcClass
class_of server_live = rpc_server_live
class_of server_ready = rpc_server_ready
class_of server_metadata = rpc_server_metadata
class_of model_list = rpc_model_list
class_of model_load = rpc_model_load
class_of model_metadata = rpc_model_metadata
class_of model_ready = rpc_model_ready
class_of model_unload = rpc_model_unload
class_of model_infer = rpc_model_infer

pub class_of-listens : (k : Kind) → (class_of k).listens ≡ k
unfolding class_of
class_of-listens server_live = refl
class_of-listens server_ready = refl
class_of-listens server_metadata = refl
class_of-listens model_list = refl
class_of-listens model_load = refl
class_of-listens model_metadata = refl
class_of-listens model_ready = refl
class_of-listens model_unload = refl
class_of-listens model_infer = refl

pub class_of-creates : (k : Kind) → (class_of k).creates ≡ k
unfolding class_of
class_of-creates server_live = refl
class_of-creates server_ready = refl
class_of-creates server_metadata = refl
class_of-creates model_list = refl
class_of-creates model_load = refl
class_of-creates model_metadata = refl
class_of-creates model_ready = refl
class_of-creates model_unload = refl
class_of-creates model_infer = refl
