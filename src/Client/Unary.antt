-- ===== src/Client/Unary.antt =====
-- The client's object for an asynchronous call: `AsyncClientUnaryCall` (client_rpc_unary_async.hpp).
--
-- The callback is a function on a world. The loop of `grpc_client` that would call `proceed` is commented
-- out.
use tiny_inference_engine.Base.{◌≡◌, Bool, false, Option, none, some, if◌then◌else◌, arith, ◌&&◌}
use tiny_inference_engine.Client.Grpc.{Status}

pub record AsyncClientUnaryCall (W Response : Type 0) : Type 0 where
  pub result_code : Status
  pub response : Response
  pub on_response_callback : Option (Response → W → W)

module _ {W Response : Type 0} where
  unfoldable pub set_response_callback :
      (Response → W → W) → AsyncClientUnaryCall W Response → AsyncClientUnaryCall W Response
  set_response_callback callback call = record call { on_response_callback = some callback }

  called : Option (Response → W → W) → Response → W → W
  called none response w = w
  called (some callback) response w = callback response w

  -- The result says whether the object waits for another event.
  unfoldable pub proceed : Bool → AsyncClientUnaryCall W Response → W → W × Bool
  unfolding called
  proceed ok call w =
      if ok
      then (if call.result_code.ok
          then (called call.on_response_callback call.response w, false)
          else (w, false))
      else (w, false)

  -- The callback that was set last is called, once and with the response, exactly if the event and the
  -- call succeeded; one that was set before is forgotten; no call waits for another event.
  pub proceed-set_response_callback :
      (f g : Response → W → W) (ok : Bool) (call : AsyncClientUnaryCall W Response) (w : W)
      → proceed ok (set_response_callback g (set_response_callback f call)) w
        ≡ ((if ok && call.result_code.ok then g call.response w else w), false)
  unfolding proceed set_response_callback
  proceed-set_response_callback f g ok call w = ground arith
