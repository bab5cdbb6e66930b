-- ===== src/Client/CallResult.antt =====
-- `call_result` (call_result.hpp, call_result.cpp).
use tiny_inference_engine.Base.{String, Bool, true, false}

pub data CallResultCode : Type 0 where
  call_ok call_error : CallResultCode

pub record CallResult : Type 0 where
  pub code : CallResultCode
  pub error_message : String

-- The two constructors.
abbrev pub with_code : CallResultCode → CallResult
with_code code = record { code = code; error_message = "" }

abbrev pub with_message : CallResultCode → String → CallResult
with_message code message = record { code = code; error_message = message }

-- `call_result::ok()`
unfoldable pub is_ok_code : CallResultCode → Bool
is_ok_code call_ok = true
is_ok_code call_error = false

unfoldable pub is_ok : CallResult → Bool
unfolding is_ok_code
is_ok r = is_ok_code r.code

-- `call_result::OK` and `call_result::ERROR`
abbrev pub ok_result : CallResult
ok_result = with_code call_ok

abbrev pub error_result : CallResult
error_result = with_message call_error "Unknown error"
