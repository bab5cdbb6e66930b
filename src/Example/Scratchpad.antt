-- ===== src/Example/Scratchpad.antt =====
-- scratchpad.cpp: ways to go from a value that is known at run time to a template's instance.
--
-- A template is a function of its type argument, and what it prints is a list of lines. The tensors and
-- the other arguments are not read.
use tiny_inference_engine.Base.{ℕ, ◌≡◌, refl, String, Bool, true, false, List, [], ◌∷◌, ◌++◌}

-- `enum value`
pub data Value : Type 0 where
  bool float const_char : Value

-- The type arguments: `bool`, `float` and `const char*`.
pub data Argument : Type 0 where
  type_bool type_float type_char_pointer : Argument

-- What `getTensorContents` returns: a `bool`, a `double`, written out, or a `const char*`.
pub data Contents : Type 0 where
  a_bool : Bool → Contents
  a_double a_text : String → Contents

-- `tv<v>::type`
unfoldable pub tv : Value → Argument
tv bool = type_bool
tv float = type_float
tv const_char = type_char_pointer

unfoldable pub get_tensor_contents : {Tensor : Type 0} → Argument → Tensor → Contents
get_tensor_contents type_bool tensor = a_bool true
get_tensor_contents type_float tensor = a_double "1.2345"
get_tensor_contents type_char_pointer tensor = a_text "asdfghj"

-- `std::cout << t`
abbrev pub printed : Contents → String
printed (a_bool true) = "1"
printed (a_bool false) = "0"
printed (a_double text) = text
printed (a_text text) = text

module _ {Tensor : Type 0} where
  unfoldable pub call_a : Argument → ℕ → String → Tensor → List String
  unfolding get_tensor_contents
  call_a t i c tensor =
      elim t [ type_bool ↦ "BOOL" | type_float ↦ "FLOAT" | type_char_pointer ↦ "CONST CHAR" ]
      ∷ printed (get_tensor_contents t tensor)
      ∷ []

  unfoldable pub call_b : Argument → String → Bool → Tensor → List String
  unfolding get_tensor_contents
  call_b t s b tensor =
      elim t [ type_bool ↦ "BOOL" | type_float ↦ "FLOAT" | type_char_pointer ↦ "CONST CHAR" ]
      ∷ printed (get_tensor_contents t tensor)
      ∷ []

  -- `std::invoke(call_a<...>, 1, "some string", tensor)`
  unfoldable pub simple_dispatch : Value → Tensor → List String
  unfolding call_a
  simple_dispatch bool tensor = call_a type_bool 1 "some string" tensor
  simple_dispatch float tensor = call_a type_float 1 "some string" tensor
  simple_dispatch const_char tensor = call_a type_char_pointer 1 "some string" tensor

  -- `f1<T, Tensor>::operator()` and `f2<T, Tensor>::operator()`
  unfoldable pub f1 : Argument → Tensor → ℕ × String → List String
  unfolding get_tensor_contents
  f1 t tensor (i, c) =
      elim t [ type_bool ↦ "BOOL" | type_float ↦ "FLOAT" | type_char_pointer ↦ "CONST CHAR" ]
      ∷ printed (get_tensor_contents t tensor)
      ∷ []

  unfoldable pub f2 : Argument → Tensor → String × Bool → List String
  unfolding get_tensor_contents
  f2 t tensor (s, b) =
      elim t [ type_bool ↦ "BOOL" | type_float ↦ "FLOAT" | type_char_pointer ↦ "CONST CHAR" ]
      ∷ printed (get_tensor_contents t tensor)
      ∷ []

  unfoldable pub callable_wrapper1 :
      {Args : Type 0}
      → (Argument → Tensor → Args → List String)
      → Value
      → Tensor
      → Args
      → List String
  callable_wrapper1 func bool tensor args = func type_bool tensor args
  callable_wrapper1 func float tensor args = func type_float tensor args
  callable_wrapper1 func const_char tensor args = func type_char_pointer tensor args

-- What `main` prints and returns.
unfoldable pub main : List String × ℕ
unfolding callable_wrapper1 f1 f2
main = (callable_wrapper1 f1 float tt (5, "") ++ callable_wrapper1 f2 const_char tt ("", false), 0)

module _ {Tensor : Type 0} where
  -- The two ways agree with the instance for the value's type, whatever the other arguments are.
  dispatch_same :
      (v : Value) (tensor : Tensor) (i : ℕ) (c s : String) (b : Bool)
      → (simple_dispatch v tensor ≡ call_b (tv v) s b tensor)
        × (callable_wrapper1 f1 v tensor (i, c) ≡ f1 (tv v) tensor (i, c))
        × (callable_wrapper1 f2 v tensor (s, b) ≡ simple_dispatch v tensor)
  unfolding simple_dispatch call_a call_b callable_wrapper1 f1 f2 tv
  dispatch_same bool tensor i c s b = (refl, refl, refl)
  dispatch_same float tensor i c s b = (refl, refl, refl)
  dispatch_same const_char tensor i c s b = (refl, refl, refl)
