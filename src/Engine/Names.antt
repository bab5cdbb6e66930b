-- ===== src/Engine/Names.antt =====
-- The names that the runtime's allocator gives to `onnx_backend`, and `std::vector<model_info>`
-- (tie_engine/src/onnx_backend/onnx_backend.hpp).
--
-- A `char*` is the number of its block. `model_info` declares a destructor and so has no move constructor: a
-- vector that grows copies its elements, pointers included, and destroys the old ones.
use tiny_inference_engine.Base.{
  ℕ, ◌+◌, ◌==◌, String, Option, none, some, List, [], ◌∷◌, ◌++◌, ◌>>=◌, length, if◌then◌else◌,
}
use tiny_inference_engine.Base.Table.{Table, find, assign, erase}

pub record Names : Type 0 where
  pub next : ℕ
  pub live : Table String

pub record ModelInfo : Type 0 where
  pub name : ℕ
  pub shape : List ℕ
  pub type : ℕ

pub record Infos : Type 0 where
  pub items : List ModelInfo
  pub capacity : ℕ

abbrev pub no_infos : Infos
no_infos = record { items = []; capacity = 0 }

-- A name of the runtime, in a block of the allocator.
unfoldable pub allocate : String → Names → ℕ × Names
allocate text h = (h.next, record { next = h.next + 1; live = assign h.next text h.live })

-- `Free(name)`. `none`: the block was freed before.
unfoldable pub free : ℕ → Names → Option Names
free p h = elim (find p h.live) [
  | none ↦ none
  | some text ↦ some (record h { live = erase p h.live })
]

-- `~model_info` of each element.
unfoldable pub destroy : List ModelInfo → Names → Option Names
destroy [] h = some h
destroy (i ∷ is) h = free i.name h >>= destroy is

-- `emplace_back`, where `grow` is the next capacity of the library's vector.
unfoldable pub emplace_back : (ℕ → ℕ) → ModelInfo → Infos → Names → Option (Infos × Names)
emplace_back grow i v h =
    if length v.items == v.capacity
    then (destroy v.items h >>= λ h'.
        some (record { items = v.items ++ (i ∷ []); capacity = grow v.capacity }, h'))
    else some (record v { items = v.items ++ (i ∷ []) }, h)
