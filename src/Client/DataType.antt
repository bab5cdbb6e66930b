-- ===== src/Client/DataType.antt =====
-- `data_type` (data_type.hpp, data_type.cpp): the element types and their names.
use text.Mathlib.Text.{◌==◌ as str_eq}
use text.Mathlib.TextEquality.{eq_iff}
use tiny_inference_engine.Base.{
  String, ◌≡◌, refl, Option, none, some, List, [], ◌∷◌, if◌then◌else◌, arith, subst, ap, inl, inr,
  ite, Bool-cases,
}

-- `data_type::value`
pub data Value : Type 0 where
  bool uint8 uint16 uint32 uint64 : Value
  int8 int16 int32 int64 : Value
  fp16 fp32 fp64 string unknown : Value

unfoldable pub Value-discrete : Discrete Value
Value-discrete = hlevel

abbrev pub type_to_string : List (Value × String)
type_to_string =
    (bool, "BOOL")
    ∷ (uint8, "UINT8")
    ∷ (uint16, "UINT16")
    ∷ (uint32, "UINT32")
    ∷ (uint64, "UINT64")
    ∷ (int8, "INT8")
    ∷ (int16, "INT16")
    ∷ (int32, "INT32")
    ∷ (int64, "INT64")
    ∷ (fp16, "FP16")
    ∷ (fp32, "FP32")
    ∷ (fp64, "FP64")
    ∷ (string, "STRING")
    ∷ (unknown, "Unknown")
    ∷ []

abbrev pub string_to_type : List (String × Value)
string_to_type =
    ("BOOL", bool)
    ∷ ("UINT8", uint8)
    ∷ ("UINT16", uint16)
    ∷ ("UINT32", uint32)
    ∷ ("UINT64", uint64)
    ∷ ("INT8", int8)
    ∷ ("INT16", int16)
    ∷ ("INT32", int32)
    ∷ ("INT64", int64)
    ∷ ("FP16", fp16)
    ∷ ("FP32", fp32)
    ∷ ("FP64", fp64)
    ∷ ("STRING", string)
    ∷ ("Unknown", unknown)
    ∷ []

-- `std::map::at`; `none` is `std::out_of_range`.
unfoldable pub name_at : Value → List (Value × String) → Option String
name_at v [] = none
name_at v ((u, s) ∷ m) = ite (Value-discrete u v) (some s) (name_at v m)

-- `std::map::find`
unfoldable pub type_of : String → List (String × Value) → Option Value
type_of s [] = none
type_of s ((t, v) ∷ m) = if str_eq t s then some v else type_of s m

abbrev or_unknown : Option Value → Value
or_unknown none = unknown
or_unknown (some v) = v

-- `data_type::from_string`
unfoldable pub from_string : String → Value
from_string s = or_unknown (type_of s string_to_type)

-- `data_type::str`
unfoldable pub str : Value → Option String
str v = name_at v type_to_string

-- Every entry of a table is as `P` says.
abbrev Entries : (String → Value → Type 0) → List (String × Value) → Type 0
Entries P [] = Unit {0}
Entries P ((s, v) ∷ m) = P s v × Entries P m

type_of-Entries :
    (P : String → Value → Type 0) (s : String) (v : Value) (m : List (String × Value))
    → Entries P m
    → type_of s m ≡ some v
    → P s v
unfolding type_of
type_of-Entries P s v [] h e = cc
type_of-Entries P s v ((t, u) ∷ m) h e = elim (Bool-cases (str_eq t s)) [
  | inl same ↦
      let found : u ≡ v = ground (arith, same, e) in
      subst (λ x. P x v) ((eq_iff t s).0 same) (subst (P t) found h.0)
  | inr differs ↦ type_of-Entries P s v m h.1 (rw differs at e)
]

-- Every data type has a name, which the other table has too, with the type.
pub type_of-str :
    (v : Value) → (s : String) × (str v ≡ some s) × (type_of s string_to_type ≡ some v)
unfolding str name_at Value-discrete type_of
type_of-str bool = ("BOOL", refl, refl)
type_of-str uint8 = ("UINT8", refl, refl)
type_of-str uint16 = ("UINT16", refl, refl)
type_of-str uint32 = ("UINT32", refl, refl)
type_of-str uint64 = ("UINT64", refl, refl)
type_of-str int8 = ("INT8", refl, refl)
type_of-str int16 = ("INT16", refl, refl)
type_of-str int32 = ("INT32", refl, refl)
type_of-str int64 = ("INT64", refl, refl)
type_of-str fp16 = ("FP16", refl, refl)
type_of-str fp32 = ("FP32", refl, refl)
type_of-str fp64 = ("FP64", refl, refl)
type_of-str string = ("STRING", refl, refl)
type_of-str unknown = ("Unknown", refl, refl)

-- Every data type has a name, so that `str` does not throw, and `from_string` reads the name back.
pub from_string-str : (v : Value) → (s : String) × (str v ≡ some s) × (from_string s ≡ v)
unfolding from_string
from_string-str v = let (s, named, found) = type_of-str v in (s, named, ap or_unknown found)

names-agree : Entries (λ s v. str v ≡ some s) string_to_type
unfolding str name_at Value-discrete
names-agree = (
  refl,
  (
    refl,
    (
      refl,
      (refl, (refl, (refl, (refl, (refl, (refl, (refl, (refl, (refl, (refl, (refl, tt))))))))))),
    ),
  ),
)

-- A text that has a type in the one table is that type's name in the other.
pub str-type_of : (s : String) (v : Value) → type_of s string_to_type ≡ some v → str v ≡ some s
str-type_of s v e = type_of-Entries (λ s v. str v ≡ some s) s v string_to_type names-agree e
