-- ===== src/Client/Names.antt =====
-- The two tables of `data_type` (data_type.cpp) as one correspondence.
use std.Path.{transport, transport⁻¹}
use std.Equiv.{◌≃◌, iso_to_equiv}
use std.Univalence.{ua, ua-β, ua-β⁻¹}
use mathlib.Core.HLevel.{Σ_prop_path}
use tiny_inference_engine.Base.{
  some_eq, String, ◌≡◌, ◌≢◌, refl, sym, ap, ◌∙◌, none, some, Option-cases, inl, inr,
}
use tiny_inference_engine.Client.DataType.{
  Value, type_of, string_to_type, str, from_string, type_of-str, str-type_of,
}

-- The keys of the table `_string_to_type`.
abbrev pub Named : Type 0
Named = (s : String) × (type_of s string_to_type ≢ none)

name : Value → Named
name v = let (s, _, found) = type_of-str v in (s, λ e. cc (e, found))

str-name : (v : Value) → str v ≡ some (name v).0
unfolding name
str-name v = (type_of-str v).1

Named_path : (x y : Named) → x.0 ≡ y.0 → x ≡ y
Named_path x y e = Σ_prop_path (λ s. hlevel) e

from_string-some : (s : String) (v : Value) → type_of s string_to_type ≡ some v → from_string s ≡ v
unfolding from_string
from_string-some s v e = rw (e) refl

name-from_string : (x : Named) → name (from_string x.0) ≡ x
name-from_string (s, n) = elim (Option-cases (type_of s string_to_type)) [
  | inl e ↦ absurd (n e)
  | inr (v, e) ↦
      Named_path (name (from_string s)) (s, n)
        (ap (λ u. (name u).0) (from_string-some s v e)
          ∙ some_eq (sym (str-name v) ∙ str-type_of s v e))
]

from_string-name : (v : Value) → from_string (name v).0 ≡ v
unfolding name
from_string-name v = from_string-some (name v).0 v (type_of-str v).2

names_equiv : Value ≃ Named
names_equiv = iso_to_equiv (record {
  fun = name;
  inv = λ x. from_string x.0;
  rinv = name-from_string;
  linv = from_string-name;
})

-- The data types are the keys of the table of names, one for one, by `str` and `from_string`: the two
-- types are equal, and a data type goes to the text that `str` gives, a key to the data type that
-- `from_string` gives.
pub Value-Named :
    (p : Value ≡ Named) × ((v : Value) → str v ≡ some (transport p v).0)
    × ((x : Named) → from_string x.0 ≡ transport⁻¹ p x)
unfolding names_equiv
Value-Named = (
  ua names_equiv,
  λ v. str-name v ∙ ap (λ (x : Named). some x.0) (sym (ua-β names_equiv v)),
  λ x. sym (ua-β⁻¹ names_equiv x),
)
