-- ===== src/Runtime/MessagePipeline/Values.antt =====
-- The values that `json.loads` makes, and what the pipeline uses of them. A float is the text that
-- Python writes for it.
use xianyu_manager.Text.{strip}
use xianyu_manager.Prelude.{
  ◌%◌, ◌/◌, ◌==◌, Bool, List, Option, String, [], false, if◌then◌else◌, ltb, negsuc, none, not, pos,
  some, suc, true, zero, ◌||◌, ℕ, ℤ, ◌∷◌,
}
use Prim.Native.String as Chars

mutual
  pub data Json : Type 0 where
    json_null : Json
    json_bool : Bool → Json
    json_int : ℤ → Json
    json_float json_text : String → Json
    json_list : Elements → Json
    json_dict : Fields → Json

  pub data Elements : Type 0 where
    no_elements : Elements
    element : Json → Elements → Elements

  pub data Fields : Type 0 where
    no_fields : Fields
    field : String → Json → Fields → Fields

-- `fields.get(key)`
unfoldable pub get : String → Fields → Option Json
get k no_fields = none
get k (field j v fs) = if j == k then some v else get k fs

-- `self._as_dict(value)`, where no value is `None`.
unfoldable pub as_dict : Option Json → Fields
as_dict (some (json_dict fs)) = fs
as_dict _ = no_fields

-- `not value`
unfoldable pub is_falsy : Json → Bool
is_falsy json_null = true
is_falsy (json_bool b) = not b
is_falsy (json_int (pos zero)) = true
is_falsy (json_float s) = s == "0.0" || s == "-0.0"
is_falsy (json_text s) = s == ""
is_falsy (json_list no_elements) = true
is_falsy (json_dict no_fields) = true
is_falsy _ = false

-- The decimal digits of a number; `fuel` above it is enough.
digits : ℕ → ℕ → String → String
digits zero n rest = rest
digits (suc fuel) n rest =
    let shown = String.◌∷◌ (Chars.char_at "0123456789" (n % 10)) rest in
    let more = digits fuel (n / 10) shown in if ltb n 10 then shown else more

-- `str(n)`
unfoldable pub decimal : ℕ → String
unfolding digits
decimal n = digits (suc n) n ""

-- `str(value)`, over the text of a list or a dict.
module _ (repr : Json → String) where
  unfoldable pub str_of : Json → String
  unfolding decimal
  str_of json_null = "None"
  str_of (json_bool true) = "True"
  str_of (json_bool false) = "False"
  str_of (json_int (pos n)) = decimal n
  str_of (json_int (negsuc n)) = Chars.◌++◌ "-" (decimal (suc n))
  str_of (json_float s) = s
  str_of (json_text s) = s
  str_of (json_list vs) = repr (json_list vs)
  str_of (json_dict fs) = repr (json_dict fs)

  -- `str(value or "").strip()`
  unfoldable pub normalized : Option Json → String
  unfolding is_falsy strip str_of
  normalized none = ""
  normalized (some v) = if is_falsy v then "" else strip (str_of v)

  -- `self._first_non_empty(*values)`
  unfoldable pub first_non_empty : List (Option Json) → String
  unfolding normalized
  first_non_empty [] = ""
  first_non_empty (v ∷ vs) =
      let rest = first_non_empty vs in if normalized v == "" then rest else normalized v
