-- ===== src/Runtime/MessagePipeline/Texts/Examples.antt =====
-- An event with a text of JSON in it, and the theorem at it.
use xianyu_manager.Text.{is_space, lstrip_by, rstrip_by, strip, strip_by}
use xianyu_manager.Dict.{is_some}
use xianyu_manager.Runtime.MessagePipeline.Texts.{
  add_candidate, add_text, collect_candidate_texts, is_null, is_seen, starts_json, walk, walk_json,
  walk_elements, walk_fields, walk_value,
}
use xianyu_manager.Runtime.MessagePipeline.Texts.Termination.{
  IsLoader, collect_candidate_texts-ends, IsShort,
}
use xianyu_manager.Runtime.MessagePipeline.Values.{
  Fields, Json, decimal, element, field, json_list, json_null, json_text, no_elements, no_fields,
  str_of,
}
use xianyu_manager.Prelude.{
  ◌==◌, Option, String, [], arith, if◌then◌else◌, none, refl, some, true, ◌∷◌, ◌≡◌, Bool, ap,
  eq_iff, false, subst, suc, ◌≤◌,
}
use xianyu_manager.Runtime.MessagePipeline.Texts.Sizes.{size}

-- Reads one text.
abbrev loads : String → Option Json
loads t = if t == "[7]" then some (json_list (element (json_text "7") no_elements)) else none

abbrev no_repr : Json → String
no_repr _ = ""

abbrev event : Fields
event = field "body" (json_text " [7] ") (field "n" json_null no_fields)

collected :
    collect_candidate_texts no_repr loads 8 event
    ≡ some (("event.body", "[7]") ∷ ("event.body.json[0]", "7") ∷ [])
unfolding collect_candidate_texts walk walk_value walk_fields walk_elements add_candidate add_text
    walk_json is_null is_seen starts_json str_of decimal strip strip_by lstrip_by rstrip_by is_space
collected = refl

loads-IsLoader : IsLoader no_repr loads
loads-IsLoader t v n l le = by_choice (t == "[7]") refl l
  where
    value_of : Option Json → Json
    value_of none = json_null
    value_of (some w) = w

    short : t ≡ "[7]" → 1 ≤ n
    short e = omega (arith, subst (λ s. size s ≤ suc n) e le)

    by_choice :
        (b : Bool)
        → (t == "[7]") ≡ b
        → (if b then some (json_list (element (json_text "7") no_elements)) else none) ≡ some v
        → IsShort no_repr n v
    by_choice true e h =
        subst (IsShort no_repr n) (ap value_of h) (short ((eq_iff t "[7]").0 e), tt)
    by_choice false e h = absurd (cc)

collect_candidate_texts-ends_example :
    is_some (collect_candidate_texts no_repr loads 6 event) ≡ true
collect_candidate_texts-ends_example =
    collect_candidate_texts-ends no_repr loads 5 event loads-IsLoader (omega arith, (tt, tt))
