-- ===== src/Runtime/MessagePipeline/Texts/Termination.antt =====
-- The walk over an event ends: its fuel is enough.
use xianyu_manager.Runtime.MessagePipeline.Texts.Sizes.{size, size-strip, size-zero}
use xianyu_manager.Runtime.MessagePipeline.Texts.{
  starts_json, Candidates, add_text, is_null, walk_json, add_candidate, and_then,
  collect_candidate_texts, is_seen, walk, walk_elements, walk_fields, walk_value,
}
use xianyu_manager.Text.{lstrip_by, strip, strip_by, is_space, rstrip_by}
use xianyu_manager.Runtime.MessagePipeline.Values.{
  Elements, Fields, Json, element, field, json_bool, json_dict, json_float, json_int, json_list,
  json_null, json_text, no_elements, no_fields, str_of,
}
use xianyu_manager.Prelude.{
  Bool, String, arith, false, suc, ℕ, ◌≡◌, ◌≤◌, ◌==◌, Bool-cases, Option, if◌then◌else◌, inl, inr,
  none, refl, some, true, ◌⊎◌, ◌+◌, ◌++◌, [], sym, zero, ◌||◌, ◌∙◌, ◌∷◌,
}
use xianyu_manager.Dict.{is_some}

module _ (repr : Json → String) where
  abbrev mutual
    -- Every text in a value has at most `n` characters, and no number is written like JSON.
    pub IsShort : ℕ → Json → Type 0
    IsShort n (json_dict fs) = AreShort n fs
    IsShort n (json_list vs) = AllShort n vs
    IsShort n (json_text s) = size s ≤ n
    IsShort n (json_float s) = starts_json (strip s) ≡ false
    IsShort n json_null = Unit
    IsShort n (json_bool b) = Unit
    IsShort n (json_int i) = starts_json (strip (str_of repr (json_int i))) ≡ false

    pub AreShort : ℕ → Fields → Type 0
    AreShort n no_fields = Unit
    AreShort n (field k v fs) = IsShort n v × AreShort n fs

    pub AllShort : ℕ → Elements → Type 0
    AllShort n no_elements = Unit
    AllShort n (element v vs) = IsShort n v × AllShort n vs

  module _ (loads : String → Option Json) where
    -- What a text of JSON holds has fewer characters than the text.
    abbrev pub IsLoader : Type 0
    IsLoader = (t : String) (v : Json) (n : ℕ) → loads t ≡ some v → size t ≤ suc n → IsShort n v

    module _ (walk_parsed : Json → String → Candidates → Option Candidates) (n : ℕ)
        (ends : (t : String) (v : Json)
          → size t ≤ n
          → starts_json t ≡ true
          → loads t ≡ some v
          → (source : String) (cs : Candidates) → is_some (walk_parsed v source cs) ≡ true) where
      walk_json-ends :
          (t source : String) (o : Option Json) (cs : Candidates)
          → size t ≤ n
          → starts_json t ≡ true
          → loads t ≡ o
          → is_some (walk_json repr loads walk_parsed source o cs) ≡ true
      unfolding walk_json
      walk_json-ends t source none cs le j l = refl
      walk_json-ends t source (some v) cs le j l = elim (Bool-cases (is_null v)) [
        | inl b ↦ rw b refl
        | inr b ↦ rw b (ends t v le j l _ cs)
      ]

      add_text-ends :
          (source t : String) (cs : Candidates)
          → (starts_json t ≡ false) ⊎ (size t ≤ n)
          → is_some (add_text repr loads walk_parsed source t cs) ≡ true
      unfolding add_text
      add_text-ends source t cs h =
          by_choice (t == "" || is_seen source t cs) (starts_json t) refl h
        where
          by_choice :
              (a b : Bool)
              → starts_json t ≡ b
              → (starts_json t ≡ false) ⊎ (size t ≤ n)
              → is_some (
                  if a
                  then some cs
                  else if b
                  then walk_json repr loads walk_parsed source (loads t) (cs ++ (source, t) ∷ [])
                  else some (cs ++ (source, t) ∷ []))
                ≡ true
          by_choice true b e h = refl
          by_choice false false e h = refl
          by_choice false true e (inl f) = absurd (cc)
          by_choice false true e (inr le) =
              walk_json-ends t source (loads t) (cs ++ (source, t) ∷ []) le e refl

      add_candidate-ends :
          (source : String) (v : Json) (cs : Candidates)
          → (starts_json (strip (str_of repr v)) ≡ false) ⊎ (size (strip (str_of repr v)) ≤ n)
          → is_some (add_candidate repr loads walk_parsed source v cs) ≡ true
      unfolding add_candidate
      add_candidate-ends source v cs h = elim (Bool-cases (is_null v)) [
        | inl b ↦ rw b refl
        | inr b ↦ rw b (add_text-ends source (strip (str_of repr v)) cs h)
      ]

      and_then-ends :
          (o : Option Candidates) (k : Candidates → Option Candidates)
          → is_some o ≡ true
          → ((cs : Candidates) → is_some (k cs) ≡ true)
          → is_some (and_then o k) ≡ true
      and_then-ends none k h f = absurd (cc)
      and_then-ends (some cs) k h f = f cs

      mutual
        unfolding walk_value walk_fields walk_elements str_of starts_json strip strip_by lstrip_by
            rstrip_by is_space

        walk_value-ends :
            (v : Json) (source : String) (cs : Candidates)
            → IsShort n v
            → is_some (walk_value repr loads walk_parsed v source cs) ≡ true
        walk_value-ends (json_dict fs) source cs h = walk_fields-ends fs source cs h
        walk_value-ends (json_list vs) source cs h = walk_elements-ends 20 0 vs source cs h
        walk_value-ends json_null source cs h = add_candidate-ends source json_null cs (inl refl)
        walk_value-ends (json_bool true) source cs h =
            add_candidate-ends source (json_bool true) cs (inl refl)
        walk_value-ends (json_bool false) source cs h =
            add_candidate-ends source (json_bool false) cs (inl refl)
        walk_value-ends (json_int i) source cs h = add_candidate-ends source (json_int i) cs (inl h)
        walk_value-ends (json_float s) source cs h =
            add_candidate-ends source (json_float s) cs (inl h)
        walk_value-ends (json_text s) source cs h =
            add_candidate-ends source (json_text s) cs (inr (omega (arith, size-strip s)))

        walk_fields-ends :
            (fs : Fields) (source : String) (cs : Candidates)
            → AreShort n fs
            → is_some (walk_fields repr loads walk_parsed fs source cs) ≡ true
        walk_fields-ends no_fields source cs h = refl
        walk_fields-ends (field k v fs) source cs h =
            and_then-ends _ _ (walk_value-ends v _ cs h.0)
              (λ cs'. walk_fields-ends fs source cs' h.1)

        walk_elements-ends :
            (m index : ℕ) (vs : Elements) (source : String) (cs : Candidates)
            → AllShort n vs
            → is_some (walk_elements repr loads walk_parsed m index vs source cs) ≡ true
        walk_elements-ends zero index vs source cs h = refl
        walk_elements-ends (suc m) index no_elements source cs h = refl
        walk_elements-ends (suc m) index (element v vs) source cs h =
            and_then-ends _ _ (walk_value-ends v _ cs h.0)
              (λ cs'. walk_elements-ends m (index + 1) vs source cs' h.1)

    starts_json-empty : (t : String) → t ≡ "" → starts_json t ≡ false
    unfolding starts_json
    starts_json-empty t e = rw e refl

    walk-ends :
        (n : ℕ) (v : Json) (source : String) (cs : Candidates)
        → IsLoader
        → IsShort n v
        → is_some (walk repr loads (suc n) v source cs) ≡ true
    unfolding walk
    walk-ends zero v source cs loader h =
        walk_value-ends (walk repr loads 0) 0
          (λ t w le j l source' cs'.
            absurd (no_clash (sym j ∙ starts_json-empty t (size-zero t le))))
          v source cs h
      where
        no_clash : ¬ (true ≡ false)
        no_clash e = cc
    walk-ends (suc n) v source cs loader h =
        walk_value-ends (walk repr loads (suc n)) (suc n)
          (λ t w le j l source' cs'. walk-ends n w source' cs' loader (loader t w n l le)) v source
          cs h

    -- The collection of the texts of an event ends, with a fuel one above the number of characters of
    -- its longest text, if what a text of JSON holds has fewer characters than the text, and Python
    -- writes no number with a brace or a bracket.
    pub collect_candidate_texts-ends :
        (n : ℕ) (event : Fields)
        → IsLoader
        → AreShort n event
        → is_some (collect_candidate_texts repr loads (suc n) event) ≡ true
    unfolding collect_candidate_texts
    collect_candidate_texts-ends n event loader h =
        walk-ends n (json_dict event) "event" [] loader h
