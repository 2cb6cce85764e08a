-- ===== src/Text.antt =====
-- What the code uses of Python's `str`. A character is in lower case as Python has it where it is ASCII
-- or the Kelvin sign; other letters stay as they are, so `lower` serves only for a comparison with ASCII
-- texts, on which the two agree.
use Prim.Native.String as Chars
use Prim.Native.Char.{Char, code}
use xianyu_manager.Prelude.{
  ◌-◌, ◌&&◌, ◌||◌, ◌==◌, ◌==ℕ◌, Bool, String, if◌then◌else◌, leb, ℕ, List, [], ◌∷◌,
}

within : ℕ → ℕ → ℕ → Bool
within lo hi n = leb lo n && leb n hi

lower_char : Char → Char
unfolding within
lower_char c =
    if within 65 90 (code c)
    then Chars.char_at "abcdefghijklmnopqrstuvwxyz" (code c - 65)
    else if code c ==ℕ 8490
    then Chars.char_at "k" 0
    else c

-- `s.lower()`
unfoldable pub lower : String → String
unfolding lower_char
lower String.[] = ""
lower (String.◌∷◌ c s) = String.◌∷◌ (lower_char c) (lower s)

-- The characters that `str.strip` removes.
unfoldable pub is_space : ℕ → Bool
unfolding within
is_space n =
    within 9 13 n
    || within 28 32 n
    || n ==ℕ 133
    || n ==ℕ 160
    || n ==ℕ 5760
    || within 8192 8202 n
    || n ==ℕ 8232
    || n ==ℕ 8233
    || n ==ℕ 8239
    || n ==ℕ 8287
    || n ==ℕ 12288

-- `s.strip(chars)`, for the characters with a property.
unfoldable pub lstrip_by : (ℕ → Bool) → String → String
lstrip_by p String.[] = ""
lstrip_by p (String.◌∷◌ c s) =
    let rest = lstrip_by p s in if p (code c) then rest else String.◌∷◌ c s

unfoldable pub rstrip_by : (ℕ → Bool) → String → String
rstrip_by p String.[] = ""
rstrip_by p (String.◌∷◌ c s) =
    let rest = rstrip_by p s in if rest == "" && p (code c) then "" else String.◌∷◌ c rest

unfoldable pub strip_by : (ℕ → Bool) → String → String
unfolding lstrip_by rstrip_by
strip_by p s = rstrip_by p (lstrip_by p s)

-- `s.strip()`
unfoldable pub strip : String → String
unfolding strip_by is_space
strip s = strip_by is_space s

-- `s.split(sep)` for a separator of one character: the first part, and those behind it.
unfoldable pub split_on : ℕ → String → String × List String
split_on sep String.[] = ("", [])
split_on sep (String.◌∷◌ c s) =
    let (part, parts) = split_on sep s in
    if code c ==ℕ sep then ("", part ∷ parts) else (String.◌∷◌ c part, parts)

-- `needle in s`
abbrev pub is_in : String → String → Bool
is_in needle s = leb (Chars.find s needle) (Chars.len s)
