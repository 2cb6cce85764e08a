-- ===== src/Utils/MessagePack/Utf8.antt =====
-- The strict UTF-8 of `bytes.decode("utf-8")`, as an automaton over the bytes.

-- How many continuation bytes are due, or which range the next byte has.
use xianyu_manager.Prelude.{
  ◌&&◌, ◌==ℕ◌, Bool, List, [], false, if◌then◌else◌, leb, ltb, true, ℕ, ◌∷◌,
}

pub data Due : Type 0 where
  start one two three after_e0 after_ed after_f0 after_f4 bad : Due

abbrev within : ℕ → ℕ → ℕ → Bool
within lo hi b = leb lo b && leb b hi

lead : ℕ → Due
lead b =
    if ltb b 0x80
    then start
    else if within 0xC2 0xDF b
    then one
    else if b ==ℕ 0xE0
    then after_e0
    else if b ==ℕ 0xED
    then after_ed
    else if within 0xE1 0xEF b
    then two
    else if b ==ℕ 0xF0
    then after_f0
    else if within 0xF1 0xF3 b
    then three
    else if b ==ℕ 0xF4
    then after_f4
    else bad

next : Due → ℕ → Due
unfolding lead
next start b = lead b
next one b = if within 0x80 0xBF b then start else bad
next two b = if within 0x80 0xBF b then one else bad
next three b = if within 0x80 0xBF b then two else bad
next after_e0 b = if within 0xA0 0xBF b then one else bad
next after_ed b = if within 0x80 0x9F b then one else bad
next after_f0 b = if within 0x90 0xBF b then two else bad
next after_f4 b = if within 0x80 0x8F b then two else bad
next bad b = bad

run : Due → List ℕ → Due
unfolding next
run d [] = d
run d (b ∷ bs) = run (next d b) bs

is_start : Due → Bool
is_start start = true
is_start _ = false

unfoldable pub is_utf8 : List ℕ → Bool
unfolding run is_start
is_utf8 bs = is_start (run start bs)
