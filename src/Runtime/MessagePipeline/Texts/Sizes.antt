-- ===== src/Runtime/MessagePipeline/Texts/Sizes.antt =====
-- A text is not longer without the space around it.
-- The number of characters.
use Prim.Native.Char.{code}
use xianyu_manager.Text.{is_space, lstrip_by, rstrip_by, strip, strip_by}
use xianyu_manager.Prelude.{
  ◌&&◌, ◌==◌, Bool, String, arith, false, if◌then◌else◌, refl, suc, true, ℕ, ◌≡◌, ◌≤◌,
}

abbrev pub size : String → ℕ
size String.[] = 0
size (String.◌∷◌ c s) = suc (size s)

size-lstrip_by : (p : ℕ → Bool) (s : String) → size (lstrip_by p s) ≤ size s
unfolding lstrip_by
size-lstrip_by p String.[] = omega arith
size-lstrip_by p (String.◌∷◌ c s) = by_choice (p (code c)) (size-lstrip_by p s)
  where
    by_choice :
        (b : Bool)
        → size (lstrip_by p s) ≤ size s
        → size (if b then lstrip_by p s else String.◌∷◌ c s) ≤ suc (size s)
    by_choice true h = omega arith
    by_choice false h = omega arith

size-rstrip_by : (p : ℕ → Bool) (s : String) → size (rstrip_by p s) ≤ size s
unfolding rstrip_by
size-rstrip_by p String.[] = omega arith
size-rstrip_by p (String.◌∷◌ c s) =
    by_choice (rstrip_by p s == "" && p (code c)) (size-rstrip_by p s)
  where
    by_choice :
        (b : Bool)
        → size (rstrip_by p s) ≤ size s
        → size (if b then "" else String.◌∷◌ c (rstrip_by p s)) ≤ suc (size s)
    by_choice true h = omega arith
    by_choice false h = omega arith

pub size-strip : (s : String) → size (strip s) ≤ size s
unfolding strip strip_by
size-strip s =
    omega (arith, size-rstrip_by is_space (lstrip_by is_space s), size-lstrip_by is_space s)

pub size-zero : (s : String) → size s ≤ 0 → s ≡ ""
size-zero String.[] h = refl
size-zero (String.◌∷◌ c s) h = absurd (omega arith)
