-- ===== src/Utils/MessagePack/Reads.antt =====
-- Reading back what was written: bytes, and big-endian numbers.
use xianyu_manager.Utils.MessagePack.{read_bytes, read_uint, unpack_from, ok}
use xianyu_manager.Prelude.{
  ◌%◌, ◌*◌, ◌+◌, ◌++◌, ◌/◌, ◌<◌, List, [], ◌^◌, arith, length, length-append, refl, subst, suc,
  zero, ℕ, ◌∷◌, ◌≡◌,
}
use native.Mathlib.Nat.{pow-suc}

pub read_bytes-append : (xs rest : List ℕ) → read_bytes (length xs) (xs ++ rest) ≡ ok (xs, rest)
unfolding read_bytes
read_bytes-append [] rest = refl
read_bytes-append (x ∷ xs) rest = rw (read_bytes-append xs rest) refl

-- The `width` bytes of a number, the highest first.
pub big_endian : ℕ → ℕ → List ℕ
big_endian zero v = []
big_endian (suc w) v = big_endian w (v / 256) ++ (v % 256) ∷ []

pub length-big_endian : (w v : ℕ) → length (big_endian w v) ≡ w
unfolding big_endian
length-big_endian zero v = refl
length-big_endian (suc w) v =
    omega (
      arith,
      length-append (big_endian w (v / 256)) ((v % 256) ∷ []),
      length-big_endian w (v / 256),
    )

unpack_from-append :
    (acc : ℕ) (xs ys : List ℕ) → unpack_from acc (xs ++ ys) ≡ unpack_from (unpack_from acc xs) ys
unfolding unpack_from
unpack_from-append acc [] ys = refl
unpack_from-append acc (x ∷ xs) ys = unpack_from-append (acc * 256 + x) xs ys

unpack_from-big_endian : (w v : ℕ) → v < 256 ^ w → unpack_from 0 (big_endian w v) ≡ v
unfolding unpack_from big_endian
unpack_from-big_endian zero v h = omega arith
unpack_from-big_endian (suc w) v h =
    rw (unpack_from-append 0 (big_endian w (v / 256)) ((v % 256) ∷ []))
      (omega (arith, unpack_from-big_endian w (v / 256) (div_fits w v h)))
  where
    div_fits : (k n : ℕ) → n < 256 ^ suc k → n / 256 < 256 ^ k
    div_fits k n lt = omega (arith, pow-suc 256 k)

pub read_uint-big_endian :
    (w v : ℕ) (rest : List ℕ) → v < 256 ^ w → read_uint w (big_endian w v ++ rest) ≡ ok (v, rest)
unfolding read_uint
read_uint-big_endian w v rest h =
    let e : read_bytes w (big_endian w v ++ rest) ≡ ok (big_endian w v, rest) =
      subst (λ k. read_bytes k (big_endian w v ++ rest) ≡ ok (big_endian w v, rest))
        (length-big_endian w v) (read_bytes-append (big_endian w v) rest) in
    rw (e, unpack_from-big_endian w v h) refl
