-- ===== src/Utils/MessagePack/Fuel.antt =====
-- The fuel is enough: every read leaves no more bytes than it was given, and a call for a value has at
-- least one byte fewer than its caller.

-- A read that leaves `n` bytes at most, or fails, but not for want of fuel.
use xianyu_manager.Utils.MessagePack.Utf8.{is_utf8}
use xianyu_manager.Prelude.{
  Bool, List, [], arith, false, if◌then◌else◌, length, suc, true, zero, ℕ, ◌∷◌, ◌≤◌, ◌<◌, ◌≡◌, ◌≢◌,
}
use xianyu_manager.Utils.MessagePack.{
  ◌>>=◌, Pairs, Read, Value, decode_array, decode_map, is_hashable, read_bytes, read_string,
  read_uint, ok, array_of, map_of, uint_of, int_signed, bytes_of, sized, dispatch_high, err, text,
  end, unknown_format, bad_utf8, out_of_fuel, unexpected_end, unhashable, decode, decode_value,
  dispatch, read_byte, float32, float64,
}

abbrev pub Fits {ℓ} : {A : Type ℓ} → ℕ → Read A → Type 0
Fits n (ok (_, rest)) = length rest ≤ n
Fits n (err out_of_fuel) = ⊥
Fits n (err _) = Unit

module _ {ℓ κ} {A : Type ℓ} {B : Type κ} where
  Fits-bind :
      (n : ℕ) (m : Read A) (f : A × List ℕ → Read B)
      → Fits n m
      → ((a : A) (rest : List ℕ) → length rest ≤ n → Fits n (f (a, rest)))
      → Fits n (m >>= f)
  Fits-bind n (ok (a, rest)) f h k = k a rest h
  Fits-bind n (err unexpected_end) f h k = tt
  Fits-bind n (err bad_utf8) f h k = tt
  Fits-bind n (err unhashable) f h k = tt
  Fits-bind n (err out_of_fuel) f h k = elim h [ ]
  Fits-bind n (err (unknown_format b)) f h k = tt

module _ {ℓ} {A : Type ℓ} where
  Fits-if : (c : Bool) (n : ℕ) (x y : Read A) → Fits n x → Fits n y → Fits n (if c then x else y)
  Fits-if true n x y hx hy = hx
  Fits-if false n x y hx hy = hy

  Fits-le : (m n : ℕ) (r : Read A) → m ≤ n → Fits m r → Fits n r
  Fits-le m n (ok (a, rest)) le h = omega arith
  Fits-le m n (err unexpected_end) le h = tt
  Fits-le m n (err bad_utf8) le h = tt
  Fits-le m n (err unhashable) le h = tt
  Fits-le m n (err out_of_fuel) le h = h
  Fits-le m n (err (unknown_format b)) le h = tt

read_bytes-Fits : (k : ℕ) (bs : List ℕ) (n : ℕ) → length bs ≤ n → Fits n (read_bytes k bs)
unfolding read_bytes
read_bytes-Fits zero bs n le = le
read_bytes-Fits (suc k) [] n le = tt
read_bytes-Fits (suc k) (b ∷ bs) n le =
    Fits-bind n (read_bytes k bs) _ (read_bytes-Fits k bs n (omega arith)) (λ xs rest h. h)

read_uint-Fits : (w : ℕ) (bs : List ℕ) (n : ℕ) → length bs ≤ n → Fits n (read_uint w bs)
unfolding read_uint
read_uint-Fits w bs n le =
    Fits-bind n (read_bytes w bs) _ (read_bytes-Fits w bs n le) (λ xs rest h. h)

read_string-Fits : (k : ℕ) (bs : List ℕ) (n : ℕ) → length bs ≤ n → Fits n (read_string k bs)
unfolding read_string
read_string-Fits k bs n le =
    Fits-bind n (read_bytes k bs) _ (read_bytes-Fits k bs n le)
      (λ xs rest h. Fits-if (is_utf8 xs) n (ok (text xs, rest)) (err bad_utf8) h tt)

module _ (feq : Value → Value → Bool) (n : ℕ) (dv : List ℕ → Read Value)
    (dv-Fits : (bs : List ℕ) → length bs ≤ n → Fits n (dv bs)) where
  decode_array-Fits :
      (size : ℕ) (bs : List ℕ) → length bs ≤ n → Fits n (decode_array feq dv size bs)
  unfolding decode_array
  decode_array-Fits zero bs le = le
  decode_array-Fits (suc k) bs le = Fits-bind n (dv bs) _ (dv-Fits bs le) λ v rest h.
      Fits-bind n (decode_array feq dv k rest) _ (decode_array-Fits k rest h) (λ vs rest' h'. h')

  decode_map-Fits :
      (size : ℕ) (p : Pairs) (bs : List ℕ) → length bs ≤ n → Fits n (decode_map feq dv size p bs)
  unfolding decode_map
  decode_map-Fits zero p bs le = le
  decode_map-Fits (suc k) p bs le = Fits-bind n (dv bs) _ (dv-Fits bs le) λ key rest h.
      Fits-bind n (dv rest) _ (dv-Fits rest h)
        λ value rest' h'. Fits-if (is_hashable key) n _ _ (decode_map-Fits k _ rest' h') tt

  array_of-Fits : (size : ℕ) (bs : List ℕ) → length bs ≤ n → Fits n (array_of feq dv size bs)
  unfolding array_of
  array_of-Fits size bs le =
      Fits-bind n (decode_array feq dv size bs) _ (decode_array-Fits size bs le) (λ vs rest h. h)

  map_of-Fits : (size : ℕ) (bs : List ℕ) → length bs ≤ n → Fits n (map_of feq dv size bs)
  unfolding map_of
  map_of-Fits size bs le =
      Fits-bind n (decode_map feq dv size end bs) _ (decode_map-Fits size end bs le) (λ p rest h. h)

  uint_of-Fits : (w : ℕ) (bs : List ℕ) → length bs ≤ n → Fits n (uint_of feq dv w bs)
  unfolding uint_of
  uint_of-Fits w bs le = Fits-bind n (read_uint w bs) _ (read_uint-Fits w bs n le) (λ v rest h. h)

  int_signed-Fits : (w : ℕ) (bs : List ℕ) → length bs ≤ n → Fits n (int_signed feq dv w bs)
  unfolding int_signed
  int_signed-Fits w bs le =
      Fits-bind n (read_uint w bs) _ (read_uint-Fits w bs n le) (λ v rest h. h)

  bytes_of-Fits : (size : ℕ) (bs : List ℕ) → length bs ≤ n → Fits n (bytes_of feq dv size bs)
  unfolding bytes_of
  bytes_of-Fits size bs le =
      Fits-bind n (read_bytes size bs) _ (read_bytes-Fits size bs n le) (λ xs rest h. h)

  sized-Fits :
      (w : ℕ) (body : ℕ → List ℕ → Read Value) (bs : List ℕ)
      → ((size : ℕ) (rest : List ℕ) → length rest ≤ n → Fits n (body size rest))
      → length bs ≤ n
      → Fits n (sized feq dv w body bs)
  unfolding sized
  sized-Fits w body bs h le = Fits-bind n (read_uint w bs) _ (read_uint-Fits w bs n le) h

  string_sized-Fits : (size : ℕ) (rest : List ℕ) → length rest ≤ n → Fits n (read_string size rest)
  string_sized-Fits size rest le = read_string-Fits size rest n le

  ruleset piece_rules = (
    Fits-if, array_of-Fits, map_of-Fits, uint_of-Fits, int_signed-Fits, bytes_of-Fits, sized-Fits,
    string_sized-Fits,
  )

  dispatch_high-Fits : (b : ℕ) (bs : List ℕ) → length bs ≤ n → Fits n (dispatch_high feq dv b bs)
  unfolding dispatch_high
  dispatch_high-Fits b bs le = search piece_rules depth 24

  float32-Fits :
      (bs : List ℕ) → length bs ≤ n → Fits n (do (v, rest) ← read_uint 4 bs; ok (float32 v, rest))
  float32-Fits bs le = Fits-bind n (read_uint 4 bs) _ (read_uint-Fits 4 bs n le) (λ v rest h. h)

  float64-Fits :
      (bs : List ℕ) → length bs ≤ n → Fits n (do (v, rest) ← read_uint 8 bs; ok (float64 v, rest))
  float64-Fits bs le = Fits-bind n (read_uint 8 bs) _ (read_uint-Fits 8 bs n le) (λ v rest h. h)

  pub dispatch-Fits : (b : ℕ) (bs : List ℕ) → length bs ≤ n → Fits n (dispatch feq dv b bs)
  unfolding dispatch
  dispatch-Fits b bs le =
      search (piece_rules, dispatch_high-Fits, float32-Fits, float64-Fits) depth 24

pub decode_value-Fits :
    (feq : Value → Value → Bool) (fuel : ℕ) (bs : List ℕ) (n : ℕ)
    → length bs ≤ n
    → n < fuel
    → Fits n (decode_value feq fuel bs)
unfolding decode_value read_byte
decode_value-Fits feq zero bs n le lt = absurd (omega arith)
decode_value-Fits feq (suc fuel) [] n le lt = tt
decode_value-Fits feq (suc fuel) (b ∷ bs) n le lt =
    Fits-le (length bs) n (dispatch feq (decode_value feq fuel) b bs) (omega arith) (
      dispatch-Fits feq (length bs) (decode_value feq fuel)
        (λ bs' le'. decode_value-Fits feq fuel bs' (length bs) le' (omega arith)) b bs
        (omega arith))

-- Decoding ends by a value or by one of the exceptions of the decoder, for every list of bytes: the
-- fuel, one more than the number of bytes, is never used up.
pub decode-ne-out_of_fuel :
    (feq : Value → Value → Bool) (bs : List ℕ) → decode feq bs ≢ err out_of_fuel
unfolding decode
decode-ne-out_of_fuel feq bs e =
    read_result (decode_value feq (suc (length bs)) bs)
      (decode_value-Fits feq (suc (length bs)) bs (length bs) (omega arith) (omega arith)) e
  where
    read_result :
        (r : Read Value) → Fits (length bs) r → (do (v, _) ← r; ok v) ≡ err out_of_fuel → ⊥
    read_result (ok (v, rest)) h e = cc
    read_result (err unexpected_end) h e = cc
    read_result (err bad_utf8) h e = cc
    read_result (err unhashable) h e = cc
    read_result (err out_of_fuel) h e = h
    read_result (err (unknown_format b)) h e = cc
