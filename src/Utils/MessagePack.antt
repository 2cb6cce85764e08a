-- ===== src/Utils/MessagePack.antt =====
-- utils/xianyu_utils.py: `MessagePackDecoder`. Its state, `data` and `pos`, is the list of the bytes
-- from `pos` on. An exception is an `err`. A `str` is its UTF-8 bytes, and a float the bits that
-- `struct.unpack` reads. Python's limit on the depth of calls is not modelled: `fuel` bounds the
-- depth, and a fuel above the number of bytes is never used up.
pub mod Utf8
pub mod Reads
pub mod Fuel
pub mod Encode
pub mod Numbers
pub mod Tags
pub mod Pieces
pub mod RoundTrip
mod Examples
use xianyu_manager.Prelude.{
  ◌*◌, ◌+◌, ◌-◌, Bool, List, [], ◌^◌, false, if◌then◌else◌, ltb, suc, true, zero, ℕ, ℤ, ◌∷◌, pos,
  negsuc, ◌%◌, ◌&&◌, ◌==ℕ◌, leb, length,
}
use Utf8.{is_utf8}

pub data Error : Type 0 where
  unexpected_end bad_utf8 unhashable out_of_fuel : Error
  unknown_format : ℕ → Error

mutual
  pub data Value : Type 0 where
    nil : Value
    bool : Bool → Value
    int : ℤ → Value
    float32 float64 : ℕ → Value
    text bin : List ℕ → Value
    array : Items → Value
    dict : Pairs → Value

  pub data Items : Type 0 where
    done : Items
    item : Value → Items → Items

  -- The entries of a `dict` in insertion order.
  pub data Pairs : Type 0 where
    end : Pairs
    pair : Value → Value → Pairs → Pairs

pub data Result {ℓ} (A : Type ℓ) : Type ℓ where
  ok : A → Result A
  err : Error → Result A

infixl 5 ◌>>=◌
abbrev pub ◌>>=◌ {ℓ κ} : {A : Type ℓ} {B : Type κ} → Result A → (A → Result B) → Result B
ok a >>= f = f a
err e >>= f = err e

-- What a read returns: a value, and the bytes behind it.
abbrev pub Read {ℓ} : Type ℓ → Type ℓ
Read A = Result (A × List ℕ)

pub read_byte : List ℕ → Read ℕ
read_byte [] = err unexpected_end
read_byte (b ∷ bs) = ok (b, bs)

pub read_bytes : ℕ → List ℕ → Read (List ℕ)
read_bytes zero bs = ok ([], bs)
read_bytes (suc n) [] = err unexpected_end
read_bytes (suc n) (b ∷ bs) = do (xs, rest) ← read_bytes n bs; ok (b ∷ xs, rest)

-- The big-endian number that `struct.unpack(">H")` and its kin read.
pub unpack_from : ℕ → List ℕ → ℕ
unpack_from acc [] = acc
unpack_from acc (b ∷ bs) = unpack_from (acc * 256 + b) bs

-- An unsigned number of `width` bytes, and a signed one in two's complement.
pub read_uint : ℕ → List ℕ → Read ℕ
unfolding read_bytes unpack_from
read_uint width bs = do (xs, rest) ← read_bytes width bs; ok (unpack_from 0 xs, rest)

abbrev pub signed : ℕ → ℕ → ℤ
signed bits v = if ltb v (2 ^ (bits - 1)) then pos v else negsuc (2 ^ bits - 1 - v)

pub read_string : ℕ → List ℕ → Read Value
unfolding read_bytes is_utf8
read_string size bs = do
  (xs, rest) ← read_bytes size bs
  if is_utf8 xs then ok (text xs, rest) else err bad_utf8

abbrev pub is_hashable : Value → Bool
is_hashable (array _) = false
is_hashable (dict _) = false
is_hashable _ = true

abbrev pub same_bytes : List ℕ → List ℕ → Bool
same_bytes [] [] = true
same_bytes (a ∷ as') (b ∷ bs) = a ==ℕ b && same_bytes as' bs
same_bytes _ _ = false

abbrev pub same_int : ℤ → ℤ → Bool
same_int (pos a) (pos b) = a ==ℕ b
same_int (negsuc a) (negsuc b) = a ==ℕ b
same_int _ _ = false

abbrev pub int_of : Bool → ℤ
int_of true = pos 1
int_of false = pos 0

-- The decoder, over the comparison of two numbers of which one is a float.
module _ (float_eq : Value → Value → Bool) where
  -- Equality of hashable keys: `True == 1`, and a `str` is never equal to `bytes`.
  abbrev pub same_key : Value → Value → Bool
  same_key nil nil = true
  same_key (bool a) (bool b) = same_int (int_of a) (int_of b)
  same_key (bool a) (int b) = same_int (int_of a) b
  same_key (int a) (bool b) = same_int a (int_of b)
  same_key (int a) (int b) = same_int a b
  same_key (text a) (text b) = same_bytes a b
  same_key (bin a) (bin b) = same_bytes a b
  same_key (float32 a) b = float_eq (float32 a) b
  same_key (float64 a) b = float_eq (float64 a) b
  same_key a (float32 b) = float_eq a (float32 b)
  same_key a (float64 b) = float_eq a (float64 b)
  same_key _ _ = false

  -- `result[key] = value`
  pub put : Value → Value → Pairs → Pairs
  put k v end = pair k v end
  put k v (pair j w p) = if same_key j k then pair j v p else pair j w (put k v p)

  module _ (decode_value : List ℕ → Read Value) where
    pub decode_array : ℕ → List ℕ → Read Items
    decode_array zero bs = ok (done, bs)
    decode_array (suc n) bs = do
      (v, rest) ← decode_value bs
      (vs, rest') ← decode_array n rest
      ok (item v vs, rest')

    pub decode_map : ℕ → Pairs → List ℕ → Read Pairs
    unfolding put
    decode_map zero result bs = ok (result, bs)
    decode_map (suc n) result bs = do
      (key, rest) ← decode_value bs
      (value, rest') ← decode_value rest
      if is_hashable key then decode_map n (put key value result) rest' else err unhashable

    pub array_of : ℕ → List ℕ → Read Value
    unfolding decode_array
    array_of size bs = do (vs, rest) ← decode_array size bs; ok (array vs, rest)

    pub map_of : ℕ → List ℕ → Read Value
    unfolding decode_map
    map_of size bs = do (p, rest) ← decode_map size end bs; ok (dict p, rest)

    uint_of : ℕ → List ℕ → Read Value
    unfolding read_uint
    uint_of width bs = do (v, rest) ← read_uint width bs; ok (int (pos v), rest)

    int_signed : ℕ → List ℕ → Read Value
    unfolding read_uint
    int_signed width bs = do (v, rest) ← read_uint width bs; ok (int (signed (8 * width) v), rest)

    pub bytes_of : ℕ → List ℕ → Read Value
    unfolding read_bytes
    bytes_of size bs = do (xs, rest) ← read_bytes size bs; ok (bin xs, rest)

    -- A read of a size, and what it is the size of.
    sized : ℕ → (ℕ → List ℕ → Read Value) → List ℕ → Read Value
    unfolding read_uint
    sized width body bs = do (size, rest) ← read_uint width bs; body size rest

    -- The formats of one byte's value, from `uint 8` on.
    dispatch_high : ℕ → List ℕ → Read Value
    unfolding array_of map_of uint_of int_signed sized read_string
    dispatch_high b bs =
        if b ==ℕ 0xCC
        then uint_of 1 bs
        else if b ==ℕ 0xCD
        then uint_of 2 bs
        else if b ==ℕ 0xCE
        then uint_of 4 bs
        else if b ==ℕ 0xCF
        then uint_of 8 bs
        else if b ==ℕ 0xD0
        then int_signed 1 bs
        else if b ==ℕ 0xD1
        then int_signed 2 bs
        else if b ==ℕ 0xD2
        then int_signed 4 bs
        else if b ==ℕ 0xD3
        then int_signed 8 bs
        else if b ==ℕ 0xD9
        then sized 1 read_string bs
        else if b ==ℕ 0xDA
        then sized 2 read_string bs
        else if b ==ℕ 0xDB
        then sized 4 read_string bs
        else if b ==ℕ 0xDC
        then sized 2 array_of bs
        else if b ==ℕ 0xDD
        then sized 4 array_of bs
        else if b ==ℕ 0xDE
        then sized 2 map_of bs
        else if b ==ℕ 0xDF
        then sized 4 map_of bs
        else if leb 0xE0 b
        then ok (int (negsuc (0x100 - b - 1)), bs)
        else err (unknown_format b)

    pub dispatch : ℕ → List ℕ → Read Value
    unfolding dispatch_high bytes_of
    dispatch b bs =
        if leb b 0x7F
        then ok (int (pos b), bs)
        else if leb 0x80 b && leb b 0x8F
        then map_of (b % 16) bs
        else if leb 0x90 b && leb b 0x9F
        then array_of (b % 16) bs
        else if leb 0xA0 b && leb b 0xBF
        then read_string (b % 32) bs
        else if b ==ℕ 0xC0
        then ok (nil, bs)
        else if b ==ℕ 0xC2
        then ok (bool false, bs)
        else if b ==ℕ 0xC3
        then ok (bool true, bs)
        else if b ==ℕ 0xC4
        then sized 1 bytes_of bs
        else if b ==ℕ 0xC5
        then sized 2 bytes_of bs
        else if b ==ℕ 0xC6
        then sized 4 bytes_of bs
        else if b ==ℕ 0xCA
        then (do (v, rest) ← read_uint 4 bs; ok (float32 v, rest))
        else if b ==ℕ 0xCB
        then (do (v, rest) ← read_uint 8 bs; ok (float64 v, rest))
        else dispatch_high b bs

  pub decode_value : ℕ → List ℕ → Read Value
  unfolding dispatch read_byte
  decode_value zero bs = err out_of_fuel
  decode_value (suc fuel) bs = do
    (format_byte, rest) ← read_byte bs
    dispatch (decode_value fuel) format_byte rest

  pub decode : List ℕ → Result Value
  unfolding decode_value
  decode bs = do (v, _) ← decode_value (suc (length bs)) bs; ok v
