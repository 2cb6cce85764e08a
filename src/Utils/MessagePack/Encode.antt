-- ===== src/Utils/MessagePack/Encode.antt =====
-- The MessagePack format from the writer's side: the shortest encoding of each value. It is not in
-- the program, which only reads; it is what the reader is held against.
use xianyu_manager.Utils.MessagePack.Utf8.{is_utf8}
use xianyu_manager.Utils.MessagePack.Reads.{big_endian}
use xianyu_manager.Utils.MessagePack.{
  Items, Pairs, Value, array, bin, bool, dict, done, end, float32, float64, int, is_hashable, item,
  nil, pair, same_key, text,
}
use xianyu_manager.Prelude.{
  ◌+◌, ◌++◌, ◌-◌, ◌<◌, Bool, List, [], ◌^◌, false, if◌then◌else◌, length, ltb, negsuc, pos, suc,
  true, ℕ, ℤ, ◌∷◌, ◌≡◌,
}

-- A tag with a size of one, two or four bytes; `none` is a format that the value does not have.
abbrev pub sized_tag : ℕ → ℕ → ℕ → ℕ → List ℕ
sized_tag tag8 tag16 tag32 n =
    if ltb n 256
    then tag8 ∷ big_endian 1 n
    else if ltb n 65536
    then tag16 ∷ big_endian 2 n
    else tag32 ∷ big_endian 4 n

unfoldable pub encode_int : ℤ → List ℕ
encode_int (pos n) =
    if ltb n 128
    then n ∷ []
    else if ltb n 256
    then 0xCC ∷ big_endian 1 n
    else if ltb n 65536
    then 0xCD ∷ big_endian 2 n
    else if ltb n 4294967296
    then 0xCE ∷ big_endian 4 n
    else 0xCF ∷ big_endian 8 n
encode_int (negsuc n) =
    if ltb n 32
    then (255 - n) ∷ []
    else if ltb n 128
    then 0xD0 ∷ big_endian 1 (255 - n)
    else if ltb n 32768
    then 0xD1 ∷ big_endian 2 (65535 - n)
    else if ltb n 2147483648
    then 0xD2 ∷ big_endian 4 (4294967295 - n)
    else 0xD3 ∷ big_endian 8 (18446744073709551615 - n)

unfoldable pub text_tag : ℕ → List ℕ
text_tag n = if ltb n 32 then (0xA0 + n) ∷ [] else sized_tag 0xD9 0xDA 0xDB n

unfoldable pub array_tag : ℕ → List ℕ
array_tag n =
    if ltb n 16
    then (0x90 + n) ∷ []
    else if ltb n 65536
    then 0xDC ∷ big_endian 2 n
    else 0xDD ∷ big_endian 4 n

unfoldable pub map_tag : ℕ → List ℕ
map_tag n =
    if ltb n 16
    then (0x80 + n) ∷ []
    else if ltb n 65536
    then 0xDE ∷ big_endian 2 n
    else 0xDF ∷ big_endian 4 n

abbrev pub count_items : Items → ℕ
count_items done = 0
count_items (item _ vs) = suc (count_items vs)

abbrev pub count_pairs : Pairs → ℕ
count_pairs end = 0
count_pairs (pair _ _ p) = suc (count_pairs p)

unfoldable mutual
  unfolding encode_int text_tag array_tag map_tag

  pub encode : Value → List ℕ
  encode nil = 0xC0 ∷ []
  encode (bool false) = 0xC2 ∷ []
  encode (bool true) = 0xC3 ∷ []
  encode (int i) = encode_int i
  encode (float32 v) = 0xCA ∷ big_endian 4 v
  encode (float64 v) = 0xCB ∷ big_endian 8 v
  encode (text bs) = text_tag (length bs) ++ bs
  encode (bin bs) = sized_tag 0xC4 0xC5 0xC6 (length bs) ++ bs
  encode (array vs) = array_tag (count_items vs) ++ encode_items vs
  encode (dict p) = map_tag (count_pairs p) ++ encode_pairs p

  pub encode_items : Items → List ℕ
  encode_items done = []
  encode_items (item v vs) = encode v ++ encode_items vs

  pub encode_pairs : Pairs → List ℕ
  encode_pairs end = []
  encode_pairs (pair k v p) = encode k ++ (encode v ++ encode_pairs p)

abbrev pub IntFits : ℤ → Type 0
IntFits (pos n) = n < 2 ^ 64
IntFits (negsuc n) = n < 2 ^ 63

-- No earlier key of the dictionary is equal to the key.
abbrev pub IsNewKey : (Value → Value → Bool) → Value → Pairs → Type 0
IsNewKey feq k end = Unit
IsNewKey feq k (pair j _ p) = (same_key feq j k ≡ false) × IsNewKey feq k p

abbrev pub add_pair : Value → Value → Pairs → Pairs
add_pair k v end = pair k v end
add_pair k v (pair j w p) = pair j w (add_pair k v p)

-- The values that have an encoding: numbers and sizes in range, texts in UTF-8, and dictionaries with
-- hashable keys no two of which are equal, which every Python `dict` has.
abbrev mutual
  pub IsEncodable : (Value → Value → Bool) → Value → Type 0
  IsEncodable feq nil = Unit
  IsEncodable feq (bool _) = Unit
  IsEncodable feq (int i) = IntFits i
  IsEncodable feq (float32 v) = v < 2 ^ 32
  IsEncodable feq (float64 v) = v < 2 ^ 64
  IsEncodable feq (text bs) = (is_utf8 bs ≡ true) × (length bs < 2 ^ 32)
  IsEncodable feq (bin bs) = length bs < 2 ^ 32
  IsEncodable feq (array vs) = (count_items vs < 2 ^ 32) × AreEncodable feq vs
  IsEncodable feq (dict p) = (count_pairs p < 2 ^ 32) × IsDict feq end p

  pub AreEncodable : (Value → Value → Bool) → Items → Type 0
  AreEncodable feq done = Unit
  AreEncodable feq (item v vs) = IsEncodable feq v × AreEncodable feq vs

  pub IsDict : (Value → Value → Bool) → Pairs → Pairs → Type 0
  IsDict feq before end = Unit
  IsDict feq before (pair k v p) =
      IsEncodable feq k
      × IsEncodable feq v
      × (is_hashable k ≡ true)
      × IsNewKey feq k before
      × IsDict feq (add_pair k v before) p
