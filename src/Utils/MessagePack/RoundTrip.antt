-- ===== src/Utils/MessagePack/RoundTrip.antt =====
-- The reader returns what the writer was given, and leaves what follows it.
use xianyu_manager.Utils.MessagePack.Numbers.{decode_value-neg, decode_value-nonneg}
use xianyu_manager.Utils.MessagePack.Tags.{decode_value-array_tag, decode_value-map_tag}
use xianyu_manager.Utils.MessagePack.Pieces.{
  append_pairs, append_pairs-add_pair, append_pairs-end, array_tag-pos, bin_back, constants_back,
  encode-pos, float32_back, float64_back, length-tagged, map_tag-pos, put-new, text_back,
}
use xianyu_manager.Utils.MessagePack.{
  Items, Pairs, Value, array, array_of, bin, bool, decode, decode_array, decode_map, decode_value,
  dict, done, end, float32, float64, int, item, map_of, nil, ok, pair, text,
}
use xianyu_manager.Utils.MessagePack.Encode.{
  AreEncodable, IsDict, IsEncodable, add_pair, array_tag, count_items, count_pairs, encode,
  encode_items, encode_pairs, map_tag,
}
use xianyu_manager.Prelude.{
  ◌++◌, Bool, List, append_assoc, arith, false, length, length-append, negsuc, pos, refl, suc, true,
  zero, ℕ, ◌≡◌, ◌≤◌,
}

module _ (feq : Value → Value → Bool) where
  mutual
    unfolding encode encode_items encode_pairs decode_array decode_map array_of map_of append_pairs

    value_back :
        (v : Value) (f : ℕ) (rest : List ℕ)
        → IsEncodable feq v
        → length (encode v) ≤ suc f
        → decode_value feq (suc f) (encode v ++ rest) ≡ ok (v, rest)
    value_back nil f rest h le = (constants_back feq f rest).0
    value_back (bool false) f rest h le = (constants_back feq f rest).1
    value_back (bool true) f rest h le = (constants_back feq f rest).2
    value_back (int (pos n)) f rest h le = decode_value-nonneg feq f rest n h
    value_back (int (negsuc n)) f rest h le = decode_value-neg feq f rest n h
    value_back (float32 v) f rest h le = float32_back feq f v rest h
    value_back (float64 v) f rest h le = float64_back feq f v rest h
    value_back (text bs) f rest h le = text_back feq f bs rest h
    value_back (bin bs) f rest h le = bin_back feq f bs rest h
    value_back (array vs) f rest h le =
        rw
          (
            append_assoc (array_tag (count_items vs)) (encode_items vs) rest,
            decode_value-array_tag feq f (encode_items vs ++ rest) (count_items vs) h.0,
            items_back vs f rest h.1 (
                length-tagged (array_tag (count_items vs)) (encode_items vs) f
                  (array_tag-pos (count_items vs)) le),
          )
          refl
    value_back (dict p) f rest h le =
        rw
          (
            append_assoc (map_tag (count_pairs p)) (encode_pairs p) rest,
            decode_value-map_tag feq f (encode_pairs p ++ rest) (count_pairs p) h.0,
            pairs_back p end f rest h.1 (
                length-tagged (map_tag (count_pairs p)) (encode_pairs p) f
                  (map_tag-pos (count_pairs p)) le),
          )
          refl

    items_back :
        (vs : Items) (f : ℕ) (rest : List ℕ)
        → AreEncodable feq vs
        → length (encode_items vs) ≤ f
        → decode_array feq (decode_value feq f) (count_items vs) (encode_items vs ++ rest)
          ≡ ok (vs, rest)
    items_back done f rest h le = refl
    items_back (item v vs) zero rest h le =
        absurd (omega (arith, encode-pos v, length-append (encode v) (encode_items vs)))
    items_back (item v vs) (suc f) rest h le =
        rw
          (
            append_assoc (encode v) (encode_items vs) rest,
            value_back v f (encode_items vs ++ rest) h.0
                (omega (arith, length-append (encode v) (encode_items vs))),
            items_back vs (suc f) rest h.1
                (omega (arith, length-append (encode v) (encode_items vs))),
          )
          refl

    pairs_back :
        (p before : Pairs) (f : ℕ) (rest : List ℕ)
        → IsDict feq before p
        → length (encode_pairs p) ≤ f
        → decode_map feq (decode_value feq f) (count_pairs p) before (encode_pairs p ++ rest)
          ≡ ok (append_pairs before p, rest)
    pairs_back end before f rest h le = rw (append_pairs-end before) refl
    pairs_back (pair k v p) before zero rest h le =
        absurd (omega (arith, encode-pos k, length-append (encode k) (encode v ++ encode_pairs p)))
    pairs_back (pair k v p) before (suc f) rest h le =
        rw
          (
            append_assoc (encode k) (encode v ++ encode_pairs p) rest,
            append_assoc (encode v) (encode_pairs p) rest,
            value_back k f (encode v ++ (encode_pairs p ++ rest)) h.0 (
                omega (
                  arith,
                  length-append (encode k) (encode v ++ encode_pairs p),
                  length-append (encode v) (encode_pairs p),
                )),
            value_back v f (encode_pairs p ++ rest) h.1 (
                omega (
                  arith,
                  length-append (encode k) (encode v ++ encode_pairs p),
                  length-append (encode v) (encode_pairs p),
                )),
            h.2,
            put-new feq k v before h.3,
            pairs_back p (add_pair k v before) (suc f) rest h.4 (
                omega (
                  arith,
                  length-append (encode k) (encode v ++ encode_pairs p),
                  length-append (encode v) (encode_pairs p),
                )),
          )
          (rw (append_pairs-add_pair before k v p) refl)

-- Decoding what the writer made of a value, whatever bytes follow, returns the value: a number or a
-- size in range, a text in UTF-8, a dictionary with hashable keys no two of which are equal, and
-- lists and dictionaries of such.
pub decode-encode :
    (feq : Value → Value → Bool) (v : Value) (rest : List ℕ)
    → IsEncodable feq v
    → decode feq (encode v ++ rest) ≡ ok v
unfolding decode
decode-encode feq v rest h =
    rw
      (value_back feq v (length (encode v ++ rest)) rest h
        (omega (arith, length-append (encode v) rest)))
      refl
