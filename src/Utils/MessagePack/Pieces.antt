-- ===== src/Utils/MessagePack/Pieces.antt =====
-- Reading back one value without parts, and the keys of a dictionary in order.
use xianyu_manager.Utils.MessagePack.Tags.{decode_value-bin_tag, decode_value-text_tag}
use xianyu_manager.Utils.MessagePack.Reads.{big_endian, read_bytes-append, read_uint-big_endian}
use xianyu_manager.Utils.MessagePack.{
  Pairs, Value, array, bin, bool, bytes_of, decode_value, dict, dispatch, end, float32, float64,
  int, nil, ok, pair, put, read_byte, read_string, text,
}
use xianyu_manager.Utils.MessagePack.Encode.{
  IsEncodable, IsNewKey, add_pair, array_tag, count_items, count_pairs, encode, encode_int,
  encode_items, encode_pairs, map_tag, sized_tag, text_tag,
}
use xianyu_manager.Prelude.{
  ◌++◌, ◌<◌, Bool, List, ◌^◌, ap, append_assoc, arith, false, length, length-append, negsuc, pos,
  refl, suc, true, ℕ, ◌∙◌, ◌∷◌, ◌≡◌, ◌≤◌,
}

unfoldable pub append_pairs : Pairs → Pairs → Pairs
append_pairs end q = q
append_pairs (pair k v p) q = pair k v (append_pairs p q)

pub append_pairs-end : (p : Pairs) → append_pairs p end ≡ p
unfolding append_pairs
append_pairs-end end = refl
append_pairs-end (pair k v p) = ap (pair k v) (append_pairs-end p)

pub append_pairs-add_pair :
    (p : Pairs) (k v : Value) (q : Pairs)
    → append_pairs (add_pair k v p) q ≡ append_pairs p (pair k v q)
unfolding append_pairs
append_pairs-add_pair end k v q = refl
append_pairs-add_pair (pair j w p) k v q = ap (pair j w) (append_pairs-add_pair p k v q)

-- Every encoding has a tag.
pub encode-pos : (v : Value) → 1 ≤ length (encode v)
unfolding encode encode_int text_tag array_tag map_tag
encode-pos nil = omega arith
encode-pos (bool true) = omega arith
encode-pos (bool false) = omega arith
encode-pos (int (pos n)) = ground arith
encode-pos (int (negsuc n)) = ground arith
encode-pos (float32 v) = omega arith
encode-pos (float64 v) = omega arith
encode-pos (text bs) = ground (arith, length-append (text_tag (length bs)) bs)
encode-pos (bin bs) = ground (arith, length-append (sized_tag 0xC4 0xC5 0xC6 (length bs)) bs)
encode-pos (array vs) = ground (arith, length-append (array_tag (count_items vs)) (encode_items vs))
encode-pos (dict p) = ground (arith, length-append (map_tag (count_pairs p)) (encode_pairs p))

pub length-tagged :
    (tag xs : List ℕ) (f : ℕ) → 1 ≤ length tag → length (tag ++ xs) ≤ suc f → length xs ≤ f
length-tagged tag xs f h le = omega (arith, length-append tag xs)

pub text_tag-pos : (n : ℕ) → 1 ≤ length (text_tag n)
unfolding text_tag
text_tag-pos n = ground arith

pub array_tag-pos : (n : ℕ) → 1 ≤ length (array_tag n)
unfolding array_tag
array_tag-pos n = ground arith

pub map_tag-pos : (n : ℕ) → 1 ≤ length (map_tag n)
unfolding map_tag
map_tag-pos n = ground arith

module _ (feq : Value → Value → Bool) where
  -- A key that is not there goes to the end.
  pub put-new : (k v : Value) (p : Pairs) → IsNewKey feq k p → put feq k v p ≡ add_pair k v p
  unfolding put
  put-new k v end h = refl
  put-new k v (pair j w p) h = rw (h.0, put-new k v p h.1) refl

  pub text_back :
      (f : ℕ) (bs rest : List ℕ)
      → IsEncodable feq (text bs)
      → decode_value feq (suc f) ((text_tag (length bs) ++ bs) ++ rest) ≡ ok (text bs, rest)
  unfolding read_string
  text_back f bs rest h =
      rw
        (
          append_assoc (text_tag (length bs)) bs rest,
          decode_value-text_tag feq f (bs ++ rest) (length bs) h.1,
          read_bytes-append bs rest,
          h.0,
        )
        refl

  pub bin_back :
      (f : ℕ) (bs rest : List ℕ)
      → length bs < 2 ^ 32
      → decode_value feq (suc f) ((sized_tag 0xC4 0xC5 0xC6 (length bs) ++ bs) ++ rest)
        ≡ ok (bin bs, rest)
  unfolding bytes_of
  bin_back f bs rest h =
      rw (append_assoc (sized_tag 0xC4 0xC5 0xC6 (length bs)) bs rest) (
        decode_value-bin_tag feq f (bs ++ rest) (length bs) h ∙ rw (read_bytes-append bs rest) refl)

  pub float32_back :
      (f v : ℕ) (rest : List ℕ)
      → v < 2 ^ 32
      → decode_value feq (suc f) (0xCA ∷ big_endian 4 v ++ rest) ≡ ok (float32 v, rest)
  unfolding decode_value read_byte dispatch
  float32_back f v rest h = rw (read_uint-big_endian 4 v rest h) refl

  pub float64_back :
      (f v : ℕ) (rest : List ℕ)
      → v < 2 ^ 64
      → decode_value feq (suc f) (0xCB ∷ big_endian 8 v ++ rest) ≡ ok (float64 v, rest)
  unfolding decode_value read_byte dispatch
  float64_back f v rest h = rw (read_uint-big_endian 8 v rest h) refl

  pub constants_back :
      (f : ℕ) (rest : List ℕ)
      → (decode_value feq (suc f) (0xC0 ∷ rest) ≡ ok (nil, rest))
        × (decode_value feq (suc f) (0xC2 ∷ rest) ≡ ok (bool false, rest))
        × (decode_value feq (suc f) (0xC3 ∷ rest) ≡ ok (bool true, rest))
  unfolding decode_value read_byte dispatch
  constants_back f rest = (refl, refl, refl)
