-- ===== src/Utils/MessagePack/Tags.antt =====
-- The reader behind the tags of texts, bytes, lists and dictionaries.
use xianyu_manager.Utils.MessagePack.Reads.{big_endian, read_uint-big_endian}
use xianyu_manager.Utils.MessagePack.Encode.{array_tag, map_tag, sized_tag, text_tag}
use xianyu_manager.Utils.MessagePack.{
  Read, Value, decode_value, dispatch, read_byte, read_string, sized, array_of, map_of,
  dispatch_high, bytes_of,
}
use xianyu_manager.Prelude.{
  ◌%◌, ◌+◌, ◌++◌, ◌<◌, Bool, Bool-cases, List, ◌^◌, ap, arith, inl, inr, ltb, ltb→lt, refl, suc, ℕ,
  ◌∙◌, ◌≡◌, ◌≤◌,
}

module _ (feq : Value → Value → Bool) (f : ℕ) (rest : List ℕ) where
  sized-big_endian :
      (w n : ℕ) (body : ℕ → List ℕ → Read Value)
      → n < 256 ^ w
      → sized feq (decode_value feq f) w body (big_endian w n ++ rest) ≡ body n rest
  unfolding sized
  sized-big_endian w n body h = rw (read_uint-big_endian w n rest h) refl

  -- The formats that hold a size in the tag's low bits.
  dispatch_text :
      (b : ℕ)
      → 0xA0 ≤ b
      → b ≤ 0xBF
      → dispatch feq (decode_value feq f) b rest ≡ read_string (b % 32) rest
  unfolding dispatch
  dispatch_text b lo hi = ground arith

  dispatch_array :
      (b : ℕ)
      → 0x90 ≤ b
      → b ≤ 0x9F
      → dispatch feq (decode_value feq f) b rest ≡ array_of feq (decode_value feq f) (b % 16) rest
  unfolding dispatch
  dispatch_array b lo hi = ground arith

  dispatch_map :
      (b : ℕ)
      → 0x80 ≤ b
      → b ≤ 0x8F
      → dispatch feq (decode_value feq f) b rest ≡ map_of feq (decode_value feq f) (b % 16) rest
  unfolding dispatch
  dispatch_map b lo hi = ground arith

  fixtext :
      (n : ℕ) → n < 32 → dispatch feq (decode_value feq f) (0xA0 + n) rest ≡ read_string n rest
  fixtext n h =
      dispatch_text (0xA0 + n) (omega arith) (omega arith)
      ∙ ap (λ k. read_string k rest) (omega arith)

  fixarray :
      (n : ℕ)
      → n < 16
      → dispatch feq (decode_value feq f) (0x90 + n) rest ≡ array_of feq (decode_value feq f) n rest
  fixarray n h =
      dispatch_array (0x90 + n) (omega arith) (omega arith)
      ∙ ap (λ k. array_of feq (decode_value feq f) k rest) (omega arith)

  fixmap :
      (n : ℕ)
      → n < 16
      → dispatch feq (decode_value feq f) (0x80 + n) rest ≡ map_of feq (decode_value feq f) n rest
  fixmap n h =
      dispatch_map (0x80 + n) (omega arith) (omega arith)
      ∙ ap (λ k. map_of feq (decode_value feq f) k rest) (omega arith)

  -- A size below 2 ^ 32 behind the tags of one, two or four bytes.
  pub decode_value-text_tag :
      (n : ℕ) → n < 2 ^ 32 → decode_value feq (suc f) (text_tag n ++ rest) ≡ read_string n rest
  unfolding decode_value read_byte text_tag
  decode_value-text_tag n h = elim (Bool-cases (ltb n 32)) [
    | inl a ↦ rw a (fixtext n (ltb→lt n 32 a))
    | inr a ↦ elim (Bool-cases (ltb n 256)) [
      | inl b ↦
          rw (a, b)
            (unfold dispatch dispatch_high in sized-big_endian 1 n read_string (ltb→lt n 256 b))
      | inr b ↦ elim (Bool-cases (ltb n 65536)) [
        | inl c ↦
            rw (a, b, c)
              (unfold dispatch dispatch_high in sized-big_endian 2 n read_string (ltb→lt n 65536 c))
        | inr c ↦ rw (a, b, c) (unfold dispatch dispatch_high in sized-big_endian 4 n read_string h)
      ]
    ]
  ]

  pub decode_value-bin_tag :
      (n : ℕ)
      → n < 2 ^ 32
      → decode_value feq (suc f) (sized_tag 0xC4 0xC5 0xC6 n ++ rest)
        ≡ bytes_of feq (decode_value feq f) n rest
  unfolding decode_value read_byte
  decode_value-bin_tag n h = elim (Bool-cases (ltb n 256)) [
    | inl b ↦ rw b (
        unfold dispatch in
        sized-big_endian 1 n (bytes_of feq (decode_value feq f)) (ltb→lt n 256 b))
    | inr b ↦ elim (Bool-cases (ltb n 65536)) [
      | inl c ↦
          rw (b, c)
            (unfold dispatch in
              sized-big_endian 2 n (bytes_of feq (decode_value feq f)) (ltb→lt n 65536 c))
      | inr c ↦
          rw (b, c) (unfold dispatch in sized-big_endian 4 n (bytes_of feq (decode_value feq f)) h)
    ]
  ]

  pub decode_value-array_tag :
      (n : ℕ)
      → n < 2 ^ 32
      → decode_value feq (suc f) (array_tag n ++ rest) ≡ array_of feq (decode_value feq f) n rest
  unfolding decode_value read_byte array_tag
  decode_value-array_tag n h = elim (Bool-cases (ltb n 16)) [
    | inl a ↦ rw a (fixarray n (ltb→lt n 16 a))
    | inr a ↦ elim (Bool-cases (ltb n 65536)) [
      | inl c ↦
          rw (a, c)
            (unfold dispatch dispatch_high in
              sized-big_endian 2 n (array_of feq (decode_value feq f)) (ltb→lt n 65536 c))
      | inr c ↦
          rw (a, c)
            (unfold dispatch dispatch_high in
              sized-big_endian 4 n (array_of feq (decode_value feq f)) h)
    ]
  ]

  pub decode_value-map_tag :
      (n : ℕ)
      → n < 2 ^ 32
      → decode_value feq (suc f) (map_tag n ++ rest) ≡ map_of feq (decode_value feq f) n rest
  unfolding decode_value read_byte map_tag
  decode_value-map_tag n h = elim (Bool-cases (ltb n 16)) [
    | inl a ↦ rw a (fixmap n (ltb→lt n 16 a))
    | inr a ↦ elim (Bool-cases (ltb n 65536)) [
      | inl c ↦
          rw (a, c)
            (unfold dispatch dispatch_high in
              sized-big_endian 2 n (map_of feq (decode_value feq f)) (ltb→lt n 65536 c))
      | inr c ↦
          rw (a, c)
            (unfold dispatch dispatch_high in
              sized-big_endian 4 n (map_of feq (decode_value feq f)) h)
    ]
  ]
