-- ===== src/Utils/MessagePack/Numbers.antt =====
-- The reader behind the tags of numbers.
use xianyu_manager.Utils.MessagePack.Encode.{encode_int}
use xianyu_manager.Utils.MessagePack.Reads.{big_endian, read_uint-big_endian}
use xianyu_manager.Utils.MessagePack.{
  Value, decode_value, dispatch, int, ok, read_byte, signed, uint_of, int_signed, dispatch_high,
}
use xianyu_manager.Prelude.{
  ◌*◌, ◌++◌, ◌-◌, ◌<◌, Bool, Bool-cases, List, ◌^◌, arith, inl, inr, ltb, ltb→lt, negsuc, pos, refl,
  suc, ℕ, ◌≡◌, ap, le→ltb, ◌∙◌, ◌≤◌,
}

module _ (feq : Value → Value → Bool) (f : ℕ) (rest : List ℕ) where
  uint_of-big_endian :
      (w n : ℕ)
      → n < 256 ^ w
      → uint_of feq (decode_value feq f) w (big_endian w n ++ rest) ≡ ok (int (pos n), rest)
  unfolding uint_of
  uint_of-big_endian w n h = rw (read_uint-big_endian w n rest h) refl

  int_signed-big_endian :
      (w v : ℕ)
      → v < 256 ^ w
      → int_signed feq (decode_value feq f) w (big_endian w v ++ rest)
        ≡ ok (int (signed (8 * w) v), rest)
  unfolding int_signed
  int_signed-big_endian w v h = rw (read_uint-big_endian w v rest h) refl

  fixint : (n : ℕ) → n < 128 → dispatch feq (decode_value feq f) n rest ≡ ok (int (pos n), rest)
  unfolding dispatch
  fixint n h = ground arith

  negative_fixint :
      (n : ℕ)
      → n < 32
      → dispatch feq (decode_value feq f) (255 - n) rest ≡ ok (int (negsuc n), rest)
  unfolding dispatch dispatch_high
  negative_fixint n h = ground arith

  pub decode_value-nonneg :
      (n : ℕ)
      → n < 2 ^ 64
      → decode_value feq (suc f) (encode_int (pos n) ++ rest) ≡ ok (int (pos n), rest)
  unfolding decode_value read_byte encode_int
  decode_value-nonneg n h = elim (Bool-cases (ltb n 128)) [
    | inl a ↦ rw a (fixint n (ltb→lt n 128 a))
    | inr a ↦ elim (Bool-cases (ltb n 256)) [
      | inl b ↦ rw (a, b) (unfold dispatch dispatch_high in uint_of-big_endian 1 n (ltb→lt n 256 b))
      | inr b ↦ elim (Bool-cases (ltb n 65536)) [
        | inl c ↦
            rw (a, b, c)
              (unfold dispatch dispatch_high in uint_of-big_endian 2 n (ltb→lt n 65536 c))
        | inr c ↦ elim (Bool-cases (ltb n 4294967296)) [
          | inl d ↦
              rw (a, b, c, d)
                (unfold dispatch dispatch_high in uint_of-big_endian 4 n (ltb→lt n 4294967296 d))
          | inr d ↦ rw (a, b, c, d) (unfold dispatch dispatch_high in uint_of-big_endian 8 n h)
        ]
      ]
    ]
  ]

  -- The two's complement of a negative number that fits.
  signed-complement :
      (bits n v : ℕ)
      → v ≡ 2 ^ bits - 1 - n
      → 2 ^ (bits - 1) ≤ v
      → n < 2 ^ bits
      → signed bits v ≡ negsuc n
  signed-complement bits n v e half fits =
      rw (le→ltb v (2 ^ (bits - 1)) half) (ap negsuc (omega arith))

  pub decode_value-neg :
      (n : ℕ)
      → n < 2 ^ 63
      → decode_value feq (suc f) (encode_int (negsuc n) ++ rest) ≡ ok (int (negsuc n), rest)
  unfolding decode_value read_byte encode_int
  decode_value-neg n h = elim (Bool-cases (ltb n 32)) [
    | inl a ↦ rw a (negative_fixint n (ltb→lt n 32 a))
    | inr a ↦ elim (Bool-cases (ltb n 128)) [
      | inl b ↦
          rw (a, b)
            (unfold dispatch dispatch_high in
              int_signed-big_endian 1 (255 - n) (omega arith)
              ∙ ap (λ i. ok (int i, rest))
                  (signed-complement 8 n (255 - n) refl (ground arith) (ground arith)))
      | inr b ↦ elim (Bool-cases (ltb n 32768)) [
        | inl c ↦
            rw (a, b, c)
              (unfold dispatch dispatch_high in
                int_signed-big_endian 2 (65535 - n) (omega arith)
                ∙ ap (λ i. ok (int i, rest))
                    (signed-complement 16 n (65535 - n) refl (ground arith) (ground arith)))
        | inr c ↦ elim (Bool-cases (ltb n 2147483648)) [
          | inl d ↦
              rw (a, b, c, d)
                (unfold dispatch dispatch_high in
                  int_signed-big_endian 4 (4294967295 - n) (omega arith)
                  ∙ ap (λ i. ok (int i, rest))
                      (signed-complement 32 n (4294967295 - n) refl (ground arith) (ground arith)))
          | inr d ↦
              rw (a, b, c, d)
                (unfold dispatch dispatch_high in
                  int_signed-big_endian 8 (18446744073709551615 - n) (omega arith)
                  ∙ ap (λ i. ok (int i, rest))
                      (signed-complement 64 n (18446744073709551615 - n) refl (omega arith)
                        (omega arith)))
        ]
      ]
    ]
  ]
