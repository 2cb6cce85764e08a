-- ===== src/Utils/MessagePack/Examples.antt =====
-- A message that is decoded, the exceptions, and the theorem at a value with every kind of part.
use xianyu_manager.Utils.MessagePack.Utf8.{is_utf8}
use xianyu_manager.Utils.MessagePack.Encode.{encode}
use xianyu_manager.Utils.MessagePack.Fuel.{decode-ne-out_of_fuel}
use xianyu_manager.Utils.MessagePack.RoundTrip.{decode-encode}
use xianyu_manager.Utils.MessagePack.{
  Value, array, bad_utf8, bool, decode, dict, done, end, err, int, item, nil, ok, out_of_fuel, pair,
  text, unexpected_end, unhashable, unknown_format,
}
use xianyu_manager.Prelude.{
  ◌++◌, Bool, List, [], arith, false, negsuc, pos, refl, true, ℕ, ◌∷◌, ◌≡◌, ◌≢◌,
}

abbrev no_floats : Value → Value → Bool
no_floats _ _ = false

-- The dictionary {"a": 1, 1: [None, True, -1]}.
abbrev message : List ℕ
message = 0x82 ∷ 0xA1 ∷ 0x61 ∷ 0x01 ∷ 0x01 ∷ 0x93 ∷ 0xC0 ∷ 0xC3 ∷ 0xFF ∷ []

abbrev value : Value
value = dict (
    pair (text (0x61 ∷ [])) (int (pos 1))
      (pair (int (pos 1)) (array (item nil (item (bool true) (item (int (negsuc 0)) done)))) end))

decodes : decode no_floats message ≡ ok value
unfolding decode
decodes = refl

-- A list is no key, a byte is missing, and 0xC1 is no format.
fails :
    (decode no_floats (0x81 ∷ 0x90 ∷ 0x01 ∷ []) ≡ err unhashable)
    × (decode no_floats (0xA2 ∷ 0x61 ∷ []) ≡ err unexpected_end)
    × (decode no_floats (0xC1 ∷ []) ≡ err (unknown_format 0xC1))
    × (decode no_floats (0xA1 ∷ 0xFF ∷ []) ≡ err bad_utf8)
unfolding decode
fails = (refl, refl, refl, refl)

decode-encode_example : decode no_floats (encode value ++ 7 ∷ []) ≡ ok value
unfolding is_utf8
decode-encode_example = decode-encode no_floats value (7 ∷ []) (ground arith)

decode-ne-out_of_fuel_example : decode no_floats message ≢ err out_of_fuel
decode-ne-out_of_fuel_example = decode-ne-out_of_fuel no_floats message
