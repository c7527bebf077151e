-- ===== src/Signing/Values.antt =====
-- The values given to the encoder, and the words that they become.
use pranklin.Base.{
  ℕ, map, ◌^◌, ◌<◌, ◌≡◌, ◌∙◌, refl, ap, sym, Bool, true, false, List, [], ◌∷◌, length, arith, ◌==◌,
  if◌then◌else◌, All,
}
use pranklin.Types.Transaction.{TxPayload}
use pranklin.Signing.Defs.{
  Primitives, PrimitiveLaws, Eip712Value, added_values, add_values, encode_as_bytes32, flag_code,
  zeros,
}
use pranklin.Signing.Bytes.{append_inj}
use pranklin.Signing.Payloads.{kind}

module _ (p : Primitives) where
  -- Values whose numbers fit U256 and whose addresses have 20 bytes.
  abbrev pub IsEncodable : Eip712Value → Type 0
  IsEncodable (Eip712Value.uint n) = n < 2 ^ 256
  IsEncodable (Eip712Value.flag b) = Unit
  IsEncodable (Eip712Value.address a) = a < 2 ^ 160
  IsEncodable (Eip712Value.digest bytes) = length bytes ≡ 32

  unfoldable pub tag : Eip712Value → ℕ
  tag (Eip712Value.uint n) = 0
  tag (Eip712Value.flag b) = 1
  tag (Eip712Value.address a) = 2
  tag (Eip712Value.digest bytes) = 3

  length-encode_as_bytes32 :
      PrimitiveLaws p → (v : Eip712Value) → IsEncodable v → length (encode_as_bytes32 p v) ≡ 32
  unfolding encode_as_bytes32
  length-encode_as_bytes32 laws (Eip712Value.uint n) h = laws.length-word n
  length-encode_as_bytes32 laws (Eip712Value.flag b) h = laws.length-word (flag_code b)
  length-encode_as_bytes32 laws (Eip712Value.address a) h =
      omega (arith, laws.length-address_bytes a)
  length-encode_as_bytes32 laws (Eip712Value.digest bytes) h = h

  flag_code_inj : (a b : Bool) → flag_code a ≡ flag_code b → a ≡ b
  flag_code_inj true true e = refl
  flag_code_inj true false e = ground (arith, e)
  flag_code_inj false true e = ground (arith, e)
  flag_code_inj false false e = refl

  flag_small : (b : Bool) → flag_code b < 2 ^ 256
  flag_small true = omega arith
  flag_small false = omega arith

  encode_as_bytes32_inj :
      PrimitiveLaws p
      → (v w : Eip712Value) → tag v ≡ tag w
      → IsEncodable v
      → IsEncodable w
      → encode_as_bytes32 p v ≡ encode_as_bytes32 p w
      → v ≡ w
  unfolding encode_as_bytes32 tag
  encode_as_bytes32_inj laws (Eip712Value.uint m) (Eip712Value.uint n) t hm hn e =
      ap Eip712Value.uint (laws.word_inj m n hm hn e)
  encode_as_bytes32_inj laws (Eip712Value.flag a) (Eip712Value.flag b) t ha hb e =
      ap Eip712Value.flag (
        flag_code_inj a b
          (laws.word_inj (flag_code a) (flag_code b) (flag_small a) (flag_small b) e))
  encode_as_bytes32_inj laws (Eip712Value.address a) (Eip712Value.address b) t ha hb e =
      let (zeroes, same) =
        append_inj (zeros 12) (p.address_bytes a) (zeros 12) (p.address_bytes b) refl e in
      ap Eip712Value.address (laws.address_bytes_inj a b ha hb same)
  encode_as_bytes32_inj laws (Eip712Value.digest x) (Eip712Value.digest y) t hx hy e =
      ap Eip712Value.digest e
  encode_as_bytes32_inj laws v w t hv hw e = ground (arith, t)

  -- What the encoder puts together tells the values, if they are of the same types.
  pub add_values_inj :
      PrimitiveLaws p
      → (vs ws : List Eip712Value) → map tag vs ≡ map tag ws
      → All IsEncodable vs
      → All IsEncodable ws
      → add_values p vs ≡ add_values p ws
      → vs ≡ ws
  add_values_inj laws [] [] t hv hw e = refl
  add_values_inj laws [] (w ∷ ws) t hv hw e = cc
  add_values_inj laws (v ∷ vs) [] t hv hw e = cc
  add_values_inj laws (v ∷ vs) (w ∷ ws) t hv hw e =
      let first_tag : tag v ≡ tag w = cc in
      let other_tags : map tag vs ≡ map tag ws = cc in
      let sizes : length (encode_as_bytes32 p v) ≡ length (encode_as_bytes32 p w) =
        length-encode_as_bytes32 laws v hv.0 ∙ sym (length-encode_as_bytes32 laws w hw.0) in
      let (front, back) =
        append_inj (encode_as_bytes32 p v) (add_values p vs) (encode_as_bytes32 p w)
          (add_values p ws) sizes e in
      let first = encode_as_bytes32_inj laws v w first_tag hv.0 hw.0 front in
      let others = add_values_inj laws vs ws other_tags hv.1 hw.1 back in cc

  shape : ℕ → List ℕ
  shape k =
      if k == 0
      then 0 ∷ 0 ∷ []
      else if k == 1
      then 0 ∷ 0 ∷ 2 ∷ []
      else if k == 2
      then 0 ∷ 1 ∷ 0 ∷ 0 ∷ 0 ∷ 0 ∷ 1 ∷ 1 ∷ []
      else if k == 3
      then 0 ∷ []
      else if k == 4
      then 2 ∷ 0 ∷ 0 ∷ []
      else 3 ∷ []

  tags-added_values : (x : TxPayload) → map tag (added_values p x) ≡ shape (kind x)
  unfolding tag added_values shape kind
  tags-added_values (TxPayload.deposit x) = refl
  tags-added_values (TxPayload.withdraw x) = refl
  tags-added_values (TxPayload.place_order x) = refl
  tags-added_values (TxPayload.cancel_order x) = refl
  tags-added_values (TxPayload.modify_order x) = refl
  tags-added_values (TxPayload.close_position x) = refl
  tags-added_values (TxPayload.set_agent x) = refl
  tags-added_values (TxPayload.remove_agent x) = refl
  tags-added_values (TxPayload.transfer x) = refl
  tags-added_values (TxPayload.bridge_deposit x) = refl
  tags-added_values (TxPayload.bridge_withdraw x) = refl

  -- Payloads of one kind give values of the same types.
  pub tags-kind :
      (x y : TxPayload) → kind x ≡ kind y → map tag (added_values p x) ≡ map tag (added_values p y)
  tags-kind x y e = tags-added_values x ∙ ap shape e ∙ sym (tags-added_values y)
