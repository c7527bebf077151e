-- ===== src/Tests/Signatures.antt =====
-- The signing hash of a payment, with simple encodings in place of the libraries'.
use Prim.Native.Char.{code}
use Prim.Native.String.{String}
use text.Mathlib.TextEquality.{Char-path}
use pranklin.Base.{
  ℕ, ◌+◌, ◌*◌, zero, suc, ◌≡◌, ◌∙◌, ◌==◌, refl, ap, sym, Bool, true, false, some, List, [], ◌∷◌,
  arith, All, if◌then◌else◌,
}
use pranklin.Types.Signature.{TxSignature, default_domain, with_bytes}
use pranklin.Types.Transaction.{Transaction, TxPayload}
use pranklin.Signing.{
  Primitives, PrimitiveLaws, le_bytes, flag_code, order_type_code, time_in_force_code, added_values,
  new_eip712, new_eip712_with_domain, set_signature, signing_hash, eip712_signing_hash,
}
use pranklin.Signing.Bytes.{length-le_bytes, le_bytes_inj}
use pranklin.Signing.Payloads.{
  order_type_of, order_type_of-code, time_in_force_of, time_in_force_of-code,
}
use pranklin.Signing.Values.{IsEncodable}
use pranklin.Signing.Binding.{
  signed_values, SameContent, SameDomain, AreSeparated, eip712_signing_hash-binds,
}
use pranklin.Tests.Nodes.{payment}

-- The codes of the characters.
pub codes : String → List ℕ
codes String.[] = []
codes (String.◌∷◌ c s) = code c ∷ codes s

codes_inj : (s t : String) → codes s ≡ codes t → s ≡ t
unfolding codes
codes_inj String.[] String.[] e = refl
codes_inj String.[] (String.◌∷◌ d t) e = cc
codes_inj (String.◌∷◌ c s) String.[] e = cc
codes_inj (String.◌∷◌ c s) (String.◌∷◌ d t) e =
    let heads : code c ≡ code d = cc in
    let tails : codes s ≡ codes t = cc in
    let first = Char-path c d heads in let rest = codes_inj s t tails in cc

-- A payload as a tag and its fields.
pub fields : TxPayload → List ℕ
fields (TxPayload.deposit x) = 0 ∷ x.amount ∷ x.asset_id ∷ []
fields (TxPayload.withdraw x) = 1 ∷ x.amount ∷ x.asset_id ∷ x.to ∷ []
fields (TxPayload.place_order x) =
    2
    ∷ x.market_id
    ∷ flag_code x.is_buy
    ∷ order_type_code x.order_type
    ∷ x.price
    ∷ x.size
    ∷ time_in_force_code x.time_in_force
    ∷ flag_code x.reduce_only
    ∷ flag_code x.post_only
    ∷ []
fields (TxPayload.cancel_order x) = 3 ∷ x.order_id ∷ []
fields (TxPayload.modify_order x) = 4 ∷ x.order_id ∷ x.new_price ∷ x.new_size ∷ []
fields (TxPayload.close_position x) = 5 ∷ x.market_id ∷ x.size ∷ []
fields (TxPayload.set_agent x) = 6 ∷ x.agent ∷ x.permissions ∷ []
fields (TxPayload.remove_agent x) = 7 ∷ x.agent ∷ []
fields (TxPayload.transfer x) = 8 ∷ x.to ∷ x.amount ∷ x.asset_id ∷ []
fields (TxPayload.bridge_deposit x) = 9 ∷ x.user ∷ x.amount ∷ x.asset_id ∷ x.external_tx_hash ∷ []
fields (TxPayload.bridge_withdraw x) =
    10 ∷ x.user ∷ x.amount ∷ x.asset_id ∷ x.destination ∷ x.external_tx_hash ∷ []

nth : ℕ → List ℕ → ℕ
nth i [] = 0
nth zero (x ∷ xs) = x
nth (suc i) (x ∷ xs) = nth i xs

payload_of : List ℕ → TxPayload
payload_of xs =
    let at = λ (i : ℕ). nth i xs in
    let set = λ (i : ℕ). at i == 1 in
    let tag = at 0 in
    if tag == 0
    then TxPayload.deposit (record { amount = at 1; asset_id = at 2 })
    else if tag == 1
    then TxPayload.withdraw (record { amount = at 1; asset_id = at 2; to = at 3 })
    else if tag == 2
    then TxPayload.place_order (record {
      market_id = at 1;
      is_buy = set 2;
      order_type = order_type_of (at 3);
      price = at 4;
      size = at 5;
      time_in_force = time_in_force_of (at 6);
      reduce_only = set 7;
      post_only = set 8;
    })
    else if tag == 3
    then TxPayload.cancel_order (record { order_id = at 1 })
    else if tag == 4
    then TxPayload.modify_order (record { order_id = at 1; new_price = at 2; new_size = at 3 })
    else if tag == 5
    then TxPayload.close_position (record { market_id = at 1; size = at 2 })
    else if tag == 6
    then TxPayload.set_agent (record { agent = at 1; permissions = at 2 })
    else if tag == 7
    then TxPayload.remove_agent (record { agent = at 1 })
    else if tag == 8
    then TxPayload.transfer (record { to = at 1; amount = at 2; asset_id = at 3 })
    else if tag == 9
    then TxPayload.bridge_deposit
        (record { user = at 1; amount = at 2; asset_id = at 3; external_tx_hash = at 4 })
    else TxPayload.bridge_withdraw (record {
      user = at 1;
      amount = at 2;
      asset_id = at 3;
      destination = at 4;
      external_tx_hash = at 5;
    })

flag_code-set : (b : Bool) → (flag_code b == 1) ≡ b
flag_code-set true = refl
flag_code-set false = refl

payload_of-fields : (x : TxPayload) → payload_of (fields x) ≡ x
unfolding payload_of fields nth
payload_of-fields (TxPayload.deposit x) = refl
payload_of-fields (TxPayload.withdraw x) = refl
payload_of-fields (TxPayload.place_order x) =
    rw
      (
        flag_code-set x.is_buy,
        order_type_of-code x.order_type,
        time_in_force_of-code x.time_in_force,
        flag_code-set x.reduce_only,
        flag_code-set x.post_only,
      )
      refl
payload_of-fields (TxPayload.cancel_order x) = refl
payload_of-fields (TxPayload.modify_order x) = refl
payload_of-fields (TxPayload.close_position x) = refl
payload_of-fields (TxPayload.set_agent x) = refl
payload_of-fields (TxPayload.remove_agent x) = refl
payload_of-fields (TxPayload.transfer x) = refl
payload_of-fields (TxPayload.bridge_deposit x) = refl
payload_of-fields (TxPayload.bridge_withdraw x) = refl

-- A checksum in place of a hash.
abbrev pub checksum : List ℕ → ℕ
checksum [] = 0
checksum (x ∷ xs) = x + 31 * checksum xs

abbrev pub simple : Primitives
simple = record {
  keccak256 = λ bytes. le_bytes 32 (checksum bytes);
  sha256 = λ bytes. le_bytes 32 (checksum bytes);
  text_bytes = codes;
  word = le_bytes 32;
  address_bytes = le_bytes 20;
  borsh_payload = fields;
  borsh_transaction = λ tx. fields tx.payload;
  borsh_read = λ _. some payment;
}

simple_laws : PrimitiveLaws simple
simple_laws = record {
  length-keccak256 = λ bytes. length-le_bytes 32 (checksum bytes);
  text_bytes_inj = codes_inj;
  length-word = length-le_bytes 32;
  word_inj = λ m n hm hn e. le_bytes_inj 32 m n (omega (arith, hm)) (omega (arith, hn)) e;
  length-address_bytes = length-le_bytes 20;
  address_bytes_inj = λ a b ha hb e. le_bytes_inj 20 a b (omega (arith, ha)) (omega (arith, hb)) e;
  borsh_payload_inj = λ x y e. sym (payload_of-fields x) ∙ ap payload_of e ∙ payload_of-fields y;
}

-- The payment, with two signatures.
abbrev typed : ℕ → Transaction
unfolding new_eip712 new_eip712_with_domain set_signature with_bytes
typed byte = set_signature (byte ∷ []) (new_eip712 payment.nonce payment.from payment.payload)

signed_as : (byte : ℕ) → (typed byte).signature ≡ TxSignature.eip712 default_domain (byte ∷ [])
unfolding typed with_bytes
signed_as byte = refl

fits : (byte : ℕ) → All (IsEncodable simple) (signed_values simple (typed byte))
unfolding added_values typed
fits byte = (omega arith, (omega arith, (omega arith, (omega arith, (omega arith, tt)))))

same_hash : signing_hash simple (typed 1) ≡ signing_hash simple (typed 2)
unfolding signing_hash eip712_signing_hash typed
same_hash = refl

-- What is hashed does not depend on the signature.
not_confused : AreSeparated simple (typed 1) (typed 2) default_domain default_domain
unfolding typed
not_confused = record {
  whole = λ _. refl;
  structs = λ _. refl;
  types = λ _. refl;
  values = λ _. refl;
  payloads = λ _. refl;
  domains = λ _. refl;
  names = λ _. refl;
  versions = λ _. refl;
}

eip712_signing_hash-binds_example :
    SameContent (typed 1) (typed 2) × SameDomain default_domain default_domain
eip712_signing_hash-binds_example =
    eip712_signing_hash-binds simple simple_laws (typed 1) (typed 2) default_domain default_domain
      (1 ∷ []) (2 ∷ []) not_confused (signed_as 1) (signed_as 2) (fits 1) (fits 2) (omega arith)
      (omega arith) same_hash
