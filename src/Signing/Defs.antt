-- ===== src/Signing/Defs.antt =====
-- The signing hash and the encoding of a transaction: crates/tx/src/lib.rs. Hash functions, the
-- encodings of borsh, and the byte encodings of `Address` and `U256` are an interface.
use Prim.Native.String.{String}
use pranklin.Base.{
  ℕ, zero, suc, ◌/◌, ◌%◌, ◌^◌, ◌<◌, ◌≡◌, Bool, Option, none, some, List, [], ◌∷◌, ◌++◌, length, ltb,
  if◌then◌else◌,
}
use pranklin.Types.Order.{OrderType, TimeInForce}
use pranklin.Types.Signature.{TxSignature, TypedDataDomain, default_domain, bytes_of, with_bytes}
use pranklin.Types.Transaction.{Transaction, TxPayload}

-- What the transactions take from libraries: `text_bytes` is `as_bytes`, `word` is
-- `U256::from(n).to_be_bytes::<32>()`, and `address_bytes` is `as_slice`.
pub record Primitives : Type 0 where
  pub keccak256 : List ℕ → List ℕ
  pub sha256 : List ℕ → List ℕ
  pub text_bytes : String → List ℕ
  pub word : ℕ → List ℕ
  pub address_bytes : ℕ → List ℕ
  pub borsh_payload : TxPayload → List ℕ
  pub borsh_transaction : Transaction → List ℕ
  pub borsh_read : List ℕ → Option Transaction

-- Their documented behaviour. Nothing is said of a hash but the size of its output.
pub record PrimitiveLaws (p : Primitives) : Type 0 where
  pub length-keccak256 : (bytes : List ℕ) → length (p.keccak256 bytes) ≡ 32
  pub text_bytes_inj : (s t : String) → p.text_bytes s ≡ p.text_bytes t → s ≡ t
  pub length-word : (n : ℕ) → length (p.word n) ≡ 32
  pub word_inj : (m n : ℕ) → m < 2 ^ 256 → n < 2 ^ 256 → p.word m ≡ p.word n → m ≡ n
  pub length-address_bytes : (a : ℕ) → length (p.address_bytes a) ≡ 20
  pub address_bytes_inj :
      (a b : ℕ) → a < 2 ^ 160 → b < 2 ^ 160 → p.address_bytes a ≡ p.address_bytes b → a ≡ b
  pub borsh_payload_inj : (x y : TxPayload) → p.borsh_payload x ≡ p.borsh_payload y → x ≡ y

-- `n.to_le_bytes()`, of so many bytes.
unfoldable pub le_bytes : ℕ → ℕ → List ℕ
le_bytes zero n = []
le_bytes (suc count) n = n % 256 ∷ le_bytes count (n / 256)

-- `order_type as u8` and `time_in_force as u8`
abbrev pub order_type_code : OrderType → ℕ
order_type_code OrderType.market = 0
order_type_code OrderType.limit = 1
order_type_code OrderType.stop_market = 2
order_type_code OrderType.stop_limit = 3
order_type_code OrderType.take_profit_market = 4
order_type_code OrderType.take_profit_limit = 5

abbrev pub time_in_force_code : TimeInForce → ℕ
time_in_force_code TimeInForce.gtc = 0
time_in_force_code TimeInForce.ioc = 1
time_in_force_code TimeInForce.fok = 2
time_in_force_code TimeInForce.post_only = 3

-- What the encoder is given, the numbers of every width being one kind.
pub data Eip712Value : Type 0 where
  uint : ℕ → Eip712Value
  flag : Bool → Eip712Value
  address : ℕ → Eip712Value
  digest : List ℕ → Eip712Value

abbrev pub zeros : ℕ → List ℕ
zeros zero = []
zeros (suc n) = 0 ∷ zeros n

abbrev pub flag_code : Bool → ℕ
flag_code Bool.false = 0
flag_code Bool.true = 1

unfoldable pub eip712_type : TxPayload → String
eip712_type (TxPayload.deposit d) =
    "Deposit(uint64 nonce,address from,uint128 amount,uint32 assetId)"
eip712_type (TxPayload.withdraw w) =
    "Withdraw(uint64 nonce,address from,uint128 amount,uint32 assetId,address to)"
eip712_type (TxPayload.place_order o) =
    "PlaceOrder(uint64 nonce,address from,uint32 marketId,bool isBuy,uint8 orderType,uint64 price,uint64 size,uint8 timeInForce,bool reduceOnly,bool postOnly)"
eip712_type (TxPayload.cancel_order c) = "CancelOrder(uint64 nonce,address from,uint64 orderId)"
eip712_type (TxPayload.transfer t) =
    "Transfer(uint64 nonce,address from,address to,uint128 amount,uint32 assetId)"
eip712_type _ = "GenericTx(uint64 nonce,address from,bytes payload)"

-- `Transaction::new_raw`, with a signature of zeros.
unfoldable pub new_raw : ℕ → ℕ → TxPayload → Transaction
new_raw nonce from payload = record {
  nonce = nonce;
  from = from;
  payload = payload;
  signature = TxSignature.raw_borsh (zeros 65);
}

unfoldable pub new_eip712_with_domain : ℕ → ℕ → TxPayload → TypedDataDomain → Transaction
new_eip712_with_domain nonce from payload domain = record {
  nonce = nonce;
  from = from;
  payload = payload;
  signature = TxSignature.eip712 domain (zeros 65);
}

unfoldable pub new_eip712 : ℕ → ℕ → TxPayload → Transaction
unfolding new_eip712_with_domain
new_eip712 nonce from payload = new_eip712_with_domain nonce from payload default_domain

-- `with_signature` and `set_signature`
unfoldable pub set_signature : List ℕ → Transaction → Transaction
set_signature bytes tx = record tx { signature = with_bytes bytes tx.signature }

unfoldable pub signature_bytes : Transaction → List ℕ
signature_bytes tx = bytes_of tx.signature

pub data DecodeError : Type 0 where
  too_large : (size limit : ℕ) → DecodeError
  malformed : DecodeError

pub data Decoded : Type 0 where
  decoded : Transaction → Decoded
  undecoded : DecodeError → Decoded

abbrev pub max_tx_size : ℕ
max_tx_size = 100000

module _ (p : Primitives) where
  -- `encode_as_bytes32`
  unfoldable pub encode_as_bytes32 : Eip712Value → List ℕ
  encode_as_bytes32 (Eip712Value.uint n) = p.word n
  encode_as_bytes32 (Eip712Value.flag b) = p.word (flag_code b)
  encode_as_bytes32 (Eip712Value.address a) = zeros 12 ++ p.address_bytes a
  encode_as_bytes32 (Eip712Value.digest bytes) = bytes

  -- The chain of `add`s of the encoder, and `finish` over it.
  abbrev pub add_values : List Eip712Value → List ℕ
  add_values [] = []
  add_values (v ∷ vs) = encode_as_bytes32 v ++ add_values vs

  -- What each payload adds after the nonce and the sender.
  unfoldable pub added_values : TxPayload → List Eip712Value
  added_values (TxPayload.deposit d) = Eip712Value.uint d.amount ∷ Eip712Value.uint d.asset_id ∷ []
  added_values (TxPayload.withdraw w) =
      Eip712Value.uint w.amount ∷ Eip712Value.uint w.asset_id ∷ Eip712Value.address w.to ∷ []
  added_values (TxPayload.place_order o) =
      Eip712Value.uint o.market_id
      ∷ Eip712Value.flag o.is_buy
      ∷ Eip712Value.uint (order_type_code o.order_type)
      ∷ Eip712Value.uint o.price
      ∷ Eip712Value.uint o.size
      ∷ Eip712Value.uint (time_in_force_code o.time_in_force)
      ∷ Eip712Value.flag o.reduce_only
      ∷ Eip712Value.flag o.post_only
      ∷ []
  added_values (TxPayload.cancel_order c) = Eip712Value.uint c.order_id ∷ []
  added_values (TxPayload.transfer t) =
      Eip712Value.address t.to ∷ Eip712Value.uint t.amount ∷ Eip712Value.uint t.asset_id ∷ []
  added_values payload = Eip712Value.digest (p.keccak256 (p.borsh_payload payload)) ∷ []

  unfoldable pub eip712_type_hash : TxPayload → List ℕ
  eip712_type_hash payload = p.keccak256 (p.text_bytes (eip712_type payload))

  unfoldable pub eip712_encode_data : ℕ → ℕ → TxPayload → List ℕ
  eip712_encode_data nonce from payload =
      p.keccak256
        (add_values (Eip712Value.uint nonce ∷ Eip712Value.address from ∷ added_values payload))

  -- `TypedDataDomain::hash`
  unfoldable pub domain_hash : TypedDataDomain → List ℕ
  domain_hash d = p.keccak256 (
      p.keccak256 (p.text_bytes "EIP712Domain(string name,string version,uint256 chainId)")
      ++ (p.keccak256 (p.text_bytes d.name)
          ++ (p.keccak256 (p.text_bytes d.version) ++ p.word d.chain_id)))

  unfoldable pub eip712_signing_hash : Transaction → TypedDataDomain → List ℕ
  eip712_signing_hash tx domain =
      let struct_hash =
        p.keccak256
          (eip712_type_hash tx.payload ++ eip712_encode_data tx.nonce tx.from tx.payload) in
      p.keccak256 ((0x19 ∷ 0x01 ∷ []) ++ (domain_hash domain ++ struct_hash))

  unfoldable pub raw_signing_hash : Transaction → List ℕ
  raw_signing_hash tx =
      p.sha256 (le_bytes 8 tx.nonce ++ (p.address_bytes tx.from ++ p.borsh_payload tx.payload))

  abbrev pub hash_for : TxSignature → Transaction → List ℕ
  hash_for (TxSignature.raw_borsh bytes) tx = raw_signing_hash tx
  hash_for (TxSignature.eip712 domain bytes) tx = eip712_signing_hash tx domain

  unfoldable pub signing_hash : Transaction → List ℕ
  signing_hash tx = hash_for tx.signature tx

  unfoldable pub encode : Transaction → List ℕ
  encode tx = p.borsh_transaction tx

  unfoldable pub hash : Transaction → List ℕ
  unfolding encode
  hash tx = p.sha256 (encode tx)

  -- `Transaction::decode`, and `try_from` behind it.
  unfoldable pub decode : List ℕ → Decoded
  decode bytes =
      if ltb max_tx_size (length bytes)
      then undecoded (too_large (length bytes) max_tx_size)
      else elim (p.borsh_read bytes) [ none ↦ undecoded malformed | some tx ↦ decoded tx ]
