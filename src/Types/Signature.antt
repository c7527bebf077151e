-- ===== src/Types/Signature.antt =====
-- `TxSignature` and `TypedDataDomain` of crates/tx/src/lib.rs. A signature is its 65 bytes.
use Prim.Native.String.{String}
use pranklin.Base.{ℕ, Option, none, List}

pub record TypedDataDomain : Type 0 where
  pub name : String
  pub version : String
  pub chain_id : ℕ
  pub verifying_contract : Option ℕ

pub data TxSignature : Type 0 where
  eip712 : TypedDataDomain → List ℕ → TxSignature
  raw_borsh : List ℕ → TxSignature

abbrev pub default_domain : TypedDataDomain
default_domain = record {
  name = "Pranklin";
  version = "1";
  chain_id = 1337;
  verifying_contract = none;
}

-- `TypedDataDomain::new`
unfoldable pub new_domain : String → String → ℕ → TypedDataDomain
new_domain name version chain_id = record {
  name = name;
  version = version;
  chain_id = chain_id;
  verifying_contract = none;
}

-- `AsRef` and `AsMut`.
abbrev pub bytes_of : TxSignature → List ℕ
bytes_of (TxSignature.eip712 domain signature) = signature
bytes_of (TxSignature.raw_borsh signature) = signature

unfoldable pub with_bytes : List ℕ → TxSignature → TxSignature
with_bytes bytes (TxSignature.eip712 domain signature) = TxSignature.eip712 domain bytes
with_bytes bytes (TxSignature.raw_borsh signature) = TxSignature.raw_borsh bytes
