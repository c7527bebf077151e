-- ===== src/Signing/Roundtrip.antt =====
-- The bytes of a transaction, and its signature: crates/tx/src/lib.rs.
use pranklin.Base.{ℕ, ◌≡◌, refl, some, List, length, ltb, if◌then◌else◌}
use pranklin.Types.Signature.{TxSignature, with_bytes, bytes_of}
use pranklin.Types.Transaction.{Transaction}
use pranklin.Signing.Defs.{
  Primitives, decoded, undecoded, too_large, max_tx_size, encode, decode, set_signature,
  signature_bytes, signing_hash, hash_for, raw_signing_hash, eip712_signing_hash,
}

module _ (p : Primitives) where
  -- A transaction of at most 100,000 bytes is decoded from its encoding, and a larger one is refused
  -- with its size, if borsh reads what it writes.
  pub decode-encode :
      (tx : Transaction)
      → p.borsh_read (p.borsh_transaction tx) ≡ some tx
      → decode p (encode p tx) ≡ (
          if ltb max_tx_size (length (encode p tx))
          then undecoded (too_large (length (encode p tx)) max_tx_size)
          else decoded tx)
  unfolding decode encode
  decode-encode tx reads = rw reads refl

  hash_for-with_bytes :
      (bytes : List ℕ) (s : TxSignature) (tx tx' : Transaction)
      → tx.nonce ≡ tx'.nonce
      → tx.from ≡ tx'.from
      → tx.payload ≡ tx'.payload
      → hash_for p (with_bytes bytes s) tx ≡ hash_for p s tx'
  unfolding with_bytes raw_signing_hash eip712_signing_hash
  hash_for-with_bytes bytes (TxSignature.eip712 domain old) tx tx' n f l = rw (n, f, l) refl
  hash_for-with_bytes bytes (TxSignature.raw_borsh old) tx tx' n f l = rw (n, f, l) refl

  bytes_of-with_bytes : (bytes : List ℕ) (s : TxSignature) → bytes_of (with_bytes bytes s) ≡ bytes
  unfolding with_bytes
  bytes_of-with_bytes bytes (TxSignature.eip712 domain old) = refl
  bytes_of-with_bytes bytes (TxSignature.raw_borsh old) = refl

  -- A signature that is set is the one that is read, and changes nothing of what is signed.
  pub set_signature-signing_hash :
      (bytes : List ℕ) (tx : Transaction)
      → (signature_bytes (set_signature bytes tx) ≡ bytes)
        × (signing_hash p (set_signature bytes tx) ≡ signing_hash p tx)
  unfolding set_signature signature_bytes signing_hash
  set_signature-signing_hash bytes tx = (
    bytes_of-with_bytes bytes tx.signature,
    hash_for-with_bytes bytes tx.signature (set_signature bytes tx) tx refl refl refl,
  )
