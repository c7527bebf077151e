-- ===== src/Signing/Binding.antt =====
-- A signing hash binds what is signed: crates/tx/src/lib.rs.
use pranklin.Base.{ℕ, ◌^◌, ◌<◌, ◌≡◌, ◌∙◌, refl, ap, sym, map, List, [], ◌∷◌, ◌++◌, length, All}
use pranklin.Base.Words.{u64_mod}
use pranklin.Types.Signature.{TxSignature, TypedDataDomain}
use pranklin.Types.Transaction.{Transaction}
use pranklin.Signing.Defs.{
  Primitives, PrimitiveLaws, Eip712Value, eip712_type, added_values, add_values, eip712_type_hash,
  eip712_encode_data, domain_hash, eip712_signing_hash, raw_signing_hash, signing_hash, le_bytes,
  hash_for,
}
use pranklin.Signing.Bytes.{Separates, append_inj, length-le_bytes, le_bytes_inj}
use pranklin.Signing.Payloads.{kind-eip712_type, added_values_inj}
use pranklin.Signing.Values.{IsEncodable, add_values_inj, tags-kind, tag}

-- The same sender, nonce and payload.
pub record SameContent (tx tx' : Transaction) : Type 0 where
  pub nonce : tx.nonce ≡ tx'.nonce
  pub from : tx.from ≡ tx'.from
  pub payload : tx.payload ≡ tx'.payload

-- The same name, version and chain.
pub record SameDomain (d d' : TypedDataDomain) : Type 0 where
  pub name : d.name ≡ d'.name
  pub version : d.version ≡ d'.version
  pub chain_id : d.chain_id ≡ d'.chain_id

module _ (p : Primitives) where
  -- What the code signs of a transaction.
  abbrev pub signed_values : Transaction → List Eip712Value
  signed_values tx =
      Eip712Value.uint tx.nonce ∷ Eip712Value.address tx.from ∷ added_values p tx.payload

  -- What is hashed on the way to a signing hash.
  abbrev pub domain_text : List ℕ
  domain_text = p.text_bytes "EIP712Domain(string name,string version,uint256 chainId)"

  abbrev pub domain_data : TypedDataDomain → List ℕ
  domain_data d =
      p.keccak256 domain_text
      ++ (p.keccak256 (p.text_bytes d.name)
          ++ (p.keccak256 (p.text_bytes d.version) ++ p.word d.chain_id))

  abbrev pub struct_data : Transaction → List ℕ
  struct_data tx = eip712_type_hash p tx.payload ++ eip712_encode_data p tx.nonce tx.from tx.payload

  abbrev pub typed_data : Transaction → TypedDataDomain → List ℕ
  typed_data tx d = (0x19 ∷ 0x01 ∷ []) ++ (domain_hash p d ++ p.keccak256 (struct_data tx))

  abbrev pub raw_data : Transaction → List ℕ
  raw_data tx = le_bytes 8 tx.nonce ++ (p.address_bytes tx.from ++ p.borsh_payload tx.payload)

  -- keccak256 does not confuse what is hashed for two transactions, step by step.
  pub record AreSeparated (tx tx' : Transaction) (d d' : TypedDataDomain) : Type 0 where
    pub whole : Separates p.keccak256 (typed_data tx d) (typed_data tx' d')
    pub structs : Separates p.keccak256 (struct_data tx) (struct_data tx')
    pub types :
        Separates p.keccak256
          (p.text_bytes (eip712_type tx.payload))
          (p.text_bytes (eip712_type tx'.payload))
    pub values :
        Separates p.keccak256 (add_values p (signed_values tx)) (add_values p (signed_values tx'))
    pub payloads : Separates p.keccak256 (p.borsh_payload tx.payload) (p.borsh_payload tx'.payload)
    pub domains : Separates p.keccak256 (domain_data d) (domain_data d')
    pub names : Separates p.keccak256 (p.text_bytes d.name) (p.text_bytes d'.name)
    pub versions : Separates p.keccak256 (p.text_bytes d.version) (p.text_bytes d'.version)

  module _ (laws : PrimitiveLaws p) where
    -- A hash that comes first, and what is behind it.
    hashed_first :
        (xs ys us vs : List ℕ)
        → p.keccak256 xs ++ ys ≡ p.keccak256 us ++ vs
        → (p.keccak256 xs ≡ p.keccak256 us) × (ys ≡ vs)
    hashed_first xs ys us vs e =
        append_inj (p.keccak256 xs) ys (p.keccak256 us) vs
          (laws.length-keccak256 xs ∙ sym (laws.length-keccak256 us)) e

    length-domain_hash : (x : TypedDataDomain) → length (domain_hash p x) ≡ 32
    unfolding domain_hash
    length-domain_hash x = laws.length-keccak256 _

    module _ (tx tx' : Transaction) (d d' : TypedDataDomain)
        (separated : AreSeparated tx tx' d d') where
      same_struct :
          All (IsEncodable p) (signed_values tx)
          → All (IsEncodable p) (signed_values tx')
          → struct_data tx ≡ struct_data tx'
          → SameContent tx tx'
      unfolding eip712_type_hash eip712_encode_data tag
      same_struct small small' e =
          let text = λ (t : Transaction). p.text_bytes (eip712_type t.payload) in
          let (types, fields) =
            hashed_first (text tx) (eip712_encode_data p tx.nonce tx.from tx.payload) (text tx')
              (eip712_encode_data p tx'.nonce tx'.from tx'.payload) e in
          let kinds = kind-eip712_type tx.payload tx'.payload (
            laws.text_bytes_inj (eip712_type tx.payload) (eip712_type tx'.payload)
              (separated.types types)) in
          let vs = signed_values tx in
          let ws = signed_values tx' in
          let tags : map (tag p) vs ≡ map (tag p) ws =
            ap (λ ts. tag p (Eip712Value.uint tx.nonce) ∷ tag p (Eip712Value.address tx.from) ∷ ts)
              (tags-kind p tx.payload tx'.payload kinds) in
          let values = add_values_inj p laws vs ws tags small small' (separated.values fields) in
          let nonces : tx.nonce ≡ tx'.nonce = cc in
          let senders : tx.from ≡ tx'.from = cc in
          let added : added_values p tx.payload ≡ added_values p tx'.payload = cc in
          record {
            nonce = nonces;
            from = senders;
            payload = added_values_inj p laws tx.payload tx'.payload kinds separated.payloads added;
          }

      same_domain :
          d.chain_id < 2 ^ 256
          → d'.chain_id < 2 ^ 256
          → domain_hash p d ≡ domain_hash p d'
          → SameDomain d d'
      unfolding domain_hash
      same_domain small small' e =
          let version = λ (x : TypedDataDomain). p.text_bytes x.version in
          let rest = λ (x : TypedDataDomain). p.keccak256 (version x) ++ p.word x.chain_id in
          let name = λ (x : TypedDataDomain). p.text_bytes x.name in
          let (_, fields) =
            hashed_first domain_text (p.keccak256 (name d) ++ rest d) domain_text
              (p.keccak256 (name d') ++ rest d') (separated.domains e) in
          let (names, fields') = hashed_first (name d) (rest d) (name d') (rest d') fields in
          let (versions, chains) =
            hashed_first (version d) (p.word d.chain_id) (version d') (p.word d'.chain_id)
              fields' in
          record {
            name = laws.text_bytes_inj d.name d'.name (separated.names names);
            version = laws.text_bytes_inj d.version d'.version (separated.versions versions);
            chain_id = laws.word_inj d.chain_id d'.chain_id small small' chains;
          }

    -- Two transactions that are signed as typed data with the same signing hash are of the same
    -- sender, nonce and payload, for a domain of the same name, version and chain, if keccak256 does
    -- not confuse what is hashed for them on the way to the signing hash (what is signed fits the
    -- words of the encoding, and the encodings of texts, words, addresses and payloads are
    -- injective).
    pub eip712_signing_hash-binds :
        (tx tx' : Transaction) (d d' : TypedDataDomain) (bytes bytes' : List ℕ)
        → AreSeparated tx tx' d d'
        → tx.signature ≡ TxSignature.eip712 d bytes
        → tx'.signature ≡ TxSignature.eip712 d' bytes'
        → All (IsEncodable p) (signed_values tx)
        → All (IsEncodable p) (signed_values tx')
        → d.chain_id < 2 ^ 256
        → d'.chain_id < 2 ^ 256
        → signing_hash p tx ≡ signing_hash p tx'
        → SameContent tx tx' × SameDomain d d'
    unfolding signing_hash eip712_signing_hash
    eip712_signing_hash-binds tx tx' d d' bytes bytes' separated sig sig' small small' chain chain'
          e =
        let hashes : p.keccak256 (typed_data tx d) ≡ p.keccak256 (typed_data tx' d') =
          sym (ap (λ g. hash_for p g tx) sig) ∙ e ∙ ap (λ g. hash_for p g tx') sig' in
        let start = 0x19 ∷ 0x01 ∷ [] in
        let domain = domain_hash p in
        let struct = λ (t : Transaction). p.keccak256 (struct_data t) in
        let (_, behind) =
          append_inj start (domain d ++ struct tx) start (domain d' ++ struct tx') refl
            (separated.whole hashes) in
        let sizes = length-domain_hash d ∙ sym (length-domain_hash d') in
        let (domains, structs) =
          append_inj (domain d) (struct tx) (domain d') (struct tx') sizes behind in
        (
          same_struct tx tx' d d' separated small small' (separated.structs structs),
          same_domain tx tx' d d' separated chain chain' domains,
        )

    -- Two transactions whose raw encodings have the same signing hash are of the same sender, nonce
    -- and payload, if sha256 does not confuse them (nonces are u64, addresses have 20 bytes).
    pub raw_signing_hash-binds :
        (tx tx' : Transaction) (bytes bytes' : List ℕ)
        → Separates p.sha256 (raw_data tx) (raw_data tx')
        → tx.signature ≡ TxSignature.raw_borsh bytes
        → tx'.signature ≡ TxSignature.raw_borsh bytes'
        → tx.nonce < u64_mod
        → tx'.nonce < u64_mod
        → tx.from < 2 ^ 160
        → tx'.from < 2 ^ 160
        → signing_hash p tx ≡ signing_hash p tx'
        → SameContent tx tx'
    unfolding signing_hash raw_signing_hash
    raw_signing_hash-binds tx tx' bytes bytes' separated sig sig' small small' from from' e =
        let rest = λ (t : Transaction). p.address_bytes t.from ++ p.borsh_payload t.payload in
        let hashes : p.sha256 (raw_data tx) ≡ p.sha256 (raw_data tx') =
          sym (ap (λ g. hash_for p g tx) sig) ∙ e ∙ ap (λ g. hash_for p g tx') sig' in
        let sizes = length-le_bytes 8 tx.nonce ∙ sym (length-le_bytes 8 tx'.nonce) in
        let (nonces, behind) =
          append_inj (le_bytes 8 tx.nonce) (rest tx) (le_bytes 8 tx'.nonce) (rest tx') sizes
            (separated hashes) in
        let lengths =
          laws.length-address_bytes tx.from ∙ sym (laws.length-address_bytes tx'.from) in
        let (senders, payloads) =
          append_inj (p.address_bytes tx.from) (p.borsh_payload tx.payload)
            (p.address_bytes tx'.from) (p.borsh_payload tx'.payload) lengths behind in
        record {
          nonce = le_bytes_inj 8 tx.nonce tx'.nonce small small' nonces;
          from = laws.address_bytes_inj tx.from tx'.from from from' senders;
          payload = laws.borsh_payload_inj tx.payload tx'.payload payloads;
        }
