-- ===== src/Rpc/Submission.antt =====
-- What a request leaves behind: crates/rpc/src/handlers.rs.
use Prim.Native.String.{String}
use pranklin.Base.{
  ℕ, ◌≡◌, ◌⊎◌, inl, inr, refl, sym, Option, some, List, arith, Option-cases, number_key,
}
use pranklin.Base.Maps.{lookup-insert}
use pranklin.Types.Transaction.{Transaction, TxPayload}
use pranklin.Types.Tx.{SetAgentTx}
use pranklin.Mempool.Defs.{Mempool, AddResult, added, refused, add, insert_tx}
use pranklin.Mempool.Queries.{get_tx}
use pranklin.Signing.{Primitives, decode, Decoded, decoded, undecoded}
use pranklin.Exec.Defs.{Node, verify_transaction, register_agent}
use pranklin.Auth.Agents.{get_permissions}
use pranklin.Rpc.Types.{RpcError, RpcResult, answer, refusal, mempool_error, pending}
use pranklin.Rpc.Handlers.{
  trim_0x, query_status, decode_and_verify_tx, submit_transaction, set_agent_of, request_set_agent,
}

add_refused :
    (hash : Transaction → ℕ) (tx : Transaction) (pool : Mempool) (e : _)
    → (add hash tx pool).0 ≡ refused e
    → (add hash tx pool).1 ≡ pool
unfolding add
add_refused hash tx pool e h = ground arith

-- A transaction that was added is found by its hash.
add-get_tx :
    (hash : Transaction → ℕ) (tx : Transaction) (pool : Mempool) (h : ℕ)
    → (add hash tx pool).0 ≡ added h
    → get_tx (add hash tx pool).1 (hash tx) ≡ some tx
unfolding add insert_tx get_tx
add-get_tx hash tx pool h e = ground (arith, lookup-insert (hash tx) (hash tx) tx pool.index.txs)

RpcResult-cases :
    {A : Type 0} (r : RpcResult A) → ((e : RpcError) × (r ≡ refusal e)) ⊎ ((a : A) × (r ≡ answer a))
RpcResult-cases (refusal e) = inl (e, refl)
RpcResult-cases (answer a) = inr (a, refl)

AddResult-cases : (r : AddResult) → ((e : _) × (r ≡ refused e)) ⊎ ((h : ℕ) × (r ≡ added h))
AddResult-cases (refused e) = inl (e, refl)
AddResult-cases (added h) = inr (h, refl)

Decoded-cases :
    (d : Decoded) → ((e : _) × (d ≡ undecoded e)) ⊎ ((tx : Transaction) × (d ≡ decoded tx))
Decoded-cases (undecoded e) = inl (e, refl)
Decoded-cases (decoded tx) = inr (tx, refl)

module _ (p : Primitives) (decode_hex : String → Option (List ℕ))
    (recover_signer : Transaction → Option ℕ) (hash : Transaction → ℕ) where
  -- A transaction that the server accepts is what it decoded, signed by its sender.
  decode_and_verify_tx-signed :
      (hex : String) (tx : Transaction)
      → decode_and_verify_tx p decode_hex recover_signer hash hex ≡ answer tx
      → ((bytes : List ℕ) × (decode_hex (trim_0x hex) ≡ some bytes) × (decode p bytes ≡ decoded tx))
        × (recover_signer tx ≡ some tx.from)
  unfolding decode_and_verify_tx verify_transaction
  decode_and_verify_tx-signed hex tx e = elim (Option-cases (decode_hex (trim_0x hex))) [
    | inl bad ↦ ground (arith, bad)
    | inr (bytes, good) ↦ elim (Decoded-cases (decode p bytes)) [
      | inl (x, bad) ↦ ground (arith, good, bad)
      | inr (read, readable) ↦ elim (Option-cases (recover_signer read)) [
        | inl unsigned ↦ ground (arith, good, readable, unsigned)
        | inr (signer, signed) ↦
            let same : read ≡ tx = ground (arith, good, readable, signed) in
            let own : signer ≡ read.from = ground (arith, good, readable, signed) in
            rw (sym same) ((bytes, good, readable), ground (arith, signed, own))
      ]
    ]
  ]

  -- A transaction that is submitted is refused and changes nothing, or it is what the request decodes
  -- to, is signed by its sender, and waits in the mempool under the hash that is answered, with its
  -- status pending; the rest of the node is unchanged.
  pub submit_transaction-pending :
      (hex : String) (node : Node)
      → let (r, node') = submit_transaction p decode_hex recover_signer hash hex node in
        ((e : RpcError) × (r ≡ refusal e) × (node' ≡ node))
        ⊎ ((tx : Transaction) × (r ≡ answer (hash tx))
            × (((bytes : List ℕ) × (decode_hex (trim_0x hex) ≡ some bytes)
                  × (decode p bytes ≡ decoded tx))
                × (recover_signer tx ≡ some tx.from))
            × (get_tx node'.mempool (hash tx) ≡ some tx)
            × (query_status (hash tx) node' ≡ pending (hash tx))
            × (node' ≡ record node { mempool = node'.mempool }))
  unfolding submit_transaction query_status
  submit_transaction-pending hex node =
      elim (RpcResult-cases (decode_and_verify_tx p decode_hex recover_signer hash hex)) [
        | inl (e, bad) ↦ inl (e, ground (arith, bad), ground (arith, bad))
        | inr (tx, good) ↦
            let signed = decode_and_verify_tx-signed hex tx good in
            elim (AddResult-cases (add hash tx node.mempool).0) [
              | inl (x, full) ↦
                  let same = add_refused hash tx node.mempool x full in
                  inl
                    (mempool_error x, ground (arith, good, full), ground (arith, good, full, same))
              | inr (h, taken) ↦
                  let found = add-get_tx hash tx node.mempool h taken in
                  inr (
                    tx,
                    ground (arith, good, taken),
                    signed,
                    ground (arith, good, taken, found),
                    ground (arith, good, taken, found),
                    ground (arith, good, taken),
                  )
            ]
      ]

  set_agent_of-replay :
      (tx : Transaction) (payload : TxPayload) (node later : Node)
      → (set_agent_of p decode_hex recover_signer hash tx payload node).0 ≡ answer tt
      → (a : SetAgentTx) × (payload ≡ TxPayload.set_agent a)
        × (set_agent_of p decode_hex recover_signer hash tx payload later ≡ (
          answer tt,
          record later { agents = register_agent tx.from a.agent a.permissions later.agents },
        ))
  set_agent_of-replay tx (TxPayload.set_agent a) node later e = (a, refl, refl)
  set_agent_of-replay tx payload node later e = cc

  -- A request to set an agent that was accepted once is accepted again at any later time, also after
  -- the account has removed the agent: it is signed by the account, and the agent has the permissions
  -- of the request again.
  pub request_set_agent-replay :
      (hex : String) (node later : Node)
      → (request_set_agent p decode_hex recover_signer hash hex node).0 ≡ answer tt
      → let (r, again) = request_set_agent p decode_hex recover_signer hash hex later in
        (tx : Transaction) × (a : SetAgentTx) × (tx.payload ≡ TxPayload.set_agent a)
        × (recover_signer tx ≡ some tx.from)
        × (r ≡ answer tt)
        × (get_permissions again.agents tx.from a.agent ≡ some a.permissions)
        × (again.parts ≡ later.parts)
  unfolding request_set_agent get_permissions register_agent
  request_set_agent-replay hex node later e =
      elim (RpcResult-cases (decode_and_verify_tx p decode_hex recover_signer hash hex)) [
        | inl (x, bad) ↦ ground (arith, bad)
        | inr (tx, good) ↦
            let signed = decode_and_verify_tx-signed hex tx good in
            let (a, payload, again) =
              set_agent_of-replay tx tx.payload node later (ground (arith, good)) in
            (
              tx,
              a,
              payload,
              signed.1,
              ground (arith, good, again),
              ground (arith, good, again),
              ground (arith, good, again),
            )
      ]
