-- ===== src/Tests/Submissions.antt =====
-- A payment and an agent, sent to the RPC server.
use Prim.Native.String.{String}
use pranklin.Base.{ℕ, ◌≡◌, ◌⊎◌, refl, Option, none, some, List, [], ◌∷◌, number_key}
use pranklin.Types.Tx.{SetAgentTx}
use pranklin.Types.Transaction.{Transaction, TxPayload}
use pranklin.Base.Maps.{lookup}
use pranklin.Mempool.Defs.{add, contains_tx, sender_tx_count}
use pranklin.Mempool.Queries.{get_tx}
use pranklin.Signing.{Primitives, decode, decoded}
use pranklin.Exec.Defs.{Node, verify_transaction}
use pranklin.Auth.Agents.{get_permissions}
use pranklin.Rpc.Types.{RpcError, answer, refusal, pending}
use pranklin.Rpc.Handlers.{
  trim_0x, query_status, decode_and_verify_tx, submit_transaction, request_set_agent,
}
use pranklin.Rpc.Submission.{submit_transaction-pending, request_set_agent-replay}
use pranklin.Tests.Nodes.{signer, hash, payment, node}
use pranklin.Tests.Signatures.{simple}

-- Every request is of one byte.
abbrev one_byte : String → Option (List ℕ)
one_byte hex = some (7 ∷ [])

submit_transaction-pending_example :
    let (r, node') = submit_transaction simple one_byte signer hash "0x07" node in
    ((e : RpcError) × (r ≡ refusal e) × (node' ≡ node))
    ⊎ ((tx : Transaction) × (r ≡ answer (hash tx))
        × (((bytes : List ℕ) × (one_byte (trim_0x "0x07") ≡ some bytes)
              × (decode simple bytes ≡ decoded tx))
            × (signer tx ≡ some tx.from))
        × (get_tx node'.mempool (hash tx) ≡ some tx)
        × (query_status (hash tx) node' ≡ pending (hash tx))
        × (node' ≡ record node { mempool = node'.mempool }))
submit_transaction-pending_example =
    submit_transaction-pending simple one_byte signer hash "0x07" node

accepted : (submit_transaction simple one_byte signer hash "0x07" node).0 ≡ answer 0
unfolding submit_transaction decode_and_verify_tx trim_0x decode verify_transaction add contains_tx
    lookup sender_tx_count
accepted = refl

trimmed : trim_0x "0x0x07" ≡ "07"
unfolding trim_0x
trimmed = refl

abbrev naming : Transaction
naming = record payment { payload = TxPayload.set_agent (record { agent = 5; permissions = 3 }) }

abbrev names : Primitives
names = record simple { borsh_read = λ _. some naming }

named : (request_set_agent names one_byte signer hash "07" node).0 ≡ answer tt
unfolding request_set_agent decode_and_verify_tx trim_0x decode verify_transaction
named = refl

abbrev withdrawn : Node
withdrawn = record node { agents = λ _ _. none }

request_set_agent-replay_example :
    let (r, again) = request_set_agent names one_byte signer hash "07" withdrawn in
    (tx : Transaction) × (a : SetAgentTx) × (tx.payload ≡ TxPayload.set_agent a)
    × (signer tx ≡ some tx.from)
    × (r ≡ answer tt)
    × (get_permissions again.agents tx.from a.agent ≡ some a.permissions)
    × (again.parts ≡ withdrawn.parts)
request_set_agent-replay_example =
    request_set_agent-replay names one_byte signer hash "07" node withdrawn named
