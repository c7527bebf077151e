-- ===== src/Exec/Replay.antt =====
-- Nonces: an executed transaction was next in line, and is not executed again.
use pranklin.Base.{ℕ, ◌+◌, ◌<◌, ◌%◌, ◌≡◌, ◌∙◌, ap, refl, Option, some, arith, number_key, Method}
use pranklin.Base.Words.{u64_mod}
use pranklin.Types.Transaction.{Transaction, TxPayload}
use pranklin.State.{State, get_nonce, increment_nonce}
use pranklin.State.Laws.{get_nonce-set_nonce}
use pranklin.Services.Parts.{Parts}
use pranklin.Services.Orders.{set_agent, remove_agent}
use pranklin.Exec.Defs.{
  Node, done, failed, invalid_nonce, verify_nonce, on_engine, verify_transaction, run_payload,
  AgentRegistry, change_agents, register_agent, unregister_agent, payload_call, execute_tx_payload,
  settle, execute, verify_tx_owner, TxResult,
}
use pranklin.Exec.Keeps.{
  SameNonces, Keeps, deposit-Keeps, withdraw-Keeps, transfer-Keeps, place_order-Keeps,
  cancel_order-Keeps, close_position-Keeps, bridge_deposit-Keeps, bridge_withdraw-Keeps,
  set_agent-Keeps, remove_agent-Keeps,
}

run_payload-SameNonces :
    (from : ℕ) (payload : TxPayload) (node : Node)
    → SameNonces node.parts.state (run_payload from payload node).1.parts.state
unfolding run_payload
run_payload-SameNonces from (TxPayload.deposit x) node = deposit-Keeps from x node.parts
run_payload-SameNonces from (TxPayload.withdraw x) node = withdraw-Keeps from x node.parts
run_payload-SameNonces from (TxPayload.transfer x) node = transfer-Keeps from x node.parts
run_payload-SameNonces from (TxPayload.place_order x) node = place_order-Keeps from x node.parts
run_payload-SameNonces from (TxPayload.cancel_order x) node = cancel_order-Keeps from x node.parts
run_payload-SameNonces from (TxPayload.close_position x) node =
    close_position-Keeps from x node.parts
run_payload-SameNonces from (TxPayload.set_agent x) node = set_agent-Keeps from x node.parts
run_payload-SameNonces from (TxPayload.remove_agent x) node = remove_agent-Keeps from x node.parts
run_payload-SameNonces from (TxPayload.bridge_deposit x) node =
    bridge_deposit-Keeps from x node.parts
run_payload-SameNonces from (TxPayload.bridge_withdraw x) node =
    bridge_withdraw-Keeps from x node.parts
run_payload-SameNonces from (TxPayload.modify_order x) node = record {
  nonces = refl;
  version = refl;
}

pub get_nonce-same : (s t : State) (a : ℕ) → SameNonces s t → get_nonce t a ≡ get_nonce s a
unfolding get_nonce
get_nonce-same s t a h = rw (h.nonces, h.version) refl

get_nonce-increment_nonce :
    (a : ℕ) (s : State) → get_nonce (increment_nonce a s).1 a ≡ (get_nonce s a + 1) % u64_mod
unfolding increment_nonce
get_nonce-increment_nonce a s =
    ground (arith, get_nonce-set_nonce a a ((get_nonce s a + 1) % u64_mod) s)

module _ (recover_signer : Transaction → Option ℕ) (hash : Transaction → ℕ) where
  change_agents-SameNonces :
      (tx : Transaction) (agents : AgentRegistry) (m : Method Parts (Unit {0})) (node : Node)
      → Keeps m
      → SameNonces node.parts.state
          (change_agents recover_signer hash tx agents m node).1.parts.state
  unfolding change_agents
  change_agents-SameNonces tx agents m node h =
      elim (verify_tx_owner recover_signer hash tx)
        as (λ r.
          SameNonces node.parts.state
            (elim r as (λ _. TxResult × Node) [
              | failed e ↦ (failed e, node)
              | done ↦ on_engine m (record node { agents = agents })
            ]).1.parts.state) [
              | failed e ↦ record { nonces = refl; version = refl }
              | done ↦ h node.parts
            ]

  -- A payload that succeeds or fails writes no nonce.
  pub payload-SameNonces :
      (tx : Transaction) (payload : TxPayload) (node : Node)
      → SameNonces node.parts.state (payload_call recover_signer hash tx payload node).1.parts.state
  unfolding payload_call
  payload-SameNonces tx (TxPayload.set_agent a) node =
      change_agents-SameNonces tx (register_agent tx.from a.agent a.permissions node.agents)
        (set_agent tx.from a) node (set_agent-Keeps tx.from a)
  payload-SameNonces tx (TxPayload.remove_agent a) node =
      change_agents-SameNonces tx (unregister_agent tx.from a.agent node.agents)
        (remove_agent tx.from a) node (remove_agent-Keeps tx.from a)
  payload-SameNonces tx payload node = run_payload-SameNonces tx.from payload node

  -- The steps of an execution that succeeds.
  record Executed (tx : Transaction) (node node' : Node) : Type 0 where
    signed : recover_signer tx ≡ some tx.from
    in_line : get_nonce node.parts.state tx.from ≡ tx.nonce
    called : Node
    kept : SameNonces node.parts.state called.parts.state
    settled : node' ≡ settle recover_signer hash tx called

  execute-Executed :
      (tx : Transaction) (node node' : Node)
      → execute recover_signer hash tx node ≡ (done, node')
      → Executed tx node node'
  unfolding execute verify_transaction verify_nonce execute_tx_payload
  execute-Executed tx node node' e =
      let run = payload_call recover_signer hash tx tx.payload node in
      let good : run ≡ (done, run.1) = ground arith in
      record {
        signed = ground arith;
        in_line = ground arith;
        called = run.1;
        kept = payload-SameNonces tx tx.payload node;
        settled = ground arith;
      }

  next_nonce :
      (tx : Transaction) (called node' : Node)
      → get_nonce called.parts.state tx.from ≡ tx.nonce
      → node' ≡ settle recover_signer hash tx called
      → get_nonce node'.parts.state tx.from ≡ (tx.nonce + 1) % u64_mod
  unfolding settle
  next_nonce tx called node' current settled =
      rw settled
        (get_nonce-increment_nonce tx.from called.parts.state ∙ ap (λ n. (n + 1) % u64_mod) current)

  -- A transaction that is executed is signed by its sender and has the sender's nonce, and the nonce
  -- of the sender is then the next one.
  pub execute-nonce :
      (tx : Transaction) (node node' : Node)
      → execute recover_signer hash tx node ≡ (done, node')
      → (recover_signer tx ≡ some tx.from)
        × (get_nonce node.parts.state tx.from ≡ tx.nonce)
        × (get_nonce node'.parts.state tx.from ≡ (tx.nonce + 1) % u64_mod)
  unfolding settle
  execute-nonce tx node node' e =
      let x = execute-Executed tx node node' e in
      (
        x.signed,
        x.in_line,
        next_nonce tx x.called node' (get_nonce-same _ _ tx.from x.kept ∙ x.in_line) x.settled,
      )

  -- A transaction that was executed is refused when it comes again, as its nonce is too low, and
  -- changes nothing. Its nonce is not the last u64.
  pub execute-replay :
      (tx : Transaction) (node node' : Node)
      → tx.nonce + 1 < u64_mod
      → execute recover_signer hash tx node ≡ (done, node')
      → execute recover_signer hash tx node'
        ≡ (failed (invalid_nonce (tx.nonce + 1) tx.nonce), node')
  unfolding execute verify_transaction verify_nonce
  execute-replay tx node node' room e =
      let (signed, _, next) = execute-nonce tx node node' e in ground arith
