-- ===== src/Exec/Defs.antt =====
-- `TransactionExecutor` of crates/exec/src/tx_executor.rs, over the operations of `Engine` in
-- crates/engine/src/lib.rs, and the registry of agents of crates/auth/src. The recovery of a signer
-- and the hash of a transaction are parameters.
use Prim.Native.String.{String}
use pranklin.Base.{
  ℕ, suc, Option, none, some, List, [], ◌∷◌, ltb, ◌==◌, if◌then◌else◌, update, number_key,
  EngineError, ok, err, Method,
}
use pranklin.Types.Transaction.{Transaction, TxPayload}
use pranklin.State.{get_nonce, increment_nonce}
use pranklin.Services.Parts.{Parts}
use pranklin.Services.Account.{deposit, withdraw, transfer, bridge_deposit, bridge_withdraw}
use pranklin.Services.Orders.{place_order, cancel_order, close_position, set_agent, remove_agent}
use pranklin.Mempool.Defs.{Mempool, remove_tx}

pub data TxExecutionError : Type 0 where
  auth : TxExecutionError
  engine : EngineError → TxExecutionError
  decode : TxExecutionError
  invalid_nonce : ℕ → ℕ → TxExecutionError
  nonce_gap : ℕ → ℕ → TxExecutionError
  not_implemented : String → TxExecutionError
  unauthorized_signer : TxExecutionError

pub data TxResult : Type 0 where
  done : TxResult
  failed : TxExecutionError → TxResult

-- `AgentRegistry`: the permissions of each agent of an account.
abbrev pub AgentRegistry : Type 0
AgentRegistry = ℕ → ℕ → Option ℕ

unfoldable pub register_agent : ℕ → ℕ → ℕ → AgentRegistry → AgentRegistry
register_agent account agent permissions r =
    update r account (update (r account) agent (some permissions))

unfoldable pub unregister_agent : ℕ → ℕ → AgentRegistry → AgentRegistry
unregister_agent account agent r = update r account (update (r account) agent none)

-- What the executor holds by mutable reference.
pub record Node : Type 0 where
  pub parts : Parts
  pub agents : AgentRegistry
  pub mempool : Mempool

unfoldable pub verify_nonce : Transaction → Node → TxResult
verify_nonce tx node =
    let current = get_nonce node.parts.state tx.from in
    if ltb tx.nonce current
    then failed (invalid_nonce current tx.nonce)
    else if ltb current tx.nonce
    then failed (nonce_gap current tx.nonce)
    else done

abbrev pub on_engine : {A : Type 0} → Method Parts A → Node → TxResult × Node
on_engine m node =
    let (r, p) = m node.parts in
    (elim r [ ok a ↦ done | err e ↦ failed (engine e) ], record node { parts = p })

-- The operation of the engine for a payload of a sender.
unfoldable pub run_payload : ℕ → TxPayload → Node → TxResult × Node
run_payload from (TxPayload.deposit d) node = on_engine (deposit from d) node
run_payload from (TxPayload.withdraw w) node = on_engine (withdraw from w) node
run_payload from (TxPayload.transfer t) node = on_engine (transfer from t) node
run_payload from (TxPayload.place_order o) node = on_engine (place_order from o) node
run_payload from (TxPayload.cancel_order c) node = on_engine (cancel_order from c) node
run_payload from (TxPayload.close_position p) node = on_engine (close_position from p) node
run_payload from (TxPayload.set_agent a) node = on_engine (set_agent from a) node
run_payload from (TxPayload.remove_agent a) node = on_engine (remove_agent from a) node
run_payload from (TxPayload.bridge_deposit d) node = on_engine (bridge_deposit from d) node
run_payload from (TxPayload.bridge_withdraw w) node = on_engine (bridge_withdraw from w) node
run_payload from (TxPayload.modify_order m) node = (failed (not_implemented "ModifyOrder"), node)

unfoldable pub execute_tx_payload_readonly : Transaction → Node → TxResult × Node
unfolding run_payload
execute_tx_payload_readonly tx node = run_payload tx.from tx.payload node

module _ (recover_signer : Transaction → Option ℕ) (hash : Transaction → ℕ) where
  unfoldable pub verify_transaction : Transaction → TxResult
  verify_transaction tx = elim (recover_signer tx) [
    | none ↦ failed auth
    | some signer ↦ if signer == tx.from then done else failed auth
  ]

  unfoldable pub verify_tx_owner : Transaction → TxResult
  verify_tx_owner tx = elim (recover_signer tx) [
    | none ↦ failed auth
    | some signer ↦ if signer == tx.from then done else failed unauthorized_signer
  ]

  -- A change of the agents, which only the owner of the account may make.
  unfoldable pub change_agents :
      Transaction → AgentRegistry → Method Parts (Unit {0}) → Node → TxResult × Node
  unfolding verify_tx_owner
  change_agents tx agents m node = elim (verify_tx_owner tx) [
    | failed e ↦ (failed e, node)
    | done ↦ on_engine m (record node { agents = agents })
  ]

  unfoldable pub payload_call : Transaction → TxPayload → Node → TxResult × Node
  unfolding change_agents
  payload_call tx (TxPayload.set_agent a) node =
      change_agents tx (register_agent tx.from a.agent a.permissions node.agents)
        (set_agent tx.from a) node
  payload_call tx (TxPayload.remove_agent a) node =
      change_agents tx (unregister_agent tx.from a.agent node.agents) (remove_agent tx.from a) node
  payload_call tx payload node = run_payload tx.from payload node

  unfoldable pub execute_tx_payload : Transaction → Node → TxResult × Node
  unfolding payload_call
  execute_tx_payload tx node = payload_call tx tx.payload node

  -- After the payload: the nonce of the sender, and the mempool.
  unfoldable pub settle : Transaction → Node → Node
  settle tx node = record node {
    parts = record node.parts { state = (increment_nonce tx.from node.parts.state).1 };
    mempool = record node.mempool { index = (remove_tx (hash tx) node.mempool.index).1 };
  }

  unfoldable pub execute : Transaction → Node → TxResult × Node
  unfolding settle
  execute tx node = elim (verify_transaction tx) [
    | failed e ↦ (failed e, node)
    | done ↦ elim (verify_nonce tx node) [
      | failed e ↦ (failed e, node)
      | done ↦
          let (r, node') = execute_tx_payload tx node in
          elim r [ failed e ↦ (failed e, node') | done ↦ (done, settle tx node') ]
    ]
  ]

  -- The transactions as they decode; the counts of successes and failures.
  unfoldable pub execute_batch : List (Option Transaction) → Node → ℕ × ℕ × Node
  unfolding execute
  execute_batch [] node = (0, 0, node)
  execute_batch (none ∷ txs) node =
      let (good, bad, node') = execute_batch txs node in (good, suc bad, node')
  execute_batch (some tx ∷ txs) node =
      let (r, node₁) = execute tx node in
      let (good, bad, node₂) = execute_batch txs node₁ in
      elim r [ done ↦ (suc good, bad, node₂) | failed e ↦ (good, suc bad, node₂) ]
