-- ===== src/Exec/Declared.antt =====
-- What a transaction writes against what it declares: crates/tx/src/lib.rs and
-- crates/exec/src/tx_executor.rs.
use pranklin.Base.{
  ℕ, ap, sym, ◌≡◌, ◌∙◌, ◌+◌, ◌%◌, ◌-◌, refl, false, Option, arith, inl, inr, ok, Method,
  Result-cases, if◌then◌else◌,
}
use pranklin.Base.Words.{fit, u64_mod}
use pranklin.Types.Access.{payload_accesses, declare_accesses, writes_balance, writes_nonce}
use pranklin.Types.Transaction.{Transaction, TxPayload}
use pranklin.Types.Tx.{DepositTx, WithdrawTx, TransferTx, BridgeDepositTx, BridgeWithdrawTx}
use pranklin.State.{State, get_balance, get_nonce, set_nonce, increment_nonce}
use pranklin.State.Laws.{get_balance-set_balance, get_nonce-set_nonce}
use pranklin.Services.Parts.{Parts}
use pranklin.Services.Account.{
  update_balance, deposit, withdraw, transfer, bridge_deposit, bridge_withdraw,
}
use pranklin.Services.Orders.{place_order, cancel_order, close_position, set_agent, remove_agent}
use pranklin.Services.Balances.{transfer_moves}
use pranklin.Exec.Defs.{
  Node, AgentRegistry, register_agent, unregister_agent, done, on_engine, run_payload,
  change_agents, payload_call, settle, execute, execute_tx_payload, verify_transaction,
  verify_nonce,
}
use pranklin.Exec.Trading.{
  SameAccounts, KeepsAccounts, cancel_order-KeepsAccounts, place_order-KeepsAccounts,
  close_position-KeepsAccounts, set_agent-KeepsAccounts, remove_agent-KeepsAccounts,
}
use pranklin.Exec.Replay.{get_nonce-same, payload-SameNonces}

module _ (b j : ℕ) where
  -- A method that keeps the balance of `b` in the asset `j` if it succeeds.
  abbrev pub KeepsBalance : {A : Type 0} → Method Parts A → Type 0
  KeepsBalance {A} m =
      (p p' : Parts) (a : A) → m p ≡ (ok a, p') → get_balance p'.state b j ≡ get_balance p.state b j

  deposit-KeepsBalance :
      (a : ℕ) (tx : DepositTx)
      → writes_balance (payload_accesses a (TxPayload.deposit tx)) b j ≡ false
      → KeepsBalance (deposit a tx)
  unfolding deposit update_balance payload_accesses fit
  deposit-KeepsBalance a tx off p p' r e = ground (
    arith,
    get_balance-set_balance a tx.asset_id (get_balance p.state a tx.asset_id + tx.amount) b j
        p.state,
  )

  withdraw-KeepsBalance :
      (a : ℕ) (tx : WithdrawTx)
      → writes_balance (payload_accesses a (TxPayload.withdraw tx)) b j ≡ false
      → KeepsBalance (withdraw a tx)
  unfolding withdraw update_balance payload_accesses
  withdraw-KeepsBalance a tx off p p' r e = ground (
    arith,
    get_balance-set_balance a tx.asset_id (get_balance p.state a tx.asset_id - tx.amount) b j
        p.state,
  )

  transfer-KeepsBalance :
      (a : ℕ) (tx : TransferTx)
      → writes_balance (payload_accesses a (TxPayload.transfer tx)) b j ≡ false
      → KeepsBalance (transfer a tx)
  unfolding payload_accesses
  transfer-KeepsBalance a tx off p p' r e =
      let (_, _, others) = transfer_moves a tx p (ground arith) in
      ground (arith, others b j (ground arith))

  bridge_deposit-KeepsBalance :
      (a : ℕ) (tx : BridgeDepositTx)
      → writes_balance (payload_accesses a (TxPayload.bridge_deposit tx)) b j ≡ false
      → KeepsBalance (bridge_deposit a tx)
  unfolding bridge_deposit payload_accesses fit
  bridge_deposit-KeepsBalance a tx off p p' r e = ground (
    arith,
    get_balance-set_balance tx.user tx.asset_id
        (get_balance p.state tx.user tx.asset_id + tx.amount) b j p.state,
  )

  bridge_withdraw-KeepsBalance :
      (a : ℕ) (tx : BridgeWithdrawTx)
      → writes_balance (payload_accesses a (TxPayload.bridge_withdraw tx)) b j ≡ false
      → KeepsBalance (bridge_withdraw a tx)
  unfolding bridge_withdraw payload_accesses
  bridge_withdraw-KeepsBalance a tx off p p' r e = ground (
    arith,
    get_balance-set_balance tx.user tx.asset_id
        (get_balance p.state tx.user tx.asset_id - tx.amount) b j p.state,
  )

  same_balance : {s s' : State} → SameAccounts s s' → get_balance s' b j ≡ get_balance s b j
  unfolding get_balance
  same_balance h = rw (h.balances, h.version) refl

  accounts-KeepsBalance : {A : Type 0} (m : Method Parts A) → KeepsAccounts m → KeepsBalance m
  accounts-KeepsBalance m h p p' a e =
      let ends : (m p).1 ≡ p' = ap (λ r. r.1) e in
      ap (λ q. get_balance q.state b j) (sym ends) ∙ same_balance (h p)

  on_engine-balance :
      {A : Type 0} (m : Method Parts A) (node node' : Node)
      → KeepsBalance m
      → on_engine m node ≡ (done, node')
      → get_balance node'.parts.state b j ≡ get_balance node.parts.state b j
  on_engine-balance m node node' h e = elim (Result-cases (m node.parts).0) [
    | inl (x, bad) ↦ ground arith
    | inr (a, good) ↦ h node.parts node'.parts a (ground arith)
  ]

  run_payload-balance :
      (from : ℕ) (payload : TxPayload) (node node' : Node)
      → writes_balance (payload_accesses from payload) b j ≡ false
      → run_payload from payload node ≡ (done, node')
      → get_balance node'.parts.state b j ≡ get_balance node.parts.state b j
  unfolding run_payload
  run_payload-balance from (TxPayload.deposit d) node node' off e =
      on_engine-balance (deposit from d) node node' (deposit-KeepsBalance from d off) e
  run_payload-balance from (TxPayload.withdraw w) node node' off e =
      on_engine-balance (withdraw from w) node node' (withdraw-KeepsBalance from w off) e
  run_payload-balance from (TxPayload.transfer t) node node' off e =
      on_engine-balance (transfer from t) node node' (transfer-KeepsBalance from t off) e
  run_payload-balance from (TxPayload.bridge_deposit d) node node' off e =
      on_engine-balance (bridge_deposit from d) node node' (bridge_deposit-KeepsBalance from d off)
        e
  run_payload-balance from (TxPayload.bridge_withdraw w) node node' off e =
      on_engine-balance (bridge_withdraw from w) node node'
        (bridge_withdraw-KeepsBalance from w off) e
  run_payload-balance from (TxPayload.place_order o) node node' off e =
      on_engine-balance (place_order from o) node node'
        (accounts-KeepsBalance _ (place_order-KeepsAccounts from o)) e
  run_payload-balance from (TxPayload.cancel_order o) node node' off e =
      on_engine-balance (cancel_order from o) node node'
        (accounts-KeepsBalance _ (cancel_order-KeepsAccounts from o)) e
  run_payload-balance from (TxPayload.close_position o) node node' off e =
      on_engine-balance (close_position from o) node node'
        (accounts-KeepsBalance _ (close_position-KeepsAccounts from o)) e
  run_payload-balance from (TxPayload.set_agent o) node node' off e =
      on_engine-balance (set_agent from o) node node'
        (accounts-KeepsBalance _ (set_agent-KeepsAccounts from o)) e
  run_payload-balance from (TxPayload.remove_agent o) node node' off e =
      on_engine-balance (remove_agent from o) node node'
        (accounts-KeepsBalance _ (remove_agent-KeepsAccounts from o)) e
  run_payload-balance from (TxPayload.modify_order m) node node' off e = ground arith

  module _ (recover_signer : Transaction → Option ℕ) (hash : Transaction → ℕ) where
    change_agents-balance :
        (tx : Transaction) (agents : AgentRegistry) (m : Method Parts (Unit {0}))
        (node node' : Node)
        → KeepsBalance m
        → change_agents recover_signer hash tx agents m node ≡ (done, node')
        → get_balance node'.parts.state b j ≡ get_balance node.parts.state b j
    unfolding change_agents
    change_agents-balance tx agents m node node' h e = elim (Result-cases (m node.parts).0) [
      | inl (x, bad) ↦ ground arith
      | inr (a, good) ↦ h node.parts node'.parts a (ground arith)
    ]

    payload-balance :
        (tx : Transaction) (payload : TxPayload) (node node' : Node)
        → writes_balance (payload_accesses tx.from payload) b j ≡ false
        → payload_call recover_signer hash tx payload node ≡ (done, node')
        → get_balance node'.parts.state b j ≡ get_balance node.parts.state b j
    unfolding payload_call
    payload-balance tx (TxPayload.set_agent a) node node' off e =
        change_agents-balance tx (register_agent tx.from a.agent a.permissions node.agents)
          (set_agent tx.from a) node node'
          (accounts-KeepsBalance _ (set_agent-KeepsAccounts tx.from a)) e
    payload-balance tx (TxPayload.remove_agent a) node node' off e =
        change_agents-balance tx (unregister_agent tx.from a.agent node.agents)
          (remove_agent tx.from a) node node'
          (accounts-KeepsBalance _ (remove_agent-KeepsAccounts tx.from a)) e
    payload-balance tx payload node node' off e =
        run_payload-balance tx.from payload node node' off e

    settle-balance :
        (tx : Transaction) (node : Node)
        → get_balance (settle recover_signer hash tx node).parts.state b j
          ≡ get_balance node.parts.state b j
    unfolding settle increment_nonce set_nonce get_balance
    settle-balance tx node = refl

    only_sender :
        (from : ℕ) (payload : TxPayload) (c : ℕ)
        → writes_nonce (payload_accesses from payload) c ≡ false
    unfolding payload_accesses
    only_sender from (TxPayload.deposit x) c = refl
    only_sender from (TxPayload.withdraw x) c = refl
    only_sender from (TxPayload.place_order x) c = refl
    only_sender from (TxPayload.cancel_order x) c = refl
    only_sender from (TxPayload.modify_order x) c = refl
    only_sender from (TxPayload.close_position x) c = refl
    only_sender from (TxPayload.set_agent x) c = refl
    only_sender from (TxPayload.remove_agent x) c = refl
    only_sender from (TxPayload.transfer x) c = refl
    only_sender from (TxPayload.bridge_deposit x) c = refl
    only_sender from (TxPayload.bridge_withdraw x) c = refl

    settle-nonce :
        (tx : Transaction) (node : Node) (c : ℕ)
        → get_nonce (settle recover_signer hash tx node).parts.state c ≡ (
            if writes_nonce (declare_accesses tx) c
            then (get_nonce node.parts.state c + 1) % u64_mod
            else get_nonce node.parts.state c)
    unfolding settle increment_nonce declare_accesses payload_accesses
    settle-nonce tx node c = ground (
      arith,
      only_sender tx.from tx.payload c,
      get_nonce-set_nonce tx.from c ((get_nonce node.parts.state tx.from + 1) % u64_mod)
          node.parts.state,
    )

    -- A transaction that is executed changes no balance that it does not declare to write; it raises
    -- by one the nonces that it declares to write, and changes no other.
    pub execute-declared :
        (tx : Transaction) (node node' : Node) (c : ℕ)
        → execute recover_signer hash tx node ≡ (done, node')
        → writes_balance (declare_accesses tx) b j ≡ false
        → (get_balance node'.parts.state b j ≡ get_balance node.parts.state b j)
          × (get_nonce node'.parts.state c ≡ (
              if writes_nonce (declare_accesses tx) c
              then (get_nonce node.parts.state c + 1) % u64_mod
              else get_nonce node.parts.state c))
    unfolding execute execute_tx_payload verify_transaction verify_nonce declare_accesses
    execute-declared tx node node' c e off_balance =
        let run = payload_call recover_signer hash tx tx.payload node in
        let good : run ≡ (done, run.1) = ground arith in
        let settled : node' ≡ settle recover_signer hash tx run.1 = ground arith in
        let same =
          get_nonce-same node.parts.state run.1.parts.state c
            (payload-SameNonces recover_signer hash tx tx.payload node) in
        rw settled (
          settle-balance tx run.1 ∙ payload-balance tx tx.payload node run.1 off_balance good,
          ground (arith, settle-nonce tx run.1 c, same),
        )
