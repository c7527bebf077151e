-- ===== src/Exec/Batches.antt =====
-- The nonces of the transactions of a block: `execute_batch` of crates/exec/src/tx_executor.rs.
use pranklin.Base.{
  ℕ, zero, suc, ◌+◌, ◌<◌, ◌%◌, ◌==◌, ◌≡◌, ◌∙◌, ◌⊎◌, inl, inr, refl, Option, none, some, List, [],
  ◌∷◌, length, arith, if◌then◌else◌, number_key, ap, Bool-cases, sym,
}
use pranklin.Base.Words.{u64_mod}
use pranklin.Types.Transaction.{Transaction}
use pranklin.State.{get_nonce, increment_nonce}
use pranklin.State.Laws.{get_nonce-set_nonce}
use pranklin.Exec.Defs.{
  Node, TxResult, done, failed, verify_transaction, verify_nonce, payload_call, execute_tx_payload,
  settle, execute, execute_batch,
}
use pranklin.Exec.Replay.{get_nonce-same, payload-SameNonces}

-- The nonces of the transactions of a sender.
abbrev pub nonces_from : ℕ → List Transaction → List ℕ
nonces_from sender [] = []
nonces_from sender (tx ∷ txs) =
    let later = nonces_from sender txs in if tx.from == sender then tx.nonce ∷ later else later

abbrev pub counting : ℕ → ℕ → List ℕ
counting first zero = []
counting first (suc n) = first ∷ counting (suc first) n

TxResult-cases : (r : TxResult) → (r ≡ done) ⊎ ((e : _) × (r ≡ failed e))
TxResult-cases done = inl refl
TxResult-cases (failed e) = inr (e, refl)

module _ (recover_signer : Transaction → Option ℕ) (hash : Transaction → ℕ) where
  -- The transactions that are executed without an error.
  abbrev pub executed : List (Option Transaction) → Node → List Transaction
  executed [] node = []
  executed (none ∷ txs) node = executed txs node
  executed (some tx ∷ txs) node =
      let (r, node₁) = execute recover_signer hash tx node in
      let later = executed txs node₁ in elim r [ done ↦ tx ∷ later | failed e ↦ later ]

  settle-next :
      (tx : Transaction) (node : Node) (c : ℕ)
      → get_nonce (settle recover_signer hash tx node).parts.state c ≡ (
          if tx.from == c
          then (get_nonce node.parts.state c + 1) % u64_mod
          else get_nonce node.parts.state c)
  unfolding settle increment_nonce
  settle-next tx node c = ground (
    arith,
    get_nonce-set_nonce tx.from c ((get_nonce node.parts.state tx.from + 1) % u64_mod)
        node.parts.state,
  )

  -- What an execution does to the nonces.
  execute-next :
      (tx : Transaction) (node : Node) (c : ℕ)
      → let (r, node') = execute recover_signer hash tx node in
        ((r ≡ done)
          × (get_nonce node.parts.state tx.from ≡ tx.nonce)
          × (get_nonce node'.parts.state c ≡ (
              if tx.from == c
              then (get_nonce node.parts.state c + 1) % u64_mod
              else get_nonce node.parts.state c)))
        ⊎ ((e : _) × (r ≡ failed e)
            × (get_nonce node'.parts.state c ≡ get_nonce node.parts.state c))
  unfolding execute execute_tx_payload verify_nonce
  execute-next tx node c =
      let run = payload_call recover_signer hash tx tx.payload node in
      let same =
        get_nonce-same node.parts.state run.1.parts.state c
          (payload-SameNonces recover_signer hash tx tx.payload node) in
      elim (TxResult-cases (verify_transaction recover_signer hash tx)) [
        | inr (e, bad) ↦ inr (e, ground (arith, bad), ground (arith, bad))
        | inl signed ↦ elim (TxResult-cases (verify_nonce tx node)) [
          | inr (e, bad) ↦ inr (e, ground (arith, signed, bad), ground (arith, signed, bad))
          | inl next ↦ elim (TxResult-cases run.0) [
            | inr (e, bad) ↦
                inr (e, ground (arith, signed, next, bad), ground (arith, signed, next, bad, same))
            | inl good ↦ inl (ground (arith, signed, next, good, same, settle-next tx run.1 c))
          ]
        ]
      ]

  -- In a block, the transactions of a sender that are executed carry consecutive nonces from the
  -- current one on, each once, and the nonce of the sender is raised by their number; as many
  -- transactions are counted as successes as are executed, and the others as failures (the nonce
  -- stays within u64).
  pub execute_batch-nonces :
      (txs : List (Option Transaction)) (node : Node) (c : ℕ)
      → get_nonce node.parts.state c + length txs < u64_mod
      → let (good, bad, node') = execute_batch recover_signer hash txs node in
        let own = nonces_from c (executed txs node) in
        let start = get_nonce node.parts.state c in
        (own ≡ counting start (length own))
        × (get_nonce node'.parts.state c ≡ start + length own)
        × (good ≡ length (executed txs node))
        × (good + bad ≡ length txs)
  unfolding execute_batch
  execute_batch-nonces [] node c room = (refl, omega arith, refl, refl)
  execute_batch-nonces (none ∷ txs) node c room =
      let (own, after, good, all) = execute_batch-nonces txs node c (omega (arith, room)) in
      (own, after, good, omega (arith, all))
  execute_batch-nonces (some tx ∷ txs) node c room =
      let node₁ = (execute recover_signer hash tx node).1 in
      let rest = execute_batch-nonces txs node₁ c in
      elim (execute-next tx node c) [
        | inr (e, bad, same) ↦
            let (own, after, good, all) = rest (omega (arith, room, same)) in
            ground (arith, bad, same, own, after, good, all)
        | inl (done_now, current, next) ↦ elim (Bool-cases (tx.from == c)) [
          | inl his ↦
              let raised : get_nonce node₁.parts.state c ≡ suc (get_nonce node.parts.state c) =
                ground (arith, next, his, room) in
              let (own, after, good, all) = rest (omega (arith, room, raised)) in
              let sender : tx.from ≡ c = ground (arith, his) in
              let first : tx.nonce ≡ get_nonce node.parts.state c =
                sym current ∙ ap (λ a. get_nonce node.parts.state a) sender in
              ground (arith, done_now, his, raised, first, own, after, good, all)
          | inr other ↦
              let same : get_nonce node₁.parts.state c ≡ get_nonce node.parts.state c =
                ground (arith, next, other) in
              let (own, after, good, all) = rest (omega (arith, room, same)) in
              ground (arith, done_now, other, same, own, after, good, all)
        ]
      ]
