-- ===== src/Tests/Syncs.antt =====
-- A follower of a leader, and the mempool and the accesses of a payment.
use pranklin.Base.{
  ℕ, ◌≤◌, ◌++◌, length, map, sum_by, ◌+◌, ◌%◌, ◌≡◌, refl, false, some, none, [], ◌∷◌, Option, List,
  arith, leb, ◌==◌, ◌&&◌, if◌then◌else◌, number_key,
}
use pranklin.Base.Maps.{lookup, insert}
use pranklin.Base.Words.{u64_mod}
use pranklin.Types.Transaction.{Transaction}
use pranklin.Types.Access.{declare_accesses, payload_accesses, writes_balance, writes_nonce}
use pranklin.State.{get_balance, get_nonce}
use pranklin.Engine.Defs.{Engine, engine_of}
use pranklin.Mempool.Defs.{
  Mempool, found_in, contains_tx, insert_tx, sender_tx_count, get_by_sender, TransactionIndex, add,
  remove_up_to_nonce,
}
use pranklin.Mempool.Queries.{all_txs, ready_txs}
use pranklin.Mempool.Consistency.{IsConsistent, nonces_of, add-IsConsistent}
use pranklin.Mempool.Pruning.{remove_up_to_nonce-IsConsistent}
use pranklin.Exec.ReadOnly.{ReadOnlyExecutor, read_only_executor}
use pranklin.Exec.Server.{max_txs_per_block, fetch_txs_from_mempool}
use pranklin.Exec.Blocks.{IsFull, fetch_txs_from_mempool-prefix}
use pranklin.Exec.Declared.{execute-declared}
use pranklin.Tests.Samples.{open_market}
use pranklin.Tests.Nodes.{signer, hash, payment, node, paid, pays, empty_pool}

-- A leader with the payment in block 1, and nothing in the others.
abbrev leader : ℕ → ℕ → Option (List (ℕ × Transaction))
leader from to = some (if from == 1 then (1, payment) ∷ [] else [])

abbrev follower : ReadOnlyExecutor
follower = read_only_executor open_market

abbrev follower_behind : ReadOnlyExecutor
follower_behind = record { engine = engine_of open_market; block_height = 0 }

not_declared : writes_balance (declare_accesses payment) 2 1 ≡ false
unfolding declare_accesses payload_accesses
not_declared = refl

execute-declared_example :
    (get_balance paid.parts.state 2 1 ≡ get_balance node.parts.state 2 1)
    × (get_nonce paid.parts.state 1 ≡ (
        if writes_nonce (declare_accesses payment) 1
        then (get_nonce node.parts.state 1 + 1) % u64_mod
        else get_nonce node.parts.state 1))
execute-declared_example = execute-declared 2 1 signer hash payment node paid 1 pays not_declared

empty-IsConsistent : IsConsistent empty_pool.index
unfolding lookup
empty-IsConsistent = record { ordered = λ s. tt; leads = λ s n h there. ground arith }

abbrev filled : TransactionIndex
filled = (add hash payment empty_pool).1.index

abbrev pool_of_one : Mempool
pool_of_one = (add hash payment empty_pool).1

abbrev encode : Transaction → List ℕ
encode tx = 7 ∷ tx.nonce ∷ []

offered_ready : map encode (ready_txs (2 ∷ []) max_txs_per_block pool_of_one) ≡ (7 ∷ 0 ∷ []) ∷ []
unfolding add sender_tx_count get_by_sender ready_txs all_txs lookup found_in contains_tx insert_tx
    insert
offered_ready = refl

fetch_txs_from_mempool-prefix_example :
    (rest : List (List ℕ)) × (map encode (ready_txs (2 ∷ []) max_txs_per_block pool_of_one)
      ≡ fetch_txs_from_mempool encode (2 ∷ []) 1 pool_of_one ++ rest)
    × (sum_by length (fetch_txs_from_mempool encode (2 ∷ []) 1 pool_of_one) ≤ 1)
    × (length (fetch_txs_from_mempool encode (2 ∷ []) 1 pool_of_one) ≤ 1000)
    × IsFull 1 (sum_by length (fetch_txs_from_mempool encode (2 ∷ []) 1 pool_of_one)) rest
fetch_txs_from_mempool-prefix_example =
    fetch_txs_from_mempool-prefix encode (2 ∷ []) 1 pool_of_one (rw offered_ready (omega arith, tt))

filled-IsConsistent : IsConsistent filled
filled-IsConsistent = add-IsConsistent hash payment empty_pool empty-IsConsistent

remove_up_to_nonce-IsConsistent_example :
    (lookup 0 (nonces_of (remove_up_to_nonce 2 4 filled).1 2)
      ≡ (if 2 == 2 && leb 0 4 then none else lookup 0 (nonces_of filled 2)))
    × IsConsistent (remove_up_to_nonce 2 4 filled).1
remove_up_to_nonce-IsConsistent_example =
    remove_up_to_nonce-IsConsistent 2 4 2 0 filled filled-IsConsistent
