-- ===== src/Mempool/Laws.antt =====
-- The limits of the mempool, and what an added transaction reads as.
use pranklin.Base.{
  ℕ, suc, ◌≤◌, ◌≡◌, ◌⊎◌, some, [], ◌∷◌, length, arith, inl, inr, Bool-cases, leb, ◌==◌,
  if◌then◌else◌, number_key,
}
use pranklin.Base.Maps.{Map, lookup, insert, lookup-insert}
use pranklin.Types.Transaction.{Transaction}
use pranklin.Mempool.Defs.{
  Mempool, added, refused, MempoolError, mempool_full, duplicate_transaction, rate_limit_exceeded,
  contains_tx, or_no_nonces, sender_tx_count, insert_tx, add,
}

length-insert : {V : Type 0} (k : ℕ) (v : V) (m : Map V) → length (insert k v m) ≤ suc (length m)
unfolding insert
length-insert k v [] = omega arith
length-insert k v ((j, w) ∷ m) = ground (arith, length-insert k v m)

-- The pool and each sender are within their limits.
pub record IsWithinLimits (pool : Mempool) : Type 0 where
  pub size : length pool.index.txs ≤ pool.config.max_size
  pub senders : (s : ℕ) → sender_tx_count pool.index s ≤ pool.config.max_txs_per_sender

module _ (hash : Transaction → ℕ) where
  -- Whatever is added, a mempool stays within its limits on all transactions and on those of each
  -- sender.
  pub add-IsWithinLimits :
      (tx : Transaction) (pool : Mempool)
      → IsWithinLimits pool
      → IsWithinLimits (add hash tx pool).1
  unfolding add insert_tx sender_tx_count
  add-IsWithinLimits tx pool h =
      let nonces = or_no_nonces (pool.index.by_sender tx.from) in
      record {
        size = ground (arith, h.size, length-insert (hash tx) tx pool.index.txs);
        senders = λ s. ground (arith, h.senders s, length-insert tx.nonce (hash tx) nonces);
      }

  -- A transaction that was added is found by its hash, and every other hash reads as before; one
  -- that was refused changes nothing.
  pub add-lookup :
      (tx : Transaction) (pool : Mempool) (h : ℕ)
      → let (r, pool') = add hash tx pool in
        ((r ≡ added (hash tx))
          × (lookup h pool'.index.txs
              ≡ (if h == hash tx then some tx else lookup h pool.index.txs)))
        ⊎ ((e : MempoolError) × (r ≡ refused e) × (pool' ≡ pool))
  unfolding add insert_tx
  add-lookup tx pool h =
      let limit = pool.config.max_size in
      let count = sender_tx_count pool.index tx.from in
      let per_sender = pool.config.max_txs_per_sender in
      elim (Bool-cases (leb limit (length pool.index.txs))) [
        | inl full ↦ inr (mempool_full limit, ground arith, ground arith)
        | inr space ↦ elim (Bool-cases (contains_tx pool.index (hash tx))) [
          | inl twice ↦ inr (duplicate_transaction (hash tx), ground arith, ground arith)
          | inr new ↦ elim (Bool-cases (leb per_sender count)) [
            | inl many ↦
                inr (rate_limit_exceeded tx.from count per_sender, ground arith, ground arith)
            | inr few ↦
                inl (ground arith, ground (arith, lookup-insert (hash tx) h tx pool.index.txs))
          ]
        ]
      ]
