-- ===== src/Mempool/Defs.antt =====
-- `TransactionIndex` and `Mempool` of crates/mempool/src: the transactions by hash, and the hashes
-- of each sender by nonce. The hash of a transaction is a parameter.
use Prim.Native.String.{String}
use pranklin.Base.{
  ℕ, Option, none, some, List, [], ◌∷◌, length, Bool, leb, if◌then◌else◌, update, number_key,
}
use pranklin.Base.Maps.{Map, lookup, insert, erase}
use pranklin.Types.Transaction.{Transaction}

pub record TransactionIndex : Type 0 where
  pub txs : Map Transaction
  pub by_sender : ℕ → Option (Map ℕ)

pub record MempoolConfig : Type 0 where
  pub max_size : ℕ
  pub max_txs_per_sender : ℕ
  pub strict_nonce_ordering : Bool

pub record Mempool : Type 0 where
  pub index : TransactionIndex
  pub config : MempoolConfig

pub data MempoolError : Type 0 where
  mempool_full : ℕ → MempoolError
  duplicate_transaction transaction_not_found : ℕ → MempoolError
  invalid_nonce nonce_gap : (sender nonce expected : ℕ) → MempoolError
  rate_limit_exceeded : (sender current limit : ℕ) → MempoolError
  invalid_config validation_failed other : String → MempoolError

pub data AddResult : Type 0 where
  added : ℕ → AddResult
  refused : MempoolError → AddResult

abbrev pub or_no_nonces : Option (Map ℕ) → Map ℕ
or_no_nonces none = []
or_no_nonces (some m) = m

-- A sender without nonces has no entry.
abbrev pub entry_of : Map ℕ → Option (Map ℕ)
entry_of [] = none
entry_of (e ∷ m) = some (e ∷ m)

-- `get_by_sender`: the transactions of a sender, in the order of their nonces.
unfoldable pub found_in : Map Transaction → Map ℕ → List Transaction
found_in txs [] = []
found_in txs ((n, hash) ∷ nonces) =
    let rest = found_in txs nonces in elim (lookup hash txs) [ none ↦ rest | some tx ↦ tx ∷ rest ]

unfoldable pub get_by_sender : TransactionIndex → ℕ → List Transaction
get_by_sender index sender = found_in index.txs (or_no_nonces (index.by_sender sender))

unfoldable pub sender_tx_count : TransactionIndex → ℕ → ℕ
sender_tx_count index sender = length (or_no_nonces (index.by_sender sender))

unfoldable pub contains_tx : TransactionIndex → ℕ → Bool
contains_tx index hash = elim (lookup hash index.txs) [ none ↦ Bool.false | some tx ↦ Bool.true ]

unfoldable pub remove_tx : ℕ → TransactionIndex → Option Transaction × TransactionIndex
remove_tx hash index = elim (lookup hash index.txs) [
  | none ↦ (none, index)
  | some tx ↦ (
    some tx,
    record {
      txs = erase hash index.txs;
      by_sender = elim (index.by_sender tx.from) [
        | none ↦ index.by_sender
        | some nonces ↦ update index.by_sender tx.from (entry_of (erase tx.nonce nonces))
      ];
    },
  )
]

-- The nonces up to a bound leave, each with its transaction, if that is there.
unfoldable pub drop_nonces : ℕ → Map ℕ → Map Transaction → Map Transaction × Map ℕ × Map Transaction
drop_nonces bound [] txs = ([], [], txs)
drop_nonces bound ((n, hash) ∷ nonces) txs =
    let (removed, kept, left) =
      drop_nonces bound nonces (if leb n bound then erase hash txs else txs) in
    if leb n bound
    then (elim (lookup hash txs) [ none ↦ removed | some tx ↦ (hash, tx) ∷ removed ], kept, left)
    else (removed, (n, hash) ∷ kept, left)

unfoldable pub remove_up_to_nonce : ℕ → ℕ → TransactionIndex → Map Transaction × TransactionIndex
remove_up_to_nonce sender bound index = elim (index.by_sender sender) [
  | none ↦ ([], index)
  | some nonces ↦
      let (removed, kept, left) = drop_nonces bound nonces index.txs in
      (removed, record { txs = left; by_sender = update index.by_sender sender (entry_of kept) })
]

module _ (hash : Transaction → ℕ) where
  unfoldable pub insert_tx : Transaction → TransactionIndex → TransactionIndex
  insert_tx tx index = record {
    txs = insert (hash tx) tx index.txs;
    by_sender =
        update index.by_sender tx.from
          (some (insert tx.nonce (hash tx) (or_no_nonces (index.by_sender tx.from))));
  }

  unfoldable pub add : Transaction → Mempool → AddResult × Mempool
  add tx pool =
      let count = sender_tx_count pool.index tx.from in
      if leb pool.config.max_size (length pool.index.txs)
      then (refused (mempool_full pool.config.max_size), pool)
      else if contains_tx pool.index (hash tx)
      then (refused (duplicate_transaction (hash tx)), pool)
      else if leb pool.config.max_txs_per_sender count
      then (refused (rate_limit_exceeded tx.from count pool.config.max_txs_per_sender), pool)
      else (added (hash tx), record pool { index = insert_tx tx pool.index })
