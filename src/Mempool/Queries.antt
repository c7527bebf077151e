-- ===== src/Mempool/Queries.antt =====
-- The rest of `Mempool` and `TransactionIndex` of crates/mempool/src. The order in which a hash map
-- gives its senders is a parameter.
use Prim.Native.String.{String}
use pranklin.Base.{
  ℕ, ◌-◌, Option, none, some, List, [], ◌∷◌, ◌++◌, length, take, Bool, true, false, leb, ltb, ◌==◌,
  if◌then◌else◌, map,
}
use pranklin.Base.Maps.{Map, lookup}
use pranklin.Base.Words.{add_u64}
use pranklin.Types.Transaction.{Transaction}
use pranklin.Mempool.Defs.{
  Mempool, MempoolConfig, TransactionIndex, AddResult, MempoolError, mempool_full,
  rate_limit_exceeded, invalid_nonce, nonce_gap, or_no_nonces, get_by_sender, remove_tx,
  remove_up_to_nonce, add,
}

-- `MempoolConfig::validate`; `none` is `Ok`.
unfoldable pub validate : MempoolConfig → Option String
validate c =
    if c.max_size == 0
    then some "max_size must be greater than 0"
    else if c.max_txs_per_sender == 0
    then some "max_txs_per_sender must be greater than 0"
    else if ltb c.max_size c.max_txs_per_sender
    then some "max_txs_per_sender cannot exceed max_size"
    else none

unfoldable pub is_retryable : MempoolError → Bool
is_retryable (mempool_full n) = true
is_retryable _ = false

unfoldable pub is_rate_limited : MempoolError → Bool
is_rate_limited (rate_limit_exceeded s n m) = true
is_rate_limited _ = false

unfoldable pub is_nonce_error : MempoolError → Bool
is_nonce_error (invalid_nonce s n m) = true
is_nonce_error (nonce_gap s n m) = true
is_nonce_error _ = false

abbrev pub empty_index : TransactionIndex
empty_index = record { txs = []; by_sender = λ _. none }

-- `Mempool::new`
unfoldable pub new_mempool : MempoolConfig → Mempool
new_mempool config = record { index = empty_index; config = config }

unfoldable pub is_full : Mempool → Bool
is_full pool = leb pool.config.max_size (length pool.index.txs)

unfoldable pub available_capacity : Mempool → ℕ
available_capacity pool = pool.config.max_size - length pool.index.txs

unfoldable pub get_tx : Mempool → ℕ → Option Transaction
get_tx pool hash = lookup hash pool.index.txs

unfoldable pub clear_pool : Mempool → Mempool
clear_pool pool = record pool { index = empty_index }

-- The last key, and the first.
unfoldable pub last_nonce : Map ℕ → Option ℕ
last_nonce [] = none
last_nonce ((n, hash) ∷ nonces) = elim (last_nonce nonces) [
  | none ↦ some n
  | some later ↦ some later
]

unfoldable pub get_highest_nonce : TransactionIndex → ℕ → Option ℕ
get_highest_nonce index sender = last_nonce (or_no_nonces (index.by_sender sender))

unfoldable pub get_lowest_nonce : TransactionIndex → ℕ → Option ℕ
get_lowest_nonce index sender = elim (or_no_nonces (index.by_sender sender)) [
  | [] ↦ none
  | e ∷ nonces ↦ some e.0
]

unfoldable pub has_nonce : TransactionIndex → ℕ → ℕ → Bool
has_nonce index sender nonce = elim (lookup nonce (or_no_nonces (index.by_sender sender))) [
  | none ↦ false
  | some hash ↦ true
]

-- The sum is one of u64 in a release build.
unfoldable pub next_nonce : Mempool → ℕ → Option ℕ
next_nonce pool sender = elim (get_highest_nonce pool.index sender) [
  | none ↦ none
  | some n ↦ some (add_u64 n 1)
]

unfoldable pub next_nonce_or_default : Mempool → ℕ → ℕ
next_nonce_or_default pool sender = elim (next_nonce pool sender) [ none ↦ 0 | some n ↦ n ]

unfoldable pub remove : ℕ → Mempool → Option Transaction × Mempool
remove hash pool =
    let (tx, index) = remove_tx hash pool.index in (tx, record pool { index = index })

abbrev pub hash_of : ℕ × Transaction → ℕ
hash_of entry = entry.0

unfoldable pub prune_sender_nonces : ℕ → ℕ → Mempool → List ℕ × Mempool
prune_sender_nonces sender up_to_nonce pool =
    let (removed, index) = remove_up_to_nonce sender up_to_nonce pool.index in
    (map hash_of removed, record pool { index = index })

-- The transactions of the senders one after the other.
unfoldable pub all_txs : TransactionIndex → List ℕ → List Transaction
all_txs index [] = []
all_txs index (s ∷ senders) = get_by_sender index s ++ all_txs index senders

unfoldable pub ready_txs : List ℕ → ℕ → Mempool → List Transaction
ready_txs senders limit pool = take limit (all_txs pool.index senders)

module _ (hash : Transaction → ℕ) where
  unfoldable pub add_batch : List Transaction → Mempool → List AddResult × Mempool
  add_batch [] pool = ([], pool)
  add_batch (tx ∷ txs) pool =
      let (r, pool') = add hash tx pool in
      let (rs, pool'') = add_batch txs pool' in (r ∷ rs, pool'')
