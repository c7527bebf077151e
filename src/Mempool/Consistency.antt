-- ===== src/Mempool/Consistency.antt =====
-- Each nonce of the index leads to a transaction of its sender: crates/mempool/src.
use pranklin.Base.{
  ℕ, ◌≡◌, ◌⊎◌, none, some, [], ◌∷◌, false, ◌==◌, if◌then◌else◌, arith, refl, inl, inr, Bool-cases,
  Option-cases, number_key, ◌&&◌,
}
use pranklin.Base.Maps.{Map, lookup, erase, lookup-insert, lookup-erase}
use pranklin.Types.Transaction.{Transaction}
use pranklin.Mempool.Defs.{
  Mempool, TransactionIndex, or_no_nonces, entry_of, contains_tx, remove_tx, insert_tx, add,
}
use pranklin.Base.Ordered.{IsOrdered, insert-IsOrdered, erase-IsOrdered, lookup-erase_same}

abbrev pub nonces_of : TransactionIndex → ℕ → Map ℕ
nonces_of index sender = or_no_nonces (index.by_sender sender)

-- A transaction of a sender with a nonce stands under a hash.
abbrev pub Leads : Map Transaction → ℕ → ℕ → ℕ → Type 0
Leads txs sender n h =
    (tx : Transaction) × (lookup h txs ≡ some tx) × (tx.from ≡ sender) × (tx.nonce ≡ n)

-- The nonces of each sender are in order, and each leads to a transaction of the sender with it.
pub record IsConsistent (index : TransactionIndex) : Type 0 where
  pub ordered : (s : ℕ) → IsOrdered (nonces_of index s)
  pub leads : (s n h : ℕ) → lookup n (nonces_of index s) ≡ some h → Leads index.txs s n h

pub read_entry : (m : Map ℕ) → or_no_nonces (entry_of m) ≡ m
read_entry [] = refl
read_entry (e ∷ m) = refl

-- What the nonces of a sender are after a removal.
remove_tx-nonces :
    (hash : ℕ) (index : TransactionIndex) (tx : Transaction) (s : ℕ)
    → lookup hash index.txs ≡ some tx
    → nonces_of (remove_tx hash index).1 s
      ≡ (if s == tx.from then erase tx.nonce (nonces_of index s) else nonces_of index s)
unfolding remove_tx erase
remove_tx-nonces hash index tx s there = elim (Option-cases (index.by_sender tx.from)) [
  | inl nobody ↦ ground arith
  | inr (nonces, found) ↦ ground (arith, read_entry (erase tx.nonce nonces))
]

-- What is left under a nonce after a removal led to another transaction.
remove_tx-Leads :
    (hash : ℕ) (index : TransactionIndex) (tx : Transaction) (s n h : ℕ)
    → IsConsistent index
    → lookup hash index.txs ≡ some tx
    → lookup n (nonces_of index s) ≡ some h
    → (s == tx.from && n == tx.nonce) ≡ false
    → Leads (remove_tx hash index).1.txs s n h
unfolding remove_tx
remove_tx-Leads hash index tx s n h c there old other =
    let (t, found, from, nonce) = c.leads s n h old in
    let apart : (h == hash) ≡ false = ground arith in
    (t, ground (arith, lookup-erase hash h index.txs apart), from, nonce)

remove_tx-entry :
    (hash : ℕ) (index : TransactionIndex) (tx : Transaction) (s n h : ℕ)
    → IsConsistent index
    → lookup hash index.txs ≡ some tx
    → lookup n (nonces_of (remove_tx hash index).1 s) ≡ some h
    → (lookup n (nonces_of index s) ≡ some h) × ((s == tx.from && n == tx.nonce) ≡ false)
remove_tx-entry hash index tx s n h c there left =
    let read = remove_tx-nonces hash index tx s there in
    elim (Bool-cases (n == tx.nonce)) [
      | inl same ↦
          ground (arith, read, lookup-erase_same tx.nonce (nonces_of index s) (c.ordered s))
      | inr apart ↦ ground (arith, read, lookup-erase tx.nonce n (nonces_of index s) apart)
    ]

remove_tx_unknown :
    (hash : ℕ) (index : TransactionIndex)
    → lookup hash index.txs ≡ none
    → (remove_tx hash index).1 ≡ index
unfolding remove_tx
remove_tx_unknown hash index unknown = ground arith

-- Removing a transaction by its hash keeps the index consistent.
pub remove_tx-IsConsistent :
    (hash : ℕ) (index : TransactionIndex)
    → IsConsistent index
    → IsConsistent (remove_tx hash index).1
remove_tx-IsConsistent hash index c = elim (Option-cases (lookup hash index.txs)) [
  | inl unknown ↦ rw (remove_tx_unknown hash index unknown) c
  | inr (tx, there) ↦ record {
    ordered = λ s. ground (
      arith,
      c.ordered s,
      remove_tx-nonces hash index tx s there,
      erase-IsOrdered tx.nonce (nonces_of index s) (c.ordered s),
    );
    leads = λ s n h left.
        let (old, other) = remove_tx-entry hash index tx s n h c there left in
        remove_tx-Leads hash index tx s n h c there old other;
  }
]

module _ (hash : Transaction → ℕ) where
  insert_tx-Leads :
      (tx : Transaction) (index : TransactionIndex) (s n h : ℕ)
      → IsConsistent index
      → lookup (hash tx) index.txs ≡ none
      → lookup n (nonces_of (insert_tx hash tx index) s) ≡ some h
      → Leads (insert_tx hash tx index).txs s n h
  unfolding insert_tx
  insert_tx-Leads tx index s n h c new there =
      let read = lookup-insert tx.nonce n (hash tx) (nonces_of index tx.from) in
      let stored = lookup-insert (hash tx) h tx index.txs in
      elim (Bool-cases (tx.from == s && n == tx.nonce)) [
        | inl own ↦ (tx, ground (arith, read, stored), ground arith, ground arith)
        | inr other ↦
            let old : lookup n (nonces_of index s) ≡ some h = ground (arith, read) in
            let (t, found, from, nonce) = c.leads s n h old in
            (t, ground (arith, stored), from, nonce)
      ]

  insert_tx-IsConsistent :
      (tx : Transaction) (index : TransactionIndex)
      → IsConsistent index
      → lookup (hash tx) index.txs ≡ none
      → IsConsistent (insert_tx hash tx index)
  unfolding insert_tx
  insert_tx-IsConsistent tx index c new = record {
    ordered = λ s. ground (
      arith,
      c.ordered s,
      insert-IsOrdered tx.nonce (hash tx) (nonces_of index tx.from) (c.ordered tx.from),
    );
    leads = λ s n h there. insert_tx-Leads tx index s n h c new there;
  }

  -- Adding a transaction, whether it is accepted or refused, keeps the index consistent.
  pub add-IsConsistent :
      (tx : Transaction) (pool : Mempool)
      → IsConsistent pool.index
      → IsConsistent (add hash tx pool).1.index
  unfolding add contains_tx
  add-IsConsistent tx pool c =
      let after = (add hash tx pool).1.index in
      let added : (lookup (hash tx) pool.index.txs ≡ none) × (after ≡ insert_tx hash tx pool.index)
          ⊎ (after ≡ pool.index) =
        ground arith in
      elim added [
        | inl (new, grown) ↦ rw grown (insert_tx-IsConsistent tx pool.index c new)
        | inr kept ↦ rw kept c
      ]
