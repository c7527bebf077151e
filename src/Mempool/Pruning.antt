-- ===== src/Mempool/Pruning.antt =====
-- Pruning the transactions of a sender up to a nonce: crates/mempool/src/transaction_index.rs.
use pranklin.Base.{
  ℕ, ◌≡◌, none, some, [], ◌∷◌, Bool, true, false, leb, ◌==◌, if◌then◌else◌, arith, refl, inl, inr,
  Bool-cases, Option-cases, number_key, ◌&&◌, ◌||◌, ◌∙◌,
}
use pranklin.Base.Maps.{Map, lookup, erase, lookup-erase}
use pranklin.Types.Transaction.{Transaction}
use pranklin.Mempool.Defs.{TransactionIndex, drop_nonces, remove_up_to_nonce}
use pranklin.Base.Ordered.{AllAbove, IsOrdered, lookup-above}
use pranklin.Mempool.Consistency.{nonces_of, IsConsistent, read_entry}

-- The entries that pruning keeps are those above the bound.
drop_nonces-lookup :
    (bound n : ℕ) (nonces : Map ℕ) (txs : Map Transaction)
    → lookup n (drop_nonces bound nonces txs).1 ≡ (if leb n bound then none else lookup n nonces)
unfolding drop_nonces lookup
drop_nonces-lookup bound n [] txs = ground arith
drop_nonces-lookup bound n ((k, h) ∷ nonces) txs =
    ground (arith, drop_nonces-lookup bound n nonces (if leb k bound then erase h txs else txs))

-- Whether a dropped entry has a hash.
abbrev pub drops : ℕ → ℕ → Map ℕ → Bool
drops bound h [] = false
drops bound h ((k, g) ∷ nonces) = (leb k bound && h == g) || drops bound h nonces

drop_nonces-left :
    (bound h : ℕ) (nonces : Map ℕ) (txs : Map Transaction)
    → drops bound h nonces ≡ false
    → lookup h (drop_nonces bound nonces txs).2 ≡ lookup h txs
unfolding drop_nonces
drop_nonces-left bound h [] txs kept = refl
drop_nonces-left bound h ((k, g) ∷ nonces) txs kept = ground (
  arith,
  drop_nonces-left bound h nonces (if leb k bound then erase g txs else txs),
  lookup-erase g h txs,
)

drops-entry :
    (bound h : ℕ) (nonces : Map ℕ)
    → IsOrdered nonces
    → drops bound h nonces ≡ true
    → (k : ℕ) × (lookup k nonces ≡ some h) × (leb k bound ≡ true)
unfolding lookup
drops-entry bound h [] ordered dropped = ground arith
drops-entry bound h ((k, g) ∷ nonces) ordered dropped = elim (Bool-cases (leb k bound && h == g)) [
  | inl here ↦ (k, ground arith, ground arith)
  | inr later ↦
      let (i, there, low) = drops-entry bound h nonces ordered.1 (ground arith) in
      (i, ground (arith, there, lookup-above k nonces ordered.0), low)
]

drop_nonces-AllAbove :
    (k bound : ℕ) (nonces : Map ℕ) (txs : Map Transaction)
    → AllAbove k nonces
    → AllAbove k (drop_nonces bound nonces txs).1
unfolding drop_nonces
drop_nonces-AllAbove k bound [] txs all = tt
drop_nonces-AllAbove k bound ((j, g) ∷ nonces) txs all =
    ground
      (arith, drop_nonces-AllAbove k bound nonces (if leb j bound then erase g txs else txs) all.1)

drop_nonces-IsOrdered :
    (bound : ℕ) (nonces : Map ℕ) (txs : Map Transaction)
    → IsOrdered nonces
    → IsOrdered (drop_nonces bound nonces txs).1
unfolding drop_nonces
drop_nonces-IsOrdered bound [] txs h = tt
drop_nonces-IsOrdered bound ((j, g) ∷ nonces) txs h =
    let left = if leb j bound then erase g txs else txs in
    ground (
      arith,
      drop_nonces-IsOrdered bound nonces left h.1,
      drop_nonces-AllAbove j bound nonces left h.0,
    )

remove_up_to_nonce-nonces :
    (sender bound s n : ℕ) (index : TransactionIndex)
    → lookup n (nonces_of (remove_up_to_nonce sender bound index).1 s)
      ≡ (if s == sender && leb n bound then none else lookup n (nonces_of index s))
unfolding remove_up_to_nonce lookup
remove_up_to_nonce-nonces sender bound s n index = elim (Option-cases (index.by_sender sender)) [
  | inl nobody ↦ ground arith
  | inr (nonces, found) ↦ ground (
    arith,
    read_entry (drop_nonces bound nonces index.txs).1,
    drop_nonces-lookup bound n nonces index.txs,
  )
]

remove_up_to_nonce-IsOrdered :
    (sender bound s : ℕ) (index : TransactionIndex)
    → IsConsistent index
    → IsOrdered (nonces_of (remove_up_to_nonce sender bound index).1 s)
unfolding remove_up_to_nonce
remove_up_to_nonce-IsOrdered sender bound s index c = elim (Option-cases (index.by_sender sender)) [
  | inl nobody ↦ ground (arith, c.ordered s)
  | inr (nonces, found) ↦ ground (
    arith,
    c.ordered s,
    c.ordered sender,
    read_entry (drop_nonces bound nonces index.txs).1,
    drop_nonces-IsOrdered bound nonces index.txs,
  )
]

remove_up_to_nonce-left :
    (sender bound h : ℕ) (index : TransactionIndex)
    → drops bound h (nonces_of index sender) ≡ false
    → lookup h (remove_up_to_nonce sender bound index).1.txs ≡ lookup h index.txs
unfolding remove_up_to_nonce
remove_up_to_nonce-left sender bound h index kept = elim (Option-cases (index.by_sender sender)) [
  | inl nobody ↦ ground arith
  | inr (nonces, found) ↦ ground (arith, drop_nonces-left bound h nonces index.txs)
]

-- Pruning a sender drops the nonces of the sender up to the bound, and no other entry of any sender;
-- and it keeps the index consistent: what is left still leads to its transactions.
pub remove_up_to_nonce-IsConsistent :
    (sender bound s n : ℕ) (index : TransactionIndex)
    → IsConsistent index
    → (lookup n (nonces_of (remove_up_to_nonce sender bound index).1 s)
        ≡ (if s == sender && leb n bound then none else lookup n (nonces_of index s)))
      × IsConsistent (remove_up_to_nonce sender bound index).1
remove_up_to_nonce-IsConsistent sender bound s n index c = (
  remove_up_to_nonce-nonces sender bound s n index,
  record {
    ordered = λ t. remove_up_to_nonce-IsOrdered sender bound t index c;
    leads = λ t k h there.
        let read = remove_up_to_nonce-nonces sender bound t k index in
        let old : lookup k (nonces_of index t) ≡ some h = ground (arith, read) in
        let (tx, found, from, nonce) = c.leads t k h old in
        elim (Bool-cases (drops bound h (nonces_of index sender))) [
          | inr kept ↦ (tx, remove_up_to_nonce-left sender bound h index kept ∙ found, from, nonce)
          | inl dropped ↦
              let (i, entry, low) =
                drops-entry bound h (nonces_of index sender) (c.ordered sender) dropped in
              let (tx', found', from', nonce') = c.leads sender i h entry in ground arith
        ];
  },
)
