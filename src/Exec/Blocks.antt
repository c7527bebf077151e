-- ===== src/Exec/Blocks.antt =====
-- The transactions that are offered for a block, and the block itself: crates/exec/src/server.rs.
use mathlib.Core.Path.{subst}
use pranklin.Base.{
  ℕ, zero, suc, ◌+◌, ◌≤◌, ◌<◌, ◌≡◌, inl, inr, refl, Bool-cases, List, [], ◌∷◌, ◌++◌, ltb, length,
  map, take, sum_by, All, arith, ap, ltb→lt, sym,
}
use pranklin.Base.Words.{add_u64}
use pranklin.Types.Transaction.{Transaction}
use pranklin.Mempool.Defs.{Mempool}
use pranklin.Mempool.Queries.{ready_txs, all_txs}
use pranklin.Exec.Server.{within_bytes, Fitting, max_txs_per_block, fetch_txs_from_mempool}

-- The first of these, if there is one, is too large to follow a number of bytes.
abbrev pub IsFull : ℕ → ℕ → List (List ℕ) → Type 0
IsFull max_bytes total [] = Unit
IsFull max_bytes total (bytes ∷ rest) = max_bytes < total + length bytes

within_bytes-prefix :
    (max_bytes total : ℕ) (txs : List (List ℕ))
    → total ≤ max_bytes
    → All (Fitting max_bytes) txs
    → (rest : List (List ℕ)) × (txs ≡ within_bytes max_bytes total txs ++ rest)
      × (total + sum_by length (within_bytes max_bytes total txs) ≤ max_bytes)
      × IsFull max_bytes (total + sum_by length (within_bytes max_bytes total txs)) rest
unfolding within_bytes
within_bytes-prefix max_bytes total [] le fit = ([], refl, omega (arith, le), tt)
within_bytes-prefix max_bytes total (bytes ∷ txs) le fit =
    let sum = add_u64 total (length bytes) in
    let exact : sum ≡ total + length bytes = ground (arith, fit.0) in
    elim (Bool-cases (ltb max_bytes sum)) [
      | inl over ↦
          rw over
            (bytes ∷ txs, refl, omega (arith, le), omega (arith, ltb→lt max_bytes sum over, exact))
      | inr room ↦
          let (rest, split, fits, full) =
            within_bytes-prefix max_bytes sum txs (ground arith) fit.1 in
          let taken = sum_by length (within_bytes max_bytes sum txs) in
          let same : total + (length bytes + taken) ≡ sum + taken = omega (arith, exact) in
          rw room (
            rest,
            ap (λ xs. bytes ∷ xs) split,
            omega (arith, fits, same),
            subst (λ n. IsFull max_bytes n rest) (sym same) full,
          )
    ]

length-within_bytes :
    (max_bytes total : ℕ) (txs : List (List ℕ))
    → length (within_bytes max_bytes total txs) ≤ length txs
unfolding within_bytes
length-within_bytes max_bytes total [] = omega arith
length-within_bytes max_bytes total (bytes ∷ txs) =
    ground (arith, length-within_bytes max_bytes (add_u64 total (length bytes)) txs)

length-map-take :
    (encode : Transaction → List ℕ) (count : ℕ) (txs : List Transaction)
    → length (map encode (take count txs)) ≤ count
length-map-take encode zero txs = omega arith
length-map-take encode (suc count) [] = omega arith
length-map-take encode (suc count) (tx ∷ txs) = omega (arith, length-map-take encode count txs)

-- What is offered for a block is a prefix of the encoded transactions that the mempool has ready, of
-- at most 1000 transactions and at most as many bytes as a block may have; it is all of them, unless
-- the next one would exceed these bytes (the bytes of a block and of any one transaction fit u64
-- together).
pub fetch_txs_from_mempool-prefix :
    (encode : Transaction → List ℕ) (senders : List ℕ) (max_bytes : ℕ) (pool : Mempool)
    → All (Fitting max_bytes) (map encode (ready_txs senders max_txs_per_block pool))
    → let ready = map encode (ready_txs senders max_txs_per_block pool) in
      let offered = fetch_txs_from_mempool encode senders max_bytes pool in
      (rest : List (List ℕ)) × (ready ≡ offered ++ rest)
      × (sum_by length offered ≤ max_bytes)
      × (length offered ≤ 1000)
      × IsFull max_bytes (sum_by length offered) rest
unfolding fetch_txs_from_mempool ready_txs
fetch_txs_from_mempool-prefix encode senders max_bytes pool fit =
    let all = all_txs pool.index senders in
    let ready = map encode (take max_txs_per_block all) in
    let (rest, split, fits, full) = within_bytes-prefix max_bytes 0 ready (omega arith) fit in
    let taken = sum_by length (within_bytes max_bytes 0 ready) in
    let same : 0 + taken ≡ taken = omega arith in
    (
      rest,
      split,
      omega (arith, fits),
      omega (
        arith,
        length-within_bytes max_bytes 0 ready,
        length-map-take encode max_txs_per_block all,
      ),
      subst (λ n. IsFull max_bytes n rest) same full,
    )
