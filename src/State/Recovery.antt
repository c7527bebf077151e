-- ===== src/State/Recovery.antt =====
-- The index of positions after a restart: `PositionIndexManager` of crates/state/src/index_manager.rs.
use pranklin.Base.{
  ℕ, ◌≡◌, refl, ◌∙◌, inl, inr, false, Option, Option-cases, none, List, [], ◌∷◌, contains, ◌==◌,
  if◌then◌else◌, arith, number_key,
}
use pranklin.Storage.{Store, get, set, delete, get_value_option}
use pranklin.Storage.Reads.{get-set, get-delete}
use pranklin.State.Indexes.{
  PositionIndexManager, new_position_index, add_position, remove_position, persist_index,
  persist_or_delete_index, get_addresses, rebuild_from_state, collect_index, remove_entry,
}

pub data IndexOp : Type 0 where
  add_address : ℕ → ℕ → IndexOp
  remove_address : ℕ → ℕ → IndexOp

abbrev pub apply : IndexOp → PositionIndexManager → PositionIndexManager
apply (IndexOp.add_address market_id address) m = add_position market_id address m
apply (IndexOp.remove_address market_id address) m = remove_position market_id address m

abbrev pub apply_all : List IndexOp → PositionIndexManager → PositionIndexManager
apply_all [] m = m
apply_all (op ∷ ops) m = apply_all ops (apply op m)

-- The storage reads as the index, and holds no index of a block before.
record InStep (m : PositionIndexManager) : Type 0 where
  reads : (k : ℕ) → get m.storage k m.version ≡ m.index k
  uncommitted : (k : ℕ) → get_value_option m.storage m.version k ≡ none

add_position-InStep :
    (market_id address : ℕ) (m : PositionIndexManager)
    → InStep m
    → InStep (add_position market_id address m)
unfolding add_position persist_index set get get_value_option
add_position-InStep market_id address m h = record {
  reads = λ k. ground (arith, h.reads k);
  uncommitted = h.uncommitted;
}

remove_entry-other :
    (k j x : ℕ) (index : ℕ → Option (List ℕ))
    → (k == j) ≡ false
    → remove_entry k x index j ≡ index j
remove_entry-other k j x index h = elim (Option-cases (index k)) [
  | inl e ↦ rw (e, remove_entry) refl
  | inr (xs, e) ↦ rw (e, remove_entry) (ground (arith, h))
]

-- What is written for a market reads as its entry.
persist_or_delete_index-reads :
    (market_id k : ℕ) (m : PositionIndexManager) (index : ℕ → Option (List ℕ))
    → InStep m
    → ((j : ℕ) → (market_id == j) ≡ false → index j ≡ m.index j)
    → get (persist_or_delete_index market_id (record m { index = index })).storage k m.version
      ≡ index k
unfolding persist_or_delete_index
persist_or_delete_index-reads market_id k m index h others = elim (Option-cases (index market_id)) [
  | inl e ↦
      rw (e, persist_or_delete_index)
        (ground (
          arith,
          e,
          get-delete market_id k m.version m.storage,
          others k,
          h.reads k,
          h.uncommitted k,
        ))
  | inr (xs, e) ↦
      rw (e, persist_or_delete_index)
        (ground (arith, e, get-set market_id k xs m.version m.storage, others k, h.reads k))
]

persist_or_delete_index-keeps :
    (market_id k : ℕ) (m : PositionIndexManager)
    → let m' = persist_or_delete_index market_id m in
      (m'.index ≡ m.index)
      × (m'.version ≡ m.version)
      × (get_value_option m'.storage m.version k ≡ get_value_option m.storage m.version k)
unfolding persist_or_delete_index set delete get_value_option
persist_or_delete_index-keeps market_id k m = elim (Option-cases (m.index market_id)) [
  | inl e ↦ rw (e, persist_or_delete_index) (refl, refl, refl)
  | inr (xs, e) ↦ rw (e, persist_or_delete_index) (refl, refl, refl)
]

remove_position-InStep :
    (market_id address : ℕ) (m : PositionIndexManager)
    → InStep m
    → InStep (remove_position market_id address m)
unfolding remove_position
remove_position-InStep market_id address m h =
    let index = remove_entry market_id address m.index in
    let before = record m { index = index } in
    let kept = persist_or_delete_index-keeps market_id in
    record {
      reads = λ k.
          rw ((kept k before).0, (kept k before).1)
            (persist_or_delete_index-reads market_id k m index h
              (λ j. remove_entry-other market_id j address m.index));
      uncommitted = λ k. rw ((kept k before).1) ((kept k before).2 ∙ h.uncommitted k);
    }

apply-InStep : (op : IndexOp) (m : PositionIndexManager) → InStep m → InStep (apply op m)
apply-InStep (IndexOp.add_address market_id address) m h = add_position-InStep market_id address m h
apply-InStep (IndexOp.remove_address market_id address) m h =
    remove_position-InStep market_id address m h

apply_all-InStep :
    (ops : List IndexOp) (m : PositionIndexManager) → InStep m → InStep (apply_all ops m)
apply_all-InStep [] m h = h
apply_all-InStep (op ∷ ops) m h = apply_all-InStep ops (apply op m) (apply-InStep op m h)

-- An index is collected from the entries of the markets that are named.
collect_index-reads :
    (read : ℕ → Option (List ℕ)) (markets : List ℕ) (k : ℕ)
    → collect_index read markets k ≡ (if contains k markets then read k else none)
unfolding collect_index
collect_index-reads read [] k = refl
collect_index-reads read (market_id ∷ markets) k = elim (Option-cases (read market_id)) [
  | inl e ↦ rw (e, collect_index) (ground (arith, e, collect_index-reads read markets k))
  | inr (xs, e) ↦ rw (e, collect_index) (ground (arith, e, collect_index-reads read markets k))
]

empty-InStep :
    (storage : Store ℕ (List ℕ)) (version : ℕ)
    → ((k : ℕ) → get storage k version ≡ none)
    → InStep (new_position_index storage version)
unfolding new_position_index get
empty-InStep storage version empty = record {
  reads = empty;
  uncommitted = λ k. elim (Option-cases (storage.pending k)) [
    | inl e ↦ ground (arith, e, empty k)
    | inr (xs, e) ↦ ground (arith, e, empty k)
  ];
}

-- An index that is rebuilt from the storage, after any additions and removals within a block over a
-- storage without entries, gives for each market that is named the addresses that the index in memory
-- gave, and nothing for the others.
pub rebuild_from_state-recovers :
    (storage : Store ℕ (List ℕ)) (version : ℕ) (ops : List IndexOp) (markets : List ℕ) (k : ℕ)
    → ((j : ℕ) → get storage j version ≡ none)
    → let m = apply_all ops (new_position_index storage version) in
      get_addresses (rebuild_from_state markets (new_position_index m.storage m.version)) k
      ≡ (if contains k markets then get_addresses m k else none)
unfolding get_addresses rebuild_from_state new_position_index
rebuild_from_state-recovers storage version ops markets k empty =
    let m = apply_all ops (new_position_index storage version) in
    let h =
      apply_all-InStep ops (new_position_index storage version)
        (empty-InStep storage version empty) in
    collect_index-reads (λ j. get m.storage j m.version) markets k ∙ rw (h.reads k) refl
