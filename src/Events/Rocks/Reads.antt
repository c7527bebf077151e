-- ===== src/Events/Rocks/Reads.antt =====
-- The events that the query for a range of heights reads: `get_by_block_range` of
-- crates/engine/src/event_store.rs.
use pranklin.Base.{
  ℕ, zero, suc, ◌+◌, ◌-◌, ◌≤◌, ◌<◌, ◌≡◌, ◌⊎◌, inl, inr, ◌∙◌, ap, true, some, List, [], ◌∷◌, ◌++◌,
  arith, ◌==◌, Bool-cases,
}
use pranklin.Base.Words.{u64_mod, u32_mod}
use pranklin.Events.Defs.{DomainEvent}
use pranklin.Events.Rocks.Defs.{
  event_key, block_index, stored, RocksDb, EventCodec, prefix_for_block, scan_block, scan_blocks,
  get_by_block_range, RocksDbEventStore,
}
use pranklin.Events.Rocks.Order.{leq, leq_refl, has_prefix-leq, has_prefix-append}
use pranklin.Events.Rocks.Laws.{RocksLaws, CodecLaws, IsEventDb}
use pranklin.Events.Rocks.Scans.{Holds, scan_block-total, scan_block-finds, scan_blocks-total}

module _ (r : RocksDb) (c : EventCodec) where
  module _ (laws : RocksLaws r) (codec : CodecLaws c) (db : r.Db) (is : IsEventDb r c db) where
    -- An event that is stored under its key, with an entry in the index of its block.
    pub record IsStored (e : DomainEvent) : Type 0 where
      pub height_small : e.block_height < u64_mod
      pub index_small : e.event_index < u32_mod
      pub entry : List ℕ
      pub indexed :
          r.get db (c.to_bytes (block_index e.block_height e.tx_hash e.event_index)) ≡ some entry
      pub there :
          r.get db (c.to_bytes (event_key e.block_height e.tx_hash e.event_index))
          ≡ some (c.event_to_vec e)
      pub reads : c.event_from_slice (c.event_to_vec e) ≡ some e

    Holds-append :
        (e : DomainEvent) (es fs : List DomainEvent) → Holds e es ⊎ Holds e fs → Holds e (es ++ fs)
    Holds-append e [] fs (inl held) = elim held [ ]
    Holds-append e [] fs (inr held) = held
    Holds-append e (x ∷ es) fs (inl (inl same)) = inl same
    Holds-append e (x ∷ es) fs (inl (inr held)) = inr (Holds-append e es fs (inl held))
    Holds-append e (x ∷ es) fs (inr held) = inr (Holds-append e es fs (inr held))

    block_finds :
        (e : DomainEvent)
        → IsStored e
        → (es : List DomainEvent) × (scan_block r c db e.block_height
              (r.prefix_iterator db (prefix_for_block e.block_height))
            ≡ stored es)
          × Holds e es
    block_finds e is_stored =
        let p = prefix_for_block e.block_height in
        let target = c.to_bytes (block_index e.block_height e.tx_hash e.event_index) in
        let (tail, layout) = codec.block_bytes e.block_height e.tx_hash e.event_index in
        let above : leq p target ≡ true =
          ap (leq p) layout ∙ has_prefix-leq p (p ++ tail) (has_prefix-append p tail) in
        scan_block-finds r c laws codec db is e p (r.prefix_iterator db p) is_stored.height_small
          is_stored.index_small (leq_refl p) (laws.ascends db p) (laws.only_stored db p)
          (laws.all_stored db p target above is_stored.indexed) is_stored.there is_stored.reads

    height_finds :
        (e : DomainEvent) (height : ℕ)
        → height ≡ e.block_height
        → IsStored e
        → (es : List DomainEvent) × (scan_block r c db height
              (r.prefix_iterator db (prefix_for_block height))
            ≡ stored es)
          × Holds e es
    height_finds e height same is_stored = rw same (block_finds e is_stored)

    scan_blocks-finds :
        (e : DomainEvent) (height blocks : ℕ)
        → IsStored e
        → height ≤ e.block_height
        → e.block_height < height + blocks
        → (es : List DomainEvent) × (scan_blocks r c db height blocks ≡ stored es) × Holds e es
    unfolding scan_blocks
    scan_blocks-finds e height zero is_stored low high = ground (arith, low, high)
    scan_blocks-finds e height (suc blocks) is_stored low high =
        let p = prefix_for_block height in
        let entries = r.prefix_iterator db p in
        elim (Bool-cases (height == e.block_height)) [
          | inl same ↦
              let same_height : height ≡ e.block_height = ground (arith, same) in
              let (fs, later) = scan_blocks-total r c laws codec db is (suc height) blocks in
              let (es, now, held) = height_finds e height same_height is_stored in
              (es ++ fs, ground (arith, now, later), Holds-append e es fs (inl held))
          | inr other ↦
              let (es, now) =
                scan_block-total r c laws codec db is height entries (laws.only_stored db p) in
              let (fs, later, held) =
                scan_blocks-finds e (suc height) blocks is_stored (ground (arith, other, low))
                  (omega (arith, high)) in
              (es ++ fs, ground (arith, now, later), Holds-append e es fs (inr held))
        ]

    -- The query for a range of heights reads every event that is stored under a height of the range.
    pub get_by_block_range-finds :
        (store : RocksDbEventStore r c) (e : DomainEvent) (from to : ℕ)
        → store.db ≡ db
        → IsStored e
        → from ≤ e.block_height
        → e.block_height ≤ to
        → (es : List DomainEvent) × (get_by_block_range r c store from to ≡ stored es) × Holds e es
    unfolding get_by_block_range
    get_by_block_range-finds store e from to its_db is_stored low high =
        rw its_db
          (scan_blocks-finds e from (suc to - from) is_stored low (omega (arith, low, high)))
