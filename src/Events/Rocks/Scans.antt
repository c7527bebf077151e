-- ===== src/Events/Rocks/Scans.antt =====
-- What the scan of a block reads: `get_by_block_range` of crates/engine/src/event_store.rs.
use pranklin.Base.{
  ℕ, zero, suc, ◌<◌, ◌≡◌, ◌⊎◌, inl, inr, ◌∙◌, refl, sym, ap, true, Option-cases, some, List, [],
  ◌∷◌, ◌++◌, length, arith, ◌==◌, Bool-cases, All,
}
use mathlib.Core.Path.{subst}
use pranklin.Base.Words.{u64_mod, u32_mod}
use pranklin.Signing.{le_bytes}
use pranklin.Signing.Bytes.{length-le_bytes, le_bytes_inj}
use pranklin.Events.Defs.{DomainEvent}
use pranklin.Events.Rocks.Defs.{
  EventStoreKey, event_key, block_index, tx_index, meta_count, Stored, stored, Entry, RocksDb,
  EventCodec, prefix_for_block, read_event, scan_block, scan_blocks, prefix_for_block_index,
}
use pranklin.Events.Rocks.Order.{
  leq, has_prefix, has_prefix-between, leq_trans, has_prefix-append, has_prefix-start,
  AscendingFrom, find_key, same_bytes, same_bytes→≡,
}
use pranklin.Events.Rocks.Laws.{IsKey, HasValue, RocksLaws, CodecLaws, IsEventDb}

abbrev pub Holds : DomainEvent → List DomainEvent → Type 0
Holds e [] = ⊥
Holds e (x ∷ xs) = (e ≡ x) ⊎ Holds e xs

found_above :
    (low k : List ℕ) (entries : List Entry) {v : List ℕ}
    → AscendingFrom low entries
    → find_key k entries ≡ some v
    → leq low k ≡ true
unfolding find_key
found_above low k [] order e = cc
found_above low k ((key, value) ∷ entries) {v} order e = elim (Bool-cases (same_bytes k key)) [
  | inl same ↦ rw (same_bytes→≡ k key same) order.0
  | inr other ↦
      leq_trans low key k order.0
        (found_above key k entries {v = v} order.1 (ground (arith, other, e)))
]

module _ (r : RocksDb) (c : EventCodec) where
  module _ (laws : RocksLaws r) (codec : CodecLaws c) (db : r.Db) (is : IsEventDb r c db) where
    -- What a stored key decodes to is within the bounds.
    decoded_range :
        (key : List ℕ) (k : EventStoreKey) {value : List ℕ}
        → r.get db key ≡ some value
        → c.from_bytes key ≡ some k
        → IsKey k
    decoded_range key k there read =
        let (own, ranged, is_key) = is.keyed key there in
        let reads : c.from_bytes key ≡ some own =
          ap c.from_bytes is_key ∙ codec.from_bytes-to_bytes own ranged in
        let same : own ≡ k = cc in subst IsKey same ranged

    -- What is read of an event keeps what is read after it.
    read_event-keeps :
        (h t i : ℕ) (rest : Stored (List DomainEvent)) (es : List DomainEvent)
        → IsKey (event_key h t i)
        → rest ≡ stored es
        → (out : List DomainEvent) × (read_event r c (r.get db (c.to_bytes (event_key h t i))) rest
            ≡ stored out)
          × ((e : DomainEvent) → Holds e es → Holds e out)
    read_event-keeps h t i rest es ranged e =
        elim (Option-cases (r.get db (c.to_bytes (event_key h t i)))) [
          | inl missing ↦ (es, ground (arith, missing, e), λ x held. held)
          | inr (value, found) ↦
              let (x, read) = is.readable h t i ranged found in
              (x ∷ es, ground (arith, found, read, e), λ y held. inr held)
        ]

    prefix_first :
        (height : ℕ) (key : List ℕ)
        → has_prefix (prefix_for_block height) key ≡ true
        → has_prefix prefix_for_block_index key ≡ true
    unfolding prefix_for_block has_prefix
    prefix_first height [] starts = cc
    prefix_first height (x ∷ key) starts = ground (arith, starts)

    -- A key that starts with the prefix of a block is of its index.
    prefix_key :
        (height : ℕ) (key : List ℕ) {value : List ℕ}
        → height < u64_mod
        → r.get db key ≡ some value
        → has_prefix (prefix_for_block height) key ≡ true
        → (t : ℕ) × (i : ℕ) × (c.from_bytes key ≡ some (block_index height t i))
    unfolding prefix_for_block has_prefix
    prefix_key height key small there starts =
        let (k, ranged, is_key) = is.keyed key there in
        let starts' : has_prefix (prefix_for_block height) (c.to_bytes k) ≡ true =
          ap (has_prefix (prefix_for_block height)) (sym is_key) ∙ starts in
        let (h, t, i, which) =
          codec.only_block_bytes k (prefix_first height (c.to_bytes k) starts') in
        let (tail, layout) = codec.block_bytes h t i in
        let bytes : c.to_bytes k ≡ prefix_for_block h ++ tail = ap c.to_bytes which ∙ layout in
        let starts'' : has_prefix (prefix_for_block height) (prefix_for_block h ++ tail) ≡ true =
          ap (has_prefix (prefix_for_block height)) (sym bytes) ∙ starts' in
        let sizes : length (prefix_for_block height) ≡ length (prefix_for_block h) =
          omega (arith, length-le_bytes 8 height, length-le_bytes 8 h) in
        let same_start : prefix_for_block height ≡ prefix_for_block h =
          has_prefix-start (prefix_for_block height) (prefix_for_block h) tail sizes starts'' in
        let same_bytes : le_bytes 8 height ≡ le_bytes 8 h = cc in
        let its_range : IsKey (block_index h t i) = subst IsKey which ranged in
        let same : height ≡ h = le_bytes_inj 8 height h small its_range.0 same_bytes in
        let read : c.from_bytes (c.to_bytes k) ≡ some k = codec.from_bytes-to_bytes k ranged in
        (t, i, cc)

    -- A scan of entries reads no broken event.
    pub scan_block-total :
        (height : ℕ) (entries : List Entry)
        → All (HasValue r db) entries
        → (es : List DomainEvent) × (scan_block r c db height entries ≡ stored es)
    unfolding scan_block
    scan_block-total height [] values = ([], refl)
    scan_block-total height ((key, value) ∷ entries) values =
        let (rest, later) = scan_block-total height entries values.1 in
        elim (Option-cases (c.from_bytes key)) [
          | inl unread ↦ ([], ground (arith, unread))
          | inr (event_key h t i, read) ↦ ([], ground (arith, read))
          | inr (tx_index t i, read) ↦ ([], ground (arith, read))
          | inr (meta_count, read) ↦ ([], ground (arith, read))
          | inr (block_index h t i, read) ↦
              let ranged = decoded_range key (block_index h t i) {value = value} values.0 read in
              let (out, now, _) =
                read_event-keeps h t i (scan_block r c db height entries) rest ranged later in
              elim (Bool-cases (h == height)) [
                | inl same ↦ (out, ground (arith, read, same, now))
                | inr other ↦ ([], ground (arith, read, other))
              ]
        ]

    -- A scan from the prefix of a block on reads each event that the index of the block names.
    pub scan_block-finds :
        (e : DomainEvent) (low : List ℕ) (entries : List Entry) {v : List ℕ}
        → e.block_height < u64_mod
        → e.event_index < u32_mod
        → leq (prefix_for_block e.block_height) low ≡ true
        → AscendingFrom low entries
        → All (HasValue r db) entries
        → find_key (c.to_bytes (block_index e.block_height e.tx_hash e.event_index)) entries
          ≡ some v
        → r.get db (c.to_bytes (event_key e.block_height e.tx_hash e.event_index))
          ≡ some (c.event_to_vec e)
        → c.event_from_slice (c.event_to_vec e) ≡ some e
        → (es : List DomainEvent) × (scan_block r c db e.block_height entries ≡ stored es)
          × Holds e es
    unfolding scan_block find_key
    scan_block-finds e low [] small index_small above order values found there reads = cc
    scan_block-finds e low ((key, value) ∷ entries) {v} small index_small above order values found
          there reads =
        let height = e.block_height in
        let target = c.to_bytes (block_index height e.tx_hash e.event_index) in
        elim (Bool-cases (same_bytes target key)) [
          | inl same ↦
              let is_target : key ≡ target = sym (same_bytes→≡ target key same) in
              let read : c.from_bytes key ≡ some (block_index height e.tx_hash e.event_index) =
                ap c.from_bytes is_target
                ∙ codec.from_bytes-to_bytes (block_index height e.tx_hash e.event_index)
                    (small, index_small) in
              let (rest, later) = scan_block-total height entries values.1 in
              (e ∷ rest, ground (arith, read, later, there, reads), inl refl)
          | inr other ↦
              let further : find_key target entries ≡ some v = ground (arith, other, found) in
              let (rest, later, held) =
                scan_block-finds e key entries {v = v} small index_small
                  (leq_trans (prefix_for_block height) low key above order.0) order.1 values.1
                  further there reads in
              let (tail, layout) = codec.block_bytes height e.tx_hash e.event_index in
              let target_starts : has_prefix (prefix_for_block height) target ≡ true =
                ap (has_prefix (prefix_for_block height)) layout
                ∙ has_prefix-append (prefix_for_block height) tail in
              let starts =
                has_prefix-between (prefix_for_block height) key target
                  (leq_trans (prefix_for_block height) low key above order.0)
                  (found_above key target entries {v = v} order.1 further) target_starts in
              let (t, i, read) = prefix_key height key {value = value} small values.0 starts in
              let (out, now, keeps) =
                read_event-keeps height t i (scan_block r c db height entries) rest
                  (decoded_range key (block_index height t i) {value = value} values.0 read)
                  later in
              (out, ground (arith, read, now), keeps e held)
        ]

    pub scan_blocks-total :
        (height blocks : ℕ)
        → (es : List DomainEvent) × (scan_blocks r c db height blocks ≡ stored es)
    unfolding scan_blocks
    scan_blocks-total height zero = ([], refl)
    scan_blocks-total height (suc blocks) =
        let entries = r.prefix_iterator db (prefix_for_block height) in
        let (es, first) =
          scan_block-total height entries (laws.only_stored db (prefix_for_block height)) in
        let (fs, later) = scan_blocks-total (suc height) blocks in
        (es ++ fs, ground (arith, first, later))
