-- ===== src/Events/Rocks/Defs.antt =====
-- `EventStoreKey` of crates/engine/src/event_store_key.rs and `RocksDbEventStore` of
-- crates/engine/src/event_store.rs. The database and the encodings of borsh are interfaces; a read of
-- the database does not fail, a write may.
use pranklin.Base.{
  ℕ, zero, suc, ◌+◌, ◌-◌, ◌*◌, ◌%◌, Bool, ◌&&◌, Option, none, some, List, [], ◌∷◌, ◌++◌, length,
  take, leb, ltb, ◌==◌, if◌then◌else◌,
}
use pranklin.Base.Words.{u64_mod, add_u64}
use pranklin.Signing.{le_bytes}
use pranklin.Events.Defs.{DomainEvent, event_involves_address}

pub data EventStoreKey : Type 0 where
  event_key block_index : (block_height tx_hash event_index : ℕ) → EventStoreKey
  tx_index : (tx_hash event_index : ℕ) → EventStoreKey
  meta_count : EventStoreKey

-- Without the messages; `invalid_count` is the only `Other` that the store raises.
pub data EventStoreError : Type 0 where
  serialization_error storage_error not_found invalid_count rocks_db_error : EventStoreError

pub data Stored (A : Type 0) : Type 0 where
  stored : A → Stored A
  failed : EventStoreError → Stored A

-- Two keys, or a key and a value.
abbrev pub Entry : Type 0
Entry = List ℕ × List ℕ

-- The calls of rocksdb: a batch of puts, and the entries from the first key on that is not below a
-- prefix, which is where `prefix_iterator` starts.
pub record RocksDb : Type 1 where
  pub Db : Type 0
  pub get : Db → List ℕ → Option (List ℕ)
  pub write : List Entry → Db → Option Db
  pub prefix_iterator : Db → List ℕ → List Entry

-- The encodings that borsh derives; `hash_bytes` is `as_slice`.
pub record EventCodec : Type 0 where
  pub to_bytes : EventStoreKey → List ℕ
  pub from_bytes : List ℕ → Option EventStoreKey
  pub event_to_vec : DomainEvent → List ℕ
  pub event_from_slice : List ℕ → Option DomainEvent
  pub hash_bytes : ℕ → List ℕ

abbrev pub prefix_for_events : List ℕ
prefix_for_events = 0 ∷ []

abbrev pub prefix_for_block_index : List ℕ
prefix_for_block_index = 1 ∷ []

abbrev pub prefix_for_tx_index : List ℕ
prefix_for_tx_index = 2 ∷ []

unfoldable pub prefix_for_block : ℕ → List ℕ
prefix_for_block block_height = 1 ∷ le_bytes 8 block_height

-- `u64::from_le_bytes`
unfoldable pub from_le_bytes : List ℕ → ℕ
from_le_bytes [] = 0
from_le_bytes (byte ∷ bytes) = byte + 256 * from_le_bytes bytes

-- `sort_by_key`, which is stable, in the order of a test.
unfoldable pub insert_sorted :
    (DomainEvent → DomainEvent → Bool) → DomainEvent → List DomainEvent → List DomainEvent
insert_sorted before e [] = e ∷ []
insert_sorted before e (x ∷ xs) =
    let rest = insert_sorted before e xs in if before x e then x ∷ rest else e ∷ x ∷ xs

unfoldable pub sort_events :
    (DomainEvent → DomainEvent → Bool) → List DomainEvent → List DomainEvent
sort_events before [] = []
sort_events before (e ∷ es) = insert_sorted before e (sort_events before es)

-- The results of a loop, in order; the first error ends it.
abbrev pub push_stored : DomainEvent → Stored (List DomainEvent) → Stored (List DomainEvent)
push_stored e (failed x) = failed x
push_stored e (stored es) = stored (e ∷ es)

abbrev pub join_stored :
    Stored (List DomainEvent) → Stored (List DomainEvent) → Stored (List DomainEvent)
join_stored (failed x) later = failed x
join_stored (stored es) (failed x) = failed x
join_stored (stored es) (stored fs) = stored (es ++ fs)

abbrev pub map_stored : {A B : Type 0} → (A → B) → Stored A → Stored B
map_stored f (failed x) = failed x
map_stored f (stored a) = stored (f a)

module _ (r : RocksDb) (c : EventCodec) where
  pub record RocksDbEventStore : Type 0 where
    pub db : r.Db
    pub write_buffer : List DomainEvent
    pub buffer_limit : ℕ

  -- Of the database that was opened, if it was.
  unfoldable pub new_rocks_store : Option r.Db → ℕ → Stored RocksDbEventStore
  new_rocks_store none buffer_limit = failed rocks_db_error
  new_rocks_store (some db) buffer_limit =
      stored (record { db = db; write_buffer = []; buffer_limit = buffer_limit })

  unfoldable pub prefix_for_tx : ℕ → List ℕ
  prefix_for_tx tx_hash = 2 ∷ c.hash_bytes tx_hash

  -- What is read of an event that is found.
  abbrev pub read_event : Option (List ℕ) → Stored (List DomainEvent) → Stored (List DomainEvent)
  read_event none rest = rest
  read_event (some value) rest = elim (c.event_from_slice value) [
    | none ↦ failed serialization_error
    | some e ↦ push_stored e rest
  ]

  -- The three puts of an event.
  abbrev pub event_entries : DomainEvent → List Entry
  event_entries e =
      (c.to_bytes (event_key e.block_height e.tx_hash e.event_index), c.event_to_vec e)
      ∷ (c.to_bytes (block_index e.block_height e.tx_hash e.event_index), [])
      ∷ (c.to_bytes (tx_index e.tx_hash e.event_index), [])
      ∷ []

  abbrev pub all_entries : List DomainEvent → List Entry
  all_entries [] = []
  all_entries (e ∷ es) = event_entries e ++ all_entries es

  unfoldable pub count : RocksDbEventStore → Stored ℕ
  count store = elim (r.get store.db (c.to_bytes meta_count)) [
    | none ↦ stored 0
    | some bytes ↦ if length bytes == 8 then stored (from_le_bytes bytes) else failed invalid_count
  ]

  -- `drain` empties the buffer before the count is read and the batch is written.
  unfoldable pub flush : RocksDbEventStore → Stored (Unit {0}) × RocksDbEventStore
  unfolding count
  flush store = elim store.write_buffer [
    | [] ↦ (stored tt, store)
    | e ∷ es ↦
        let drained = record store { write_buffer = [] } in
        elim (count drained) [
          | failed x ↦ (failed x, drained)
          | stored n ↦
              let total = add_u64 n (length (e ∷ es) % u64_mod) in
              let batch = all_entries (e ∷ es) ++ (c.to_bytes meta_count, le_bytes 8 total) ∷ [] in
              elim (r.write batch store.db) [
                | none ↦ (failed rocks_db_error, drained)
                | some db ↦ (stored tt, record drained { db = db })
              ]
        ]
  ]

  -- `drop` ignores the result.
  unfoldable pub drop_store : RocksDbEventStore → r.Db
  unfolding flush
  drop_store store = (flush store).1.db

  unfoldable pub append :
      List DomainEvent → RocksDbEventStore → Stored (Unit {0}) × RocksDbEventStore
  unfolding flush
  append events store =
      let filled = record store { write_buffer = store.write_buffer ++ events } in
      if leb filled.buffer_limit (length filled.write_buffer)
      then flush filled
      else (stored tt, filled)

  -- The loop over the entries of the index of a block, which stops at the first other key.
  unfoldable pub scan_block : r.Db → ℕ → List Entry → Stored (List DomainEvent)
  scan_block db height [] = stored []
  scan_block db height ((key, value) ∷ entries) =
      let rest = scan_block db height entries in
      elim (c.from_bytes key) [
        | some (block_index h t i) ↦
            if h == height
            then read_event (r.get db (c.to_bytes (event_key h t i))) rest
            else stored []
        | _ ↦ stored []
      ]

  unfoldable pub scan_blocks : r.Db → ℕ → ℕ → Stored (List DomainEvent)
  unfolding scan_block
  scan_blocks db height zero = stored []
  scan_blocks db height (suc blocks) =
      join_stored (scan_block db height (r.prefix_iterator db (prefix_for_block height)))
        (scan_blocks db (suc height) blocks)

  unfoldable pub get_by_block_range : RocksDbEventStore → ℕ → ℕ → Stored (List DomainEvent)
  unfolding scan_blocks
  get_by_block_range store from_height to_height =
      scan_blocks store.db from_height (suc to_height - from_height)

  -- The inner loop, over all events; it passes over keys that are of no event.
  unfoldable pub find_event : ℕ → ℕ → List Entry → Option (List ℕ)
  find_event tx_hash index [] = none
  find_event tx_hash index ((key, value) ∷ entries) =
      let rest = find_event tx_hash index entries in
      elim (c.from_bytes key) [
        | some (event_key h t i) ↦ if t == tx_hash && i == index then some value else rest
        | _ ↦ rest
      ]

  unfoldable pub scan_tx : r.Db → ℕ → List Entry → Stored (List DomainEvent)
  unfolding find_event
  scan_tx db tx_hash [] = stored []
  scan_tx db tx_hash ((key, value) ∷ entries) =
      let rest = scan_tx db tx_hash entries in
      elim (c.from_bytes key) [
        | some (tx_index t i) ↦
            if t == tx_hash
            then read_event (find_event tx_hash i (r.prefix_iterator db prefix_for_events)) rest
            else stored []
        | _ ↦ stored []
      ]

  abbrev pub by_index : DomainEvent → DomainEvent → Bool
  by_index x e = ltb x.event_index e.event_index

  abbrev pub by_height : DomainEvent → DomainEvent → Bool
  by_height x e = ltb e.block_height x.block_height

  unfoldable pub get_by_tx : RocksDbEventStore → ℕ → Stored (List DomainEvent)
  unfolding scan_tx
  get_by_tx store tx_hash =
      map_stored (sort_events by_index)
        (scan_tx store.db tx_hash (r.prefix_iterator store.db (prefix_for_tx tx_hash)))

  abbrev pub push_if_involved :
      ℕ → DomainEvent → Stored (List DomainEvent) → Stored (List DomainEvent)
  push_if_involved address e rest =
      if event_involves_address e.event address then push_stored e rest else rest

  unfoldable pub scan_address : ℕ → List Entry → Stored (List DomainEvent)
  scan_address address [] = stored []
  scan_address address ((key, value) ∷ entries) =
      let rest = scan_address address entries in
      elim (c.from_bytes key) [
        | some (event_key h t i) ↦ elim (c.event_from_slice value) [
          | none ↦ failed serialization_error
          | some e ↦ push_if_involved address e rest
        ]
        | _ ↦ stored []
      ]

  unfoldable pub get_by_address : RocksDbEventStore → ℕ → ℕ → Stored (List DomainEvent)
  unfolding scan_address
  get_by_address store address limit =
      map_stored (λ es. take limit (sort_events by_height es))
        (scan_address address (r.prefix_iterator store.db prefix_for_events))
