-- ===== src/Events/Rocks/Laws.antt =====
-- What the event store takes of the database and of borsh, and what it keeps in the database.
use pranklin.Base.{ℕ, ◌<◌, ◌≡◌, true, Option, some, List, [], ◌∷◌, ◌++◌, if◌then◌else◌, All}
use pranklin.Base.Words.{u64_mod, u32_mod}
use pranklin.Events.Defs.{DomainEvent}
use pranklin.Events.Rocks.Defs.{
  EventStoreKey, event_key, block_index, tx_index, meta_count, Entry, RocksDb, EventCodec,
  prefix_for_block, prefix_for_block_index,
}
use pranklin.Events.Rocks.Order.{leq, has_prefix, AscendingFrom, find_key, same_bytes}

-- What a batch of puts makes of a read.
abbrev pub last_put : List Entry → List ℕ → Option (List ℕ) → Option (List ℕ)
last_put [] k old = old
last_put ((key, value) ∷ entries) k old =
    last_put entries k (if same_bytes k key then some value else old)

-- A height of u64, an index of u32.
abbrev pub IsKey : EventStoreKey → Type 0
IsKey (event_key h t i) = (h < u64_mod) × (i < u32_mod)
IsKey (block_index h t i) = (h < u64_mod) × (i < u32_mod)
IsKey (tx_index t i) = i < u32_mod
IsKey meta_count = Unit

abbrev pub HasValue : (r : RocksDb) → r.Db → Entry → Type 0
HasValue r db (key, value) = r.get db key ≡ some value

-- The documented behaviour of the database: an iterator gives the stored entries from its start on in
-- the order of their keys, and a batch is written as a whole.
pub record RocksLaws (r : RocksDb) : Type 0 where
  pub ascends : (db : r.Db) (p : List ℕ) → AscendingFrom p (r.prefix_iterator db p)
  pub only_stored : (db : r.Db) (p : List ℕ) → All (HasValue r db) (r.prefix_iterator db p)
  pub all_stored :
      (db : r.Db) (p k : List ℕ) {v : List ℕ}
      → leq p k ≡ true
      → r.get db k ≡ some v
      → find_key k (r.prefix_iterator db p) ≡ some v
  pub get-write :
      (batch : List Entry) (db : r.Db) {db' : r.Db} (k : List ℕ)
      → r.write batch db ≡ some db'
      → r.get db' k ≡ last_put batch k (r.get db k)

-- The documented behaviour of borsh: a key that is written is read back, and the bytes of an index of a
-- block start with its variant and its height, which no other key does.
pub record CodecLaws (c : EventCodec) : Type 0 where
  pub from_bytes-to_bytes : (k : EventStoreKey) → IsKey k → c.from_bytes (c.to_bytes k) ≡ some k
  pub block_bytes :
      (h t i : ℕ) → (rest : List ℕ) × (c.to_bytes (block_index h t i) ≡ prefix_for_block h ++ rest)
  pub only_block_bytes :
      (k : EventStoreKey)
      → has_prefix prefix_for_block_index (c.to_bytes k) ≡ true
      → (h : ℕ) × (t : ℕ) × (i : ℕ) × (k ≡ block_index h t i)

module _ (r : RocksDb) (c : EventCodec) where
  -- Every key is the encoding of one, and the events can be read.
  pub record IsEventDb (db : r.Db) : Type 0 where
    pub keyed :
        (key : List ℕ) {value : List ℕ}
        → r.get db key ≡ some value
        → (k : EventStoreKey) × IsKey k × (key ≡ c.to_bytes k)
    pub readable :
        (h t i : ℕ) {value : List ℕ}
        → IsKey (event_key h t i)
        → r.get db (c.to_bytes (event_key h t i)) ≡ some value
        → (e : DomainEvent) × (c.event_from_slice value ≡ some e)
