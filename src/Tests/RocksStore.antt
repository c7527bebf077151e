-- ===== src/Tests/RocksStore.antt =====
-- Events of three transactions, written to a sorted list in place of the database.
use pranklin.Base.{
  none, ◌+◌, ◌%◌, length, ℕ, zero, suc, ◌≡◌, ◌⊎◌, refl, true, Option, some, List, [], ◌∷◌, ◌++◌,
  arith, ◌==◌, if◌then◌else◌,
}
use pranklin.Signing.{le_bytes}
use pranklin.Types.Event.{Event}
use pranklin.Events.Defs.{DomainEvent}
use pranklin.Events.Rocks.{
  EventStoreKey, event_key, block_index, tx_index, meta_count, EventCodec, RocksDbEventStore,
  EventStoreError, rocks_db_error, stored, failed, flush, count, get_by_block_range,
  prefix_for_block,
}
use pranklin.Events.Rocks.Order.{has_prefix, find_key}
use pranklin.Events.Rocks.Laws.{CodecLaws, IsEventDb}
use pranklin.Events.Rocks.Scans.{Holds}
use pranklin.Base.Words.{u64_mod}
use pranklin.Events.Rocks.Counts.{batch_for, flush-count}
use pranklin.Events.Rocks.Durability.{flush-get_by_block_range}
use pranklin.Tests.SortedEntries.{sorted, sorted_laws, no_entries}

nth : ℕ → List ℕ → ℕ
nth i [] = 0
nth zero (x ∷ xs) = x
nth (suc i) (x ∷ xs) = nth i xs

key_bytes : EventStoreKey → List ℕ
key_bytes (event_key h t i) = 0 ∷ h ∷ t ∷ i ∷ []
key_bytes (block_index h t i) = 1 ∷ (le_bytes 8 h ++ (h ∷ t ∷ i ∷ []))
key_bytes (tx_index t i) = 2 ∷ t ∷ i ∷ []
key_bytes meta_count = 3 ∷ []

key_of_bytes : List ℕ → Option EventStoreKey
key_of_bytes xs =
    let at = λ (i : ℕ). nth i xs in
    if at 0 == 0
    then some (event_key (at 1) (at 2) (at 3))
    else if at 0 == 1
    then some (block_index (at 9) (at 10) (at 11))
    else if at 0 == 2
    then some (tx_index (at 1) (at 2))
    else some meta_count

abbrev logged : (height tx time : ℕ) → DomainEvent
logged height tx time = record {
  block_height = height;
  tx_hash = tx;
  event_index = 0;
  timestamp = time;
  event = Event.transferred 2 1 0 300;
}

abbrev codec : EventCodec
codec = record {
  to_bytes = key_bytes;
  from_bytes = key_of_bytes;
  event_to_vec = λ e. e.block_height ∷ e.tx_hash ∷ e.timestamp ∷ [];
  event_from_slice = λ xs. some (logged (nth 0 xs) (nth 1 xs) (nth 2 xs));
  hash_bytes = λ hash. hash ∷ [];
}

key_of_bytes-key_bytes : (k : EventStoreKey) → key_of_bytes (key_bytes k) ≡ some k
unfolding key_of_bytes key_bytes nth le_bytes
key_of_bytes-key_bytes (event_key h t i) = refl
key_of_bytes-key_bytes (block_index h t i) = refl
key_of_bytes-key_bytes (tx_index t i) = refl
key_of_bytes-key_bytes meta_count = refl

block_keys :
    (k : EventStoreKey)
    → has_prefix (1 ∷ []) (key_bytes k) ≡ true
    → (h : ℕ) × (t : ℕ) × (i : ℕ) × (k ≡ block_index h t i)
unfolding has_prefix key_bytes
block_keys (event_key h t i) starts = cc
block_keys (block_index h t i) starts = (h, t, i, refl)
block_keys (tx_index t i) starts = cc
block_keys meta_count starts = cc

codec_laws : CodecLaws codec
unfolding key_bytes prefix_for_block
codec_laws = record {
  from_bytes-to_bytes = λ k _. key_of_bytes-key_bytes k;
  block_bytes = λ h t i. (h ∷ t ∷ i ∷ [], refl);
  only_block_bytes = block_keys;
}

abbrev buffered : RocksDbEventStore sorted codec
buffered = record {
  db = no_entries;
  write_buffer = logged 4 7 1 ∷ logged 5 8 2 ∷ logged 5 9 3 ∷ [];
  buffer_limit = 1000;
}

nothing_stored : IsEventDb sorted codec no_entries
unfolding find_key
nothing_stored = record { keyed = λ key there. cc; readable = λ h t i ranged there. cc }

flushed : flush sorted codec buffered ≡ (stored tt, (flush sorted codec buffered).1)
unfolding flush count find_key
flushed = refl

reads_back :
    (h t time : ℕ)
    → codec.event_from_slice (codec.event_to_vec (logged h t time)) ≡ some (logged h t time)
unfolding nth
reads_back h t time = refl

flush-count_example :
    let drained = record buffered { write_buffer = [] } in
    let (result, store') = flush sorted codec buffered in
    (store'.write_buffer ≡ [])
    × (((x : EventStoreError) × (count sorted codec buffered ≡ failed x)
          × (result ≡ failed x)
          × (store' ≡ drained))
        ⊎ ((n : ℕ) × (count sorted codec buffered ≡ stored n)
            × (((sorted.write
                      (batch_for sorted codec buffered.write_buffer
                        ((n + length buffered.write_buffer) % u64_mod))
                      buffered.db
                    ≡ none)
                  × (result ≡ failed rocks_db_error)
                  × (store' ≡ drained))
                ⊎ ((result ≡ stored tt)
                    × (count sorted codec store'
                        ≡ stored ((n + length buffered.write_buffer) % u64_mod))))))
flush-count_example = flush-count sorted codec sorted_laws buffered (λ empty. cc)

flush-get_by_block_range_example :
    let store = (flush sorted codec buffered).1 in
    IsEventDb sorted codec store.db
    × ((es : List DomainEvent) × (get_by_block_range sorted codec store 4 9 ≡ stored es)
        × Holds (logged 5 8 2) es)
flush-get_by_block_range_example =
    flush-get_by_block_range sorted codec sorted_laws codec_laws buffered
      (flush sorted codec buffered).1 (logged 4 7 1 ∷ []) (logged 5 9 3 ∷ []) (logged 5 8 2) 4 9
      nothing_stored flushed refl
      (
        ((omega arith, omega arith), reads_back 4 7 1),
        (
          ((omega arith, omega arith), reads_back 5 8 2),
          (((omega arith, omega arith), reads_back 5 9 3), tt),
        ),
      )
      ((λ same. ground (arith, same)), tt) (omega arith) (omega arith)
