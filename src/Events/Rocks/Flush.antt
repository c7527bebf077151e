-- ===== src/Events/Rocks/Flush.antt =====
-- What a flush leaves in the database: `flush` of crates/engine/src/event_store.rs.
use pranklin.Base.{
  ℕ, ◌%◌, ◌≡◌, ◌≢◌, ◌⊎◌, inl, inr, refl, Option-cases, some, List, [], ◌∷◌, ◌++◌, length, arith,
}
use pranklin.Base.Words.{u64_mod, add_u64}
use pranklin.Signing.{le_bytes}
use pranklin.Events.Rocks.Defs.{
  meta_count, EventStoreError, Stored, stored, failed, RocksDb, EventCodec, all_entries, count,
  flush, rocks_db_error, RocksDbEventStore,
}

pub List-cases :
    {A : Type 0} (xs : List A) → (xs ≡ []) ⊎ ((x : A) × (rest : List A) × (xs ≡ x ∷ rest))
List-cases [] = inl refl
List-cases (x ∷ xs) = inr (x, xs, refl)

pub Stored-cases :
    {A : Type 0} (s : Stored A)
    → ((a : A) × (s ≡ stored a)) ⊎ ((x : EventStoreError) × (s ≡ failed x))
Stored-cases (stored a) = inl (a, refl)
Stored-cases (failed x) = inr (x, refl)

module _ (r : RocksDb) (c : EventCodec) where
  -- A flush does nothing if nothing is buffered; else it empties the buffer. It then writes the
  -- entries of all buffered events, with a new count, or it fails, leaves the database as it was, and
  -- the events are lost.
  pub flush-outcome :
      (store : RocksDbEventStore r c)
      → let drained = record store { write_buffer = [] } in
        ((store.write_buffer ≡ []) × (flush r c store ≡ (stored tt, store)))
        ⊎ ((x : EventStoreError) × (store.write_buffer ≢ [])
            × (flush r c store ≡ (failed x, drained)))
        ⊎ ((n : ℕ) × (db : r.Db) × (r.write
                (all_entries r c store.write_buffer ++ (c.to_bytes meta_count, le_bytes 8 n) ∷ [])
                store.db
              ≡ some db)
            × (flush r c store ≡ (stored tt, record drained { db = db })))
  unfolding flush
  flush-outcome store = elim (List-cases store.write_buffer) [
    | inl empty ↦ inl (empty, ground (arith, empty))
    | inr (first, rest, buffered) ↦
        let drained = record store { write_buffer = [] } in
        let some_events : store.write_buffer ≢ [] =
          λ none_left. ground (arith, buffered, none_left) in
        elim (Stored-cases (count r c drained)) [
          | inr (x, bad) ↦ inr (inl (x, some_events, ground (arith, buffered, bad)))
          | inl (n, good) ↦
              let total = add_u64 n (length (first ∷ rest) % u64_mod) in
              let batch =
                all_entries r c (first ∷ rest) ++ (c.to_bytes meta_count, le_bytes 8 total) ∷ [] in
              elim (Option-cases (r.write batch store.db)) [
                | inl refused ↦
                    inr (inl (rocks_db_error, some_events, ground (arith, buffered, good, refused)))
                | inr (db, written) ↦
                    inr (
                      inr (total, db, rw buffered written, ground (arith, buffered, good, written)))
              ]
        ]
  ]
