-- ===== src/Events/Rocks/Counts.antt =====
-- The count of events after a flush: `flush` and `count` of crates/engine/src/event_store.rs.
use pranklin.Base.{
  ℕ, zero, suc, ◌+◌, ◌^◌, ◌%◌, ◌/◌, ◌<◌, ◌≡◌, ◌≢◌, ◌⊎◌, inl, inr, ◌∙◌, refl, ap, Option-cases, none,
  some, List, [], ◌∷◌, ◌++◌, length, arith,
}
use pranklin.Base.Words.{u64_mod, add_u64}
use pranklin.Signing.{le_bytes}
use pranklin.Signing.Bytes.{length-le_bytes}
use pranklin.Events.Defs.{DomainEvent}
use pranklin.Events.Rocks.Defs.{
  meta_count, EventStoreError, stored, failed, Entry, RocksDb, EventCodec, from_le_bytes,
  all_entries, count, flush, rocks_db_error, RocksDbEventStore,
}
use pranklin.Events.Rocks.Order.{same_bytes_refl}
use pranklin.Events.Rocks.Laws.{RocksLaws}
use pranklin.Events.Rocks.Puts.{last_put-append}
use pranklin.Events.Rocks.Flush.{Stored-cases, List-cases}

-- The bytes of a number read as the number.
from_le_bytes-le_bytes : (size n : ℕ) → n < 256 ^ size → from_le_bytes (le_bytes size n) ≡ n
unfolding from_le_bytes le_bytes
from_le_bytes-le_bytes zero n small = omega (arith, small)
from_le_bytes-le_bytes (suc size) n small =
    omega (arith, from_le_bytes-le_bytes size (n / 256) (omega (arith, small)))

module _ (r : RocksDb) (c : EventCodec) where
  abbrev pub batch_for : List DomainEvent → ℕ → List Entry
  batch_for events total = all_entries r c events ++ (c.to_bytes meta_count, le_bytes 8 total) ∷ []

  -- The count that is written last is the one that is read.
  count-written :
      RocksLaws r
      → (events : List DomainEvent) (total : ℕ) (store : RocksDbEventStore r c) (db : r.Db)
      → total < u64_mod
      → r.write (batch_for events total) db ≡ some store.db
      → count r c store ≡ stored total
  unfolding count
  count-written laws events total store db small done =
      let key = c.to_bytes meta_count in
      let last = (key, le_bytes 8 total) ∷ [] in
      let read : r.get store.db key ≡ some (le_bytes 8 total) =
        laws.get-write (batch_for events total) db key done
        ∙ last_put-append (all_entries r c events) last key (r.get db key)
        ∙ ground (arith, same_bytes_refl key) in
      ground (
        arith,
        read,
        length-le_bytes 8 total,
        from_le_bytes-le_bytes 8 total (omega (arith, small)),
      )

  -- The count is in the database.
  count_same_db :
      (store store' : RocksDbEventStore r c)
      → store.db ≡ store'.db
      → count r c store ≡ count r c store'
  unfolding count
  count_same_db store store' same = rw same refl

  -- The branches of a flush of some events, by the count before it.
  flush-failed :
      (store : RocksDbEventStore r c) (x : EventStoreError)
      → store.write_buffer ≢ []
      → count r c store ≡ failed x
      → flush r c store ≡ (failed x, record store { write_buffer = [] })
  unfolding flush
  flush-failed store x some_events bad = elim (List-cases store.write_buffer) [
    | inl empty ↦ elim (some_events empty) [ ]
    | inr (first, rest, buffered) ↦
        let drained = record store { write_buffer = [] } in
        let bad' = count_same_db drained store refl ∙ bad in ground (arith, buffered, bad')
  ]

  abbrev holding : r.Db → List DomainEvent → ℕ → RocksDbEventStore r c
  holding db events limit = record { db = db; write_buffer = events; buffer_limit = limit }

  flush-counted :
      (db : r.Db) (events : List DomainEvent) (limit n : ℕ)
      → events ≢ []
      → count r c (holding db events limit) ≡ stored n
      → flush r c (holding db events limit)
        ≡ (elim (r.write (batch_for events ((n + length events) % u64_mod)) db) [
          | none ↦ (failed rocks_db_error, holding db [] limit)
          | some after ↦ (stored tt, holding after [] limit)
        ])
  unfolding flush
  flush-counted db [] limit n some_events good = elim (some_events refl) [ ]
  flush-counted db (e ∷ es) limit n some_events good =
      let good' = count_same_db (holding db [] limit) (holding db (e ∷ es) limit) refl ∙ good in
      let total : add_u64 n (length (e ∷ es) % u64_mod) ≡ (n + length (e ∷ es)) % u64_mod =
        omega arith in
      rw (flush, good', total) refl

  -- A flush of some buffered events empties the buffer. It fails with the error of the count if that
  -- cannot be read, and with an error of the database if that refuses the entries of all buffered
  -- events with the new count; then the database is as it was, and the events are lost. Otherwise it
  -- succeeds, and the store then counts as many events as before and as many again as were buffered
  -- (modulo u64).
  pub flush-count :
      RocksLaws r
      → (store : RocksDbEventStore r c) → store.write_buffer ≢ []
      → let drained = record store { write_buffer = [] } in
        let (result, store') = flush r c store in
        (store'.write_buffer ≡ [])
        × (((x : EventStoreError) × (count r c store ≡ failed x)
              × (result ≡ failed x)
              × (store' ≡ drained))
            ⊎ ((n : ℕ) × (count r c store ≡ stored n)
                × (((r.write
                          (batch_for store.write_buffer ((n + length store.write_buffer) % u64_mod))
                          store.db
                        ≡ none)
                      × (result ≡ failed rocks_db_error)
                      × (store' ≡ drained))
                    ⊎ ((result ≡ stored tt)
                        × (count r c store'
                            ≡ stored ((n + length store.write_buffer) % u64_mod))))))
  flush-count laws store some_events = elim (Stored-cases (count r c store)) [
    | inr (x, bad) ↦
        let out = flush-failed store x some_events bad in
        (ground (arith, out), inl (x, bad, ground (arith, out), ground (arith, out)))
    | inl (n, good) ↦
        let total = (n + length store.write_buffer) % u64_mod in
        let out = flush-counted store.db store.write_buffer store.buffer_limit n some_events good in
        elim (Option-cases (r.write (batch_for store.write_buffer total) store.db)) [
          | inl refused ↦ (
            ground (arith, out, refused),
            inr (
              n,
              good,
              inl (refused, ground (arith, out, refused), ground (arith, out, refused)),
            ),
          )
          | inr (db, done) ↦
              let after = record store { write_buffer = []; db = db } in
              let stores : flush r c store ≡ (stored tt, after) = out ∙ rw done refl in
              let counted =
                count-written laws store.write_buffer total after store.db (omega arith) done in
              (
                ap (λ o. o.1.write_buffer) stores,
                inr (n, good, inr (ap (λ o. o.0) stores, ap (λ o. count r c o.1) stores ∙ counted)),
              )
        ]
  ]
