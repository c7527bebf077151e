-- ===== src/Events/Rocks/Durability.antt =====
-- An event that is flushed is read again: crates/engine/src/event_store.rs.
use mathlib.Core.Path.{subst}
use mathlib.Core.List.{append_assoc}
use pranklin.Base.{
  ℕ, ◌≤◌, ◌≡◌, ◌≢◌, ◌⊎◌, inl, inr, ◌∙◌, refl, sym, ap, Option, some, List, [], ◌∷◌, ◌++◌,
  Bool-cases, All, All-map, All-append,
}
use pranklin.Signing.{le_bytes}
use pranklin.Events.Defs.{DomainEvent}
use pranklin.Events.Rocks.Defs.{
  EventStoreKey, event_key, block_index, tx_index, meta_count, stored, failed, Entry, RocksDb,
  EventCodec, event_entries, all_entries, flush, get_by_block_range, RocksDbEventStore,
}
use pranklin.Events.Rocks.Order.{same_bytes, same_bytes→≡}
use pranklin.Events.Rocks.Laws.{last_put, IsKey, RocksLaws, CodecLaws, IsEventDb}
use pranklin.Events.Rocks.Scans.{Holds}
use pranklin.Events.Rocks.Reads.{IsStored, get_by_block_range-finds}
use pranklin.Events.Rocks.Puts.{
  last_put-append, IsOther, InRange, IsElsewhere, key_of, same_bytes-keys, elsewhere,
  all_entries-append, event_put, index_put,
}
use pranklin.Events.Rocks.Flush.{flush-outcome}

module _ (r : RocksDb) (c : EventCodec) where
  -- A height of u64 and an index of u32, in an event that borsh reads back.
  abbrev pub IsWritable : DomainEvent → Type 0
  IsWritable e = InRange e × (c.event_from_slice (c.event_to_vec e) ≡ some e)

  ranges : (es : List DomainEvent) → All IsWritable es → All InRange es
  ranges es writable = All-map IsWritable InRange es (λ e h. h.0) writable

  -- An entry that the store may write: under a key, and an event that can be read if it is one.
  abbrev EntryFits : Entry → Type 0
  EntryFits (key, value) =
      (k : EventStoreKey) × IsKey k
      × (key ≡ c.to_bytes k)
      × ((h t i : ℕ)
          → k ≡ event_key h t i
          → (e : DomainEvent) × (c.event_from_slice value ≡ some e))

  module _ (laws : RocksLaws r) (codec : CodecLaws c) where
    all_entries-EntryFits :
        (es : List DomainEvent) → All IsWritable es → All EntryFits (all_entries r c es)
    all_entries-EntryFits [] ranged = tt
    all_entries-EntryFits (e ∷ es) ranged = (
      (key_of r c e, ranged.0.0, refl, λ h t i same. (e, ranged.0.1)),
      (
        (block_index e.block_height e.tx_hash e.event_index, ranged.0.0, refl, λ h t i same. cc),
        (
          (tx_index e.tx_hash e.event_index, ranged.0.0.1, refl, λ h t i same. cc),
          all_entries-EntryFits es ranged.1,
        ),
      ),
    )

    -- A value comes from before, or from an entry.
    last_put-from :
        (entries : List Entry) (k v : List ℕ) (old : Option (List ℕ))
        → All EntryFits entries
        → last_put entries k old ≡ some v
        → (old ≡ some v) ⊎ EntryFits (k, v)
    last_put-from [] k v old fits e = inl e
    last_put-from ((key, value) ∷ entries) k v old fits e = elim (Bool-cases (same_bytes k key)) [
      | inr other ↦ last_put-from entries k v old fits.1 (rw other at e)
      | inl same ↦ elim (last_put-from entries k v (some value) fits.1 (rw same at e)) [
        | inr later ↦ inr later
        | inl now ↦
            let its_key : key ≡ k = sym (same_bytes→≡ k key same) in
            let its_value : value ≡ v = cc in
            inr (
              subst (λ x. EntryFits (x, v)) its_key
                (subst (λ x. EntryFits (key, x)) its_value fits.0))
      ]
    ]

    write-IsEventDb :
        (entries : List Entry) (db db' : r.Db)
        → IsEventDb r c db
        → All EntryFits entries
        → r.write entries db ≡ some db'
        → IsEventDb r c db'
    write-IsEventDb entries db db' is fits written = record {
      keyed = λ key {value} there.
          elim (last_put-from entries key value (r.get db key) fits
            (sym (laws.get-write entries db key written) ∙ there)) [
              | inl before ↦ is.keyed key before
              | inr (k, ranged, same, reads) ↦ (k, ranged, same)
            ];
      readable = λ h t i {value} ranged there.
          let key = c.to_bytes (event_key h t i) in
          elim (last_put-from entries key value (r.get db key) fits
            (sym (laws.get-write entries db key written) ∙ there)) [
              | inl before ↦ is.readable h t i ranged before
              | inr (k, its_range, same, reads) ↦
                  let own =
                    sym (codec.from_bytes-to_bytes (event_key h t i) ranged)
                    ∙ ap c.from_bytes same
                    ∙ codec.from_bytes-to_bytes k its_range in
                  let equal : k ≡ event_key h t i = cc in reads h t i equal
            ];
    }

    abbrev meta_entry : ℕ → List Entry
    meta_entry n = (c.to_bytes meta_count, le_bytes 8 n) ∷ []

    batch_fits :
        (es : List DomainEvent) (n : ℕ)
        → All IsWritable es
        → All EntryFits (all_entries r c es ++ meta_entry n)
    batch_fits es n ranged =
        All-append EntryFits (all_entries r c es) (meta_entry n) (all_entries-EntryFits es ranged)
          ((meta_count, tt, refl, λ h t i same. cc), tt)

    All-back :
        (front back : List DomainEvent) → All IsWritable (front ++ back) → All IsWritable back
    All-back [] back all = all
    All-back (x ∷ front) back all = All-back front back all.1

    -- What a batch holds of an event that none after it overwrites.
    batch_stores :
        (front back : List DomainEvent) (e : DomainEvent) (n : ℕ) (db db' : r.Db)
        → (is : IsEventDb r c db') → All IsWritable (front ++ e ∷ back)
        → All (IsElsewhere e) back
        → r.write (all_entries r c (front ++ e ∷ back) ++ meta_entry n) db ≡ some db'
        → IsStored r c laws codec db' is e
    batch_stores front back e n db db' is ranged others written =
        let own = All-back front (e ∷ back) ranged in
        let later = all_entries r c back ++ meta_entry n in
        let before = all_entries r c front in
        let k = c.to_bytes (key_of r c e) in
        let others_later : All (IsOther k) later =
          All-append (IsOther k) (all_entries r c back) (meta_entry n)
            (elsewhere r c laws codec e back own.0.0 (ranges back own.1) others)
            (
              same_bytes-keys r c laws codec (key_of r c e) meta_count own.0.0 tt (λ same. cc),
              tt,
            ) in
        let shape : all_entries r c (front ++ e ∷ back) ++ meta_entry n
            ≡ before ++ (event_entries r c e ++ later) =
          ap (λ xs. xs ++ meta_entry n) (all_entries-append r c laws codec front (e ∷ back))
          ∙ append_assoc before (event_entries r c e ++ all_entries r c back) (meta_entry n) in
        let write : r.write (before ++ (event_entries r c e ++ later)) db ≡ some db' =
          ap (λ xs. r.write xs db) (sym shape) ∙ written in
        let read = λ (key : List ℕ).
          laws.get-write (before ++ (event_entries r c e ++ later)) db key write
          ∙ last_put-append before (event_entries r c e ++ later) key (r.get db key) in
        let index = c.to_bytes (block_index e.block_height e.tx_hash e.event_index) in
        let (v, indexed) =
          index_put r c laws codec e later (last_put before index (r.get db index)) own.0.0 in
        record {
          height_small = own.0.0.0;
          index_small = own.0.0.1;
          entry = v;
          reads = own.0.1;
          indexed = read index ∙ indexed;
          there =
              read k
              ∙ event_put r c laws codec e later (last_put before k (r.get db k)) own.0.0
                  others_later;
        }

    not_empty : (front back : List DomainEvent) (e : DomainEvent) → (front ++ e ∷ back) ≢ []
    not_empty [] back e same = cc
    not_empty (x ∷ front) back e same = cc

    -- After a flush that succeeds, over a database that this store has written, a buffered event that
    -- no later one of the buffer replaces is among the events that the query for a range of heights
    -- with its height gives; and the database is again one that the query can read
    -- (borsh reads back the buffered events, with heights of u64 and indices of u32).
    pub flush-get_by_block_range :
        (store store' : RocksDbEventStore r c) (front back : List DomainEvent) (e : DomainEvent)
        (from to : ℕ)
        → IsEventDb r c store.db
        → flush r c store ≡ (stored tt, store')
        → store.write_buffer ≡ front ++ e ∷ back
        → All IsWritable (front ++ e ∷ back)
        → All (IsElsewhere e) back
        → from ≤ e.block_height
        → e.block_height ≤ to
        → IsEventDb r c store'.db
          × ((es : List DomainEvent) × (get_by_block_range r c store' from to ≡ stored es)
              × Holds e es)
    flush-get_by_block_range store store' front back e from to is flushed buffer ranged others low
          high =
        elim (flush-outcome r c store) [
          | inl (empty, _) ↦ elim (not_empty front back e (sym buffer ∙ empty)) [ ]
          | inr (inl (x, _, failing)) ↦
              let clash : failed x ≡ stored tt = ap (λ out. out.0) (sym failing ∙ flushed) in cc
          | inr (inr (n, db, written, done)) ↦
              let same_db : db ≡ store'.db = ap (λ out. out.1.db) (sym done ∙ flushed) in
              let write : r.write (all_entries r c (front ++ e ∷ back) ++ meta_entry n) store.db
                  ≡ some store'.db =
                ap (λ es. r.write (all_entries r c es ++ meta_entry n) store.db) (sym buffer)
                ∙ written
                ∙ ap some same_db in
              let is' =
                write-IsEventDb (all_entries r c (front ++ e ∷ back) ++ meta_entry n) store.db
                  store'.db is (batch_fits (front ++ e ∷ back) n ranged) write in
              (
                is',
                get_by_block_range-finds r c laws codec store'.db is' store' e from to refl
                    (batch_stores front back e n store.db store'.db is' ranged others write) low
                    high,
              )
        ]
