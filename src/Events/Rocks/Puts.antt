-- ===== src/Events/Rocks/Puts.antt =====
-- The puts of a flush, seen from the keys of one event.
use pranklin.Base.{
  ℕ, ◌<◌, ◌≡◌, ◌≢◌, inl, inr, ◌∙◌, refl, sym, ap, false, Option, some, List, [], ◌∷◌, ◌++◌,
  if◌then◌else◌, Bool-cases, All,
}
use pranklin.Base.Words.{u64_mod, u32_mod}
use pranklin.Events.Defs.{DomainEvent}
use pranklin.Events.Rocks.Defs.{
  EventStoreKey, event_key, block_index, tx_index, Entry, RocksDb, EventCodec, event_entries,
  all_entries,
}
use pranklin.Events.Rocks.Order.{same_bytes, same_bytes→≡, same_bytes_refl}
use pranklin.Events.Rocks.Laws.{last_put, IsKey, RocksLaws, CodecLaws}

pub last_put-append :
    (front back : List Entry) (k : List ℕ) (old : Option (List ℕ))
    → last_put (front ++ back) k old ≡ last_put back k (last_put front k old)
last_put-append [] back k old = refl
last_put-append ((key, value) ∷ front) back k old =
    last_put-append front back k (if same_bytes k key then some value else old)

-- A key that has a value keeps one.
last_put-some :
    (entries : List Entry) (k value : List ℕ)
    → (later : List ℕ) × (last_put entries k (some value) ≡ some later)
last_put-some [] k value = (value, refl)
last_put-some ((key, new) ∷ entries) k value = elim (Bool-cases (same_bytes k key)) [
  | inl same ↦ rw same (last_put-some entries k new)
  | inr other ↦ rw other (last_put-some entries k value)
]

abbrev pub IsOther : List ℕ → Entry → Type 0
IsOther k (key, value) = same_bytes k key ≡ false

last_put-other :
    (entries : List Entry) (k : List ℕ) (old : Option (List ℕ))
    → All (IsOther k) entries
    → last_put entries k old ≡ old
last_put-other [] k old others = refl
last_put-other ((key, value) ∷ entries) k old others =
    rw (others.0) (last_put-other entries k old others.1)

-- The heights of u64 and the indices of u32.
abbrev pub InRange : DomainEvent → Type 0
InRange e = (e.block_height < u64_mod) × (e.event_index < u32_mod)

-- Another place in the log: another height, transaction or index.
abbrev pub IsElsewhere : DomainEvent → DomainEvent → Type 0
IsElsewhere e x =
    event_key e.block_height e.tx_hash e.event_index
    ≢ event_key x.block_height x.tx_hash x.event_index

module _ (r : RocksDb) (c : EventCodec) where
  abbrev pub key_of : DomainEvent → EventStoreKey
  key_of e = event_key e.block_height e.tx_hash e.event_index

  module _ (laws : RocksLaws r) (codec : CodecLaws c) where
    -- Keys of different places have different bytes.
    pub same_bytes-keys :
        (j k : EventStoreKey)
        → IsKey j
        → IsKey k
        → j ≢ k
        → same_bytes (c.to_bytes j) (c.to_bytes k) ≡ false
    same_bytes-keys j k hj hk differ =
        elim (Bool-cases (same_bytes (c.to_bytes j) (c.to_bytes k))) [
          | inr other ↦ other
          | inl same ↦
              let bytes = same_bytes→≡ (c.to_bytes j) (c.to_bytes k) same in
              let reads =
                sym (codec.from_bytes-to_bytes j hj)
                ∙ ap c.from_bytes bytes
                ∙ codec.from_bytes-to_bytes k hk in
              let equal : j ≡ k = cc in elim (differ equal) [ ]
        ]

    -- The entries of events elsewhere leave the event of a place alone.
    pub elsewhere :
        (e : DomainEvent) (es : List DomainEvent)
        → InRange e
        → All InRange es
        → All (IsElsewhere e) es
        → All (IsOther (c.to_bytes (key_of e))) (all_entries r c es)
    elsewhere e [] ranged all_ranged others = tt
    elsewhere e (x ∷ es) ranged all_ranged others =
        let k = key_of e in
        (
          same_bytes-keys k (key_of x) ranged all_ranged.0 others.0,
          (
            same_bytes-keys k (block_index x.block_height x.tx_hash x.event_index) ranged
                all_ranged.0 (λ same. cc),
            (
              same_bytes-keys k (tx_index x.tx_hash x.event_index) ranged (all_ranged.0.1)
                  (λ same. cc),
              elsewhere e es ranged all_ranged.1 others.1,
            ),
          ),
        )

    pub all_entries-append :
        (front back : List DomainEvent)
        → all_entries r c (front ++ back) ≡ all_entries r c front ++ all_entries r c back
    all_entries-append [] back = refl
    all_entries-append (x ∷ front) back =
        ap (λ es. event_entries r c x ++ es) (all_entries-append front back)

    -- The three puts of an event, and what comes after them, seen from its key.
    pub event_put :
        (e : DomainEvent) (later : List Entry) (old : Option (List ℕ))
        → InRange e
        → All (IsOther (c.to_bytes (key_of e))) later
        → last_put (event_entries r c e ++ later) (c.to_bytes (key_of e)) old
          ≡ some (c.event_to_vec e)
    event_put e later old ranged others =
        let k = c.to_bytes (key_of e) in
        let index =
          same_bytes-keys (key_of e) (block_index e.block_height e.tx_hash e.event_index) ranged
            ranged (λ same. cc) in
        let of_tx =
          same_bytes-keys (key_of e) (tx_index e.tx_hash e.event_index) ranged ranged.1
            (λ same. cc) in
        rw (same_bytes_refl k, index, of_tx)
          (last_put-other later k (some (c.event_to_vec e)) others)

    pub index_put :
        (e : DomainEvent) (later : List Entry) (old : Option (List ℕ))
        → InRange e
        → (v : List ℕ) × (last_put
              (event_entries r c e ++ later)
              (c.to_bytes (block_index e.block_height e.tx_hash e.event_index))
              old
            ≡ some v)
    index_put e later old ranged =
        let k = c.to_bytes (block_index e.block_height e.tx_hash e.event_index) in
        let of_tx =
          same_bytes-keys (block_index e.block_height e.tx_hash e.event_index)
            (tx_index e.tx_hash e.event_index) ranged ranged.1 (λ same. cc) in
        rw (same_bytes_refl k, of_tx) (last_put-some later k [])
