-- ===== src/Events/Queries.antt =====
-- The indexed queries against the log itself: crates/engine/src/event_store.rs.
use pranklin.Base.{
  ℕ, zero, suc, ◌+◌, ◌-◌, ◌≡◌, ◌≤◌, ◌<◌, Bool, false, ◌&&◌, some, List, [], ◌∷◌, ◌++◌, length, keep,
  take, reverse, leb, ◌==◌, arith, refl, sym, ◌∙◌, ap, All, inl, inr, Bool-cases,
}
use mathlib.Core.List.{append_assoc, append-nil}
use pranklin.Base.Maps.{lookup, lookup-insert}
use pranklin.Events.Defs.{
  DomainEvent, InMemoryEventStore, empty_store, append_event, append, push_index, or_no_indices,
  read_all, get_by_tx, get_by_block_range, read_blocks, scan_for, get_by_address,
  event_involves_address, count,
}
use pranklin.Events.Positions.{positions, positions-append, read_all-positions}

abbrev pub of_tx : ℕ → DomainEvent → Bool
of_tx h e = e.tx_hash == h

abbrev pub of_block : ℕ → DomainEvent → Bool
of_block h e = e.block_height == h

-- An index lists, under each key, the positions of the events with that key.
pub record IsIndexed (store : InMemoryEventStore) : Type 0 where
  pub tx : (h : ℕ) → or_no_indices (lookup h store.by_tx) ≡ positions (of_tx h) 0 store.events
  pub block :
      (h : ℕ) → or_no_indices (lookup h store.by_block) ≡ positions (of_block h) 0 store.events

pub empty_store-IsIndexed : IsIndexed empty_store
unfolding positions lookup
empty_store-IsIndexed = record { tx = λ h. refl; block = λ h. refl }

append_event-IsIndexed :
    (e : DomainEvent) (store : InMemoryEventStore)
    → IsIndexed store
    → IsIndexed (append_event e store)
unfolding append_event push_index
append_event-IsIndexed e store h = record {
  tx = λ k. ground (
    arith,
    h.tx k,
    lookup-insert e.tx_hash k
        (or_no_indices (lookup e.tx_hash store.by_tx) ++ length store.events ∷ []) store.by_tx,
    positions-append (of_tx k) 0 store.events e,
  );
  block = λ k. ground (
    arith,
    h.block k,
    lookup-insert e.block_height k
        (or_no_indices (lookup e.block_height store.by_block) ++ length store.events ∷ [])
        store.by_block,
    positions-append (of_block k) 0 store.events e,
  );
}

-- Appending keeps the indexes in step with the log.
pub append-IsIndexed :
    (es : List DomainEvent) (store : InMemoryEventStore)
    → IsIndexed store
    → IsIndexed (append es store)
unfolding append
append-IsIndexed [] store h = h
append-IsIndexed (e ∷ es) store h =
    append-IsIndexed es (append_event e store) (append_event-IsIndexed e store h)

pub append-events :
    (es : List DomainEvent) (store : InMemoryEventStore)
    → (append es store).events ≡ store.events ++ es
unfolding append append_event
append-events [] store = sym (append-nil store.events)
append-events (e ∷ es) store =
    append-events es (append_event e store) ∙ append_assoc store.events (e ∷ []) es

get_by_tx-log :
    (store : InMemoryEventStore) (h : ℕ)
    → IsIndexed store
    → get_by_tx store h ≡ some (keep (of_tx h) store.events)
unfolding get_by_tx read_all
get_by_tx-log store h x = ground (arith, x.tx h, read_all-positions (of_tx h) store.events)

-- The events that an address is involved in.
abbrev pub involves : ℕ → DomainEvent → Bool
involves address e = event_involves_address e.event address

scan_for-take :
    (address limit count left : ℕ) (es : List DomainEvent)
    → limit ≡ count + left
    → scan_for address limit count es ≡ take left (keep (involves address) es)
unfolding scan_for
scan_for-take address limit count zero [] at = refl
scan_for-take address limit count (suc left) [] at = refl
scan_for-take address limit count zero (e ∷ es) at = ground arith
scan_for-take address limit count (suc left) (e ∷ es) at = elim (Bool-cases (involves address e)) [
  | inl found ↦ ground (arith, scan_for-take address limit (suc count) left es (omega arith))
  | inr skipped ↦ ground (arith, scan_for-take address limit count (suc left) es at)
]

-- Heights that do not fall along the log.
abbrev pub IsChronological : List DomainEvent → Type 0
IsChronological [] = Unit
IsChronological (e ∷ es) = All (λ f. e.block_height ≤ f.block_height) es × IsChronological es

abbrev pub within : ℕ → ℕ → DomainEvent → Bool
within from_height to_height e = leb from_height e.block_height && leb e.block_height to_height

no_earlier :
    (h : ℕ) (e : DomainEvent) (es : List DomainEvent)
    → h < e.block_height
    → All (λ f. e.block_height ≤ f.block_height) es
    → keep (of_block h) es ≡ []
no_earlier h e [] less later = refl
no_earlier h e (f ∷ es) less later = ground (arith, no_earlier h e es less later.1)

-- The events of one height come before those of the heights above.
none_within : (h last : ℕ) (es : List DomainEvent) → last < h → keep (within h last) es ≡ []
none_within h last [] less = refl
none_within h last (e ∷ es) less = ground (arith, none_within h last es less)

split_height :
    (h last : ℕ) (es : List DomainEvent)
    → h ≤ last
    → IsChronological es
    → keep (of_block h) es ++ keep (within (suc h) last) es ≡ keep (within h last) es
split_height h last [] le order = refl
split_height h last (e ∷ es) le order =
    ground (arith, split_height h last es le order.1, no_earlier h e es)

read_blocks-within :
    (store : InMemoryEventStore) (h count last : ℕ)
    → IsIndexed store
    → IsChronological store.events
    → h + count ≡ suc last
    → read_blocks store h count ≡ some (keep (within h last) store.events)
unfolding read_blocks
read_blocks-within store h zero last x order end =
    ap some (sym (none_within h last store.events (omega arith)))
read_blocks-within store h (suc count) last x order end = ground (
  arith,
  x.block h,
  read_all-positions (of_block h) store.events,
  read_blocks-within store (suc h) count last x order (omega arith),
  split_height h last store.events (omega arith) order,
)

-- After appending to a store with its indexes in step with its log, the events of a transaction
-- are read with no panic and are those of the whole log with its hash, in order; those of an address
-- are the last ones of the log that involve it, latest first, up to the limit; and the count is the
-- length of the log.
pub append-queries :
    (es : List DomainEvent) (store : InMemoryEventStore) (tx_hash address limit : ℕ)
    → IsIndexed store
    → let log = store.events ++ es in
      (get_by_tx (append es store) tx_hash ≡ some (keep (of_tx tx_hash) log))
      × (get_by_address (append es store) address limit
          ≡ take limit (keep (involves address) (reverse log)))
      × (count (append es store) ≡ length log)
unfolding get_by_address count
append-queries es store tx_hash address limit x =
    let after = append es store in
    let grown = append-events es store in
    (
      get_by_tx-log after tx_hash (append-IsIndexed es store x)
          ∙ ap (λ log. some (keep (of_tx tx_hash) log)) grown,
      scan_for-take address limit 0 limit (reverse after.events) (omega arith)
          ∙ ap (λ log. take limit (keep (involves address) (reverse log))) grown,
      ap length grown,
    )

empty_range :
    (from_height to_height : ℕ)
    → leb from_height to_height ≡ false
    → suc to_height - from_height ≡ 0
empty_range from_height to_height h = ground arith

-- In a store with its indexes in step with its log, whose heights do not fall along the log, the
-- query for a range of heights panics nowhere and gives the events within the range, in the order of
-- the log, none if the range is empty.
pub get_by_block_range-log :
    (store : InMemoryEventStore) (from_height to_height : ℕ)
    → IsIndexed store
    → IsChronological store.events
    → get_by_block_range store from_height to_height
      ≡ some (keep (within from_height to_height) store.events)
unfolding get_by_block_range read_blocks
get_by_block_range-log store from_height to_height x order =
    elim (Bool-cases (leb from_height to_height)) [
      | inl some_heights ↦
          read_blocks-within store from_height (suc to_height - from_height) to_height x order
            (ground arith)
      | inr no_heights ↦ ground (
        arith,
        no_heights,
        none_within from_height to_height store.events,
        empty_range from_height to_height,
      )
    ]
