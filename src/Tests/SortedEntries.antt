-- ===== src/Tests/SortedEntries.antt =====
-- A sorted list in place of the database, which behaves as is expected of it.
use mathlib.Core.Path.{subst}
use pranklin.Base.{
  ℕ, ◌≡◌, ◌∙◌, refl, sym, ap, true, false, some, List, [], ◌∷◌, All, Bool-cases, inl, inr, arith,
  if◌then◌else◌,
}
use pranklin.Events.Rocks.{Entry, RocksDb}
use pranklin.Events.Rocks.Order.{
  leq, leq_refl, leq_trans, same_bytes, same_bytes→≡, same_bytes_refl, find_key, AscendingFrom,
}
use pranklin.Events.Rocks.Laws.{last_put, RocksLaws}

leq_total : (x y : List ℕ) → leq y x ≡ false → leq x y ≡ true
unfolding leq
leq_total [] y e = refl
leq_total (a ∷ x) [] e = cc
leq_total (a ∷ x) (b ∷ y) e = let rest = leq_total x y in ground (arith, rest)

leq_antisym : (x y : List ℕ) → leq x y ≡ true → leq y x ≡ true → same_bytes x y ≡ true
unfolding leq same_bytes
leq_antisym [] [] low high = refl
leq_antisym [] (b ∷ y) low high = cc
leq_antisym (a ∷ x) [] low high = cc
leq_antisym (a ∷ x) (b ∷ y) low high = let rest = leq_antisym x y in ground (arith, rest)

abbrev pub IsBelow : List ℕ → List Entry → Type 0
IsBelow low [] = Unit
IsBelow low ((key, value) ∷ entries) = leq key low ≡ false

abbrev pub IsStrict : List Entry → Type 0
IsStrict [] = Unit
IsStrict ((key, value) ∷ entries) = IsBelow key entries × IsStrict entries

put_entry : List ℕ → List ℕ → List Entry → List Entry
put_entry k v [] = (k, v) ∷ []
put_entry k v ((key, value) ∷ entries) =
    let rest = put_entry k v entries in
    if same_bytes k key
    then (k, v) ∷ entries
    else if leq k key
    then (k, v) ∷ (key, value) ∷ entries
    else (key, value) ∷ rest

put_entry-IsBelow :
    (low k v : List ℕ) (entries : List Entry)
    → leq k low ≡ false
    → IsBelow low entries
    → IsBelow low (put_entry k v entries)
unfolding put_entry
put_entry-IsBelow low k v [] above below = above
put_entry-IsBelow low k v ((key, value) ∷ entries) above below =
    elim (Bool-cases (same_bytes k key)) [
      | inl same ↦ rw same above
      | inr other ↦ elim (Bool-cases (leq k key)) [
        | inl before ↦ rw (other, before) above
        | inr after ↦ rw (other, after) below
      ]
    ]

differ : (k key : List ℕ) → leq k key ≡ true → same_bytes k key ≡ false → leq key k ≡ false
differ k key low other = elim (Bool-cases (leq key k)) [
  | inl high ↦ let same = leq_antisym k key low high in cc
  | inr above ↦ above
]

put_entry-IsStrict :
    (k v : List ℕ) (entries : List Entry) → IsStrict entries → IsStrict (put_entry k v entries)
unfolding put_entry
put_entry-IsStrict k v [] strict = (tt, tt)
put_entry-IsStrict k v ((key, value) ∷ entries) strict = elim (Bool-cases (same_bytes k key)) [
  | inl same ↦
      let below = subst (λ low. IsBelow low entries) (sym (same_bytes→≡ k key same)) strict.0 in
      rw same (below, strict.1)
  | inr other ↦ elim (Bool-cases (leq k key)) [
    | inl before ↦ rw (other, before) (differ k key before other, strict)
    | inr after ↦
        rw (other, after)
          (
            put_entry-IsBelow key k v entries after strict.0,
            put_entry-IsStrict k v entries strict.1,
          )
  ]
]

find_key-put_entry :
    (j k v : List ℕ) (entries : List Entry)
    → find_key j (put_entry k v entries) ≡ (if same_bytes j k then some v else find_key j entries)
unfolding find_key put_entry
find_key-put_entry j k v [] = refl
find_key-put_entry j k v ((key, value) ∷ entries) =
    let rest = find_key-put_entry j k v entries in
    elim (Bool-cases (same_bytes k key)) [
      | inl same ↦ let its_key = same_bytes→≡ k key same in rw same (rw its_key (ground arith))
      | inr other ↦ elim (Bool-cases (leq k key)) [
        | inl before ↦ rw (other, before) refl
        | inr after ↦ elim (Bool-cases (same_bytes j key)) [
          | inl here ↦
              let off : same_bytes j k ≡ false = elim (Bool-cases (same_bytes j k)) [
                | inl both ↦
                    let equal : k ≡ key = sym (same_bytes→≡ j k both) ∙ same_bytes→≡ j key here in
                    let same = subst (λ x. same_bytes k x ≡ true) equal (same_bytes_refl k) in cc
                | inr off ↦ off
              ] in
              rw (other, after, here, off) refl
          | inr away ↦ rw (other, after, away) rest
        ]
      ]
    ]

pub drop_below : List ℕ → List Entry → List Entry
drop_below p [] = []
drop_below p ((key, value) ∷ entries) =
    let rest = drop_below p entries in if leq p key then (key, value) ∷ entries else rest

ascending :
    (low : List ℕ) (entries : List Entry)
    → IsBelow low entries
    → IsStrict entries
    → AscendingFrom low entries
ascending low [] below strict = tt
ascending low ((key, value) ∷ entries) below strict =
    (leq_total low key below, ascending key entries strict.0 strict.1)

drop_below-ascends :
    (p : List ℕ) (entries : List Entry) → IsStrict entries → AscendingFrom p (drop_below p entries)
unfolding drop_below
drop_below-ascends p [] strict = tt
drop_below-ascends p ((key, value) ∷ entries) strict = elim (Bool-cases (leq p key)) [
  | inl reached ↦ rw reached (reached, ascending key entries strict.0 strict.1)
  | inr lower ↦ rw lower (drop_below-ascends p entries strict.1)
]

abbrev IsFound : List Entry → Entry → Type 0
IsFound all (key, value) = find_key key all ≡ some value

-- A key below all others hides none of them.
tail-IsFound :
    (k v low : List ℕ) (all entries : List Entry)
    → leq k low ≡ true
    → IsBelow low entries
    → IsStrict entries
    → All (IsFound all) entries
    → All (IsFound ((k, v) ∷ all)) entries
unfolding find_key
tail-IsFound k v low all [] first below strict found = tt
tail-IsFound k v low all ((key, value) ∷ entries) first below strict found =
    let above : leq low key ≡ true = leq_total low key below in
    let off : same_bytes key k ≡ false = elim (Bool-cases (same_bytes key k)) [
      | inl same ↦
          let low_too = subst (λ x. leq x low ≡ true) (sym (same_bytes→≡ key k same)) first in cc
      | inr off ↦ off
    ] in
    (
      rw off found.0,
      tail-IsFound k v key all entries (leq_trans k low key first above) strict.0 strict.1 found.1,
    )

All-IsFound : (entries : List Entry) → IsStrict entries → All (IsFound entries) entries
unfolding find_key
All-IsFound [] strict = tt
All-IsFound ((key, value) ∷ entries) strict = (
  rw (same_bytes_refl key) refl,
  tail-IsFound key value key entries entries (leq_refl key) strict.0 strict.1
      (All-IsFound entries strict.1),
)

drop_below-All :
    (P : Entry → Type 0) (p : List ℕ) (entries : List Entry)
    → All P entries
    → All P (drop_below p entries)
unfolding drop_below
drop_below-All P p [] all = tt
drop_below-All P p ((key, value) ∷ entries) all = elim (Bool-cases (leq p key)) [
  | inl reached ↦ rw reached all
  | inr lower ↦ rw lower (drop_below-All P p entries all.1)
]

find_key-drop_below :
    (p k : List ℕ) (entries : List Entry) {v : List ℕ}
    → leq p k ≡ true
    → find_key k entries ≡ some v
    → find_key k (drop_below p entries) ≡ some v
unfolding find_key drop_below
find_key-drop_below p k [] high found = found
find_key-drop_below p k ((key, value) ∷ entries) high found = elim (Bool-cases (leq p key)) [
  | inl reached ↦ rw reached found
  | inr lower ↦ elim (Bool-cases (same_bytes k key)) [
    | inl same ↦ let reached = subst (λ x. leq p x ≡ true) (same_bytes→≡ k key same) high in cc
    | inr other ↦ rw lower (find_key-drop_below p k entries high (rw other at found))
  ]
]

pub record SortedDb : Type 0 where
  pub entries : List Entry
  pub strict : IsStrict entries

pub put_all : List Entry → SortedDb → SortedDb
put_all [] db = db
put_all ((k, v) ∷ batch) db = put_all batch (record {
  entries = put_entry k v db.entries;
  strict = put_entry-IsStrict k v db.entries db.strict;
})

find_key-put_all :
    (batch : List Entry) (db : SortedDb) (j : List ℕ)
    → find_key j (put_all batch db).entries ≡ last_put batch j (find_key j db.entries)
unfolding put_all
find_key-put_all [] db j = refl
find_key-put_all ((k, v) ∷ batch) db j =
    find_key-put_all batch
      (record {
        entries = put_entry k v db.entries;
        strict = put_entry-IsStrict k v db.entries db.strict;
      })
      j
    ∙ ap (last_put batch j) (find_key-put_entry j k v db.entries)

abbrev pub sorted : RocksDb
sorted = record {
  Db = SortedDb;
  get = λ db k. find_key k db.entries;
  write = λ batch db. some (put_all batch db);
  prefix_iterator = λ db p. drop_below p db.entries;
}

abbrev pub no_entries : SortedDb
no_entries = record { entries = []; strict = tt }

pub sorted_laws : RocksLaws sorted
sorted_laws = record {
  ascends = λ db p. drop_below-ascends p db.entries db.strict;
  only_stored =
      λ db p. drop_below-All (IsFound db.entries) p db.entries (All-IsFound db.entries db.strict);
  all_stored = λ db p k high there. find_key-drop_below p k db.entries high there;
  get-write = λ batch db {db'} k written.
      let same : put_all batch db ≡ db' = cc in
      subst (λ x. find_key k x.entries ≡ last_put batch k (find_key k db.entries)) same
        (find_key-put_all batch db k);
}
