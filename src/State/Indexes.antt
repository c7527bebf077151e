-- ===== src/State/Indexes.antt =====
-- `PositionIndexManager` and `OrderIndexManager` of crates/state/src/index_manager.rs, each over the
-- keys that it writes. A set is a list of its elements, oldest first.
use pranklin.Base.{
  ℕ, Bool, true, Option, none, some, List, [], ◌∷◌, insert_new, update, number_key, pair_key,
}
use pranklin.Storage.{Store, get, set, delete}
use pranklin.State.Defs.{or_else, drop_address}

-- `entry(key).or_default().insert(element)`
abbrev pub insert_entry : ℕ → ℕ → (ℕ → Option (List ℕ)) → ℕ → Option (List ℕ)
insert_entry k x index = update index k (some (insert_new x (or_else (index k) [])))

-- The entry of a market goes with its last element.
abbrev pub remove_entry : ℕ → ℕ → (ℕ → Option (List ℕ)) → ℕ → Option (List ℕ)
remove_entry k x index = elim (index k) [
  | none ↦ index
  | some elements ↦ update index k (drop_address x elements)
]

-- The entries that are stored for these markets.
unfoldable pub collect_index : (ℕ → Option (List ℕ)) → List ℕ → ℕ → Option (List ℕ)
collect_index read [] = λ _. none
collect_index read (market_id ∷ markets) =
    let rest = collect_index read markets in
    elim (read market_id) [ none ↦ rest | some elements ↦ update rest market_id (some elements) ]

-- A stored list read into a set.
unfoldable pub as_set : List ℕ → List ℕ → List ℕ
as_set seen [] = seen
as_set seen (x ∷ xs) = as_set (insert_new x seen) xs

pub record PositionIndexManager : Type 0 where
  pub index : ℕ → Option (List ℕ)
  pub storage : Store ℕ (List ℕ)
  pub version : ℕ

unfoldable pub new_position_index : Store ℕ (List ℕ) → ℕ → PositionIndexManager
new_position_index storage version = record {
  index = λ _. none;
  storage = storage;
  version = version;
}

unfoldable pub persist_index : ℕ → PositionIndexManager → PositionIndexManager
persist_index market_id m = record m {
  storage = set market_id (or_else (m.index market_id) []) m.storage;
}

unfoldable pub persist_or_delete_index : ℕ → PositionIndexManager → PositionIndexManager
persist_or_delete_index market_id m = elim (m.index market_id) [
  | none ↦ record m { storage = delete market_id m.storage }
  | some addresses ↦ record m { storage = set market_id addresses m.storage }
]

unfoldable pub add_position : ℕ → ℕ → PositionIndexManager → PositionIndexManager
add_position market_id address m =
    persist_index market_id (record m { index = insert_entry market_id address m.index })

unfoldable pub remove_position : ℕ → ℕ → PositionIndexManager → PositionIndexManager
remove_position market_id address m =
    persist_or_delete_index market_id (record m { index = remove_entry market_id address m.index })

unfoldable pub get_addresses : PositionIndexManager → ℕ → Option (List ℕ)
get_addresses m market_id = m.index market_id

unfoldable pub rebuild_from_state : List ℕ → PositionIndexManager → PositionIndexManager
rebuild_from_state markets m = record m {
  index = collect_index (λ market_id. get m.storage market_id m.version) markets;
}

unfoldable pub set_version : ℕ → PositionIndexManager → PositionIndexManager
set_version version m = record m { version = version }

pub record OrderIndexManager : Type 0 where
  pub index : ℕ → Option (List ℕ)
  pub flags : Store (ℕ × ℕ) Bool
  pub lists : Store ℕ (List ℕ)
  pub version : ℕ

unfoldable pub new_order_index : Store (ℕ × ℕ) Bool → Store ℕ (List ℕ) → ℕ → OrderIndexManager
new_order_index flags lists version = record {
  index = λ _. none;
  flags = flags;
  lists = lists;
  version = version;
}

unfoldable pub persist_order_list : ℕ → OrderIndexManager → OrderIndexManager
persist_order_list market_id m = record m {
  lists = set market_id (or_else (m.index market_id) []) m.lists;
}

unfoldable pub persist_or_delete_order_list : ℕ → OrderIndexManager → OrderIndexManager
persist_or_delete_order_list market_id m = elim (m.index market_id) [
  | none ↦ record m { lists = delete market_id m.lists }
  | some orders ↦ record m { lists = set market_id orders m.lists }
]

unfoldable pub index_order : ℕ → ℕ → OrderIndexManager → OrderIndexManager
index_order market_id order_id m = persist_order_list market_id (record m {
  index = insert_entry market_id order_id m.index;
  flags = set (market_id, order_id) true m.flags;
})

unfoldable pub unindex_order : ℕ → ℕ → OrderIndexManager → OrderIndexManager
unindex_order market_id order_id m = persist_or_delete_order_list market_id (record m {
  index = remove_entry market_id order_id m.index;
  flags = delete (market_id, order_id) m.flags;
})

unfoldable pub get_orders : OrderIndexManager → ℕ → List ℕ
get_orders m market_id = or_else (m.index market_id) []

-- The list that is stored for a market, as a set.
abbrev pub stored_orders : OrderIndexManager → ℕ → Option (List ℕ)
stored_orders m market_id = elim (get m.lists market_id m.version) [
  | none ↦ none
  | some orders ↦ some (as_set [] orders)
]

unfoldable pub rebuild_orders : List ℕ → OrderIndexManager → OrderIndexManager
rebuild_orders markets m = record m { index = collect_index (stored_orders m) markets }

unfoldable pub set_order_version : ℕ → OrderIndexManager → OrderIndexManager
set_order_version version m = record m { version = version }
