-- ===== src/State/Defs.antt =====
-- `StateManager` of crates/state/src/lib.rs: one store for each kind of `StateKey`, and the index
-- of positions that is kept in memory. A set of addresses is a list of them, oldest first.
use pranklin.Base.{
  ℕ, ◌+◌, Bool, true, false, Option, none, some, List, [], ◌∷◌, ◌++◌, ltb, if◌then◌else◌, contains,
  insert_new, without, update, number_key, pair_key, unit_key, Result, ok, err, state_error,
}
use pranklin.Base.Words.{u64_mod, add_u64}
use pranklin.Types.Order.{Order}
use pranklin.Types.Position.{Position}
use pranklin.Types.Market.{Market, FundingRate, no_funding, Asset}
use pranklin.Storage.{Store, fresh, get, set, delete, commit}

pub record State : Type 0 where
  pub version : ℕ
  pub balances : Store (ℕ × ℕ) ℕ
  pub nonces : Store ℕ ℕ
  pub positions : Store (ℕ × ℕ) Position
  pub orders : Store ℕ Order
  pub markets : Store ℕ Market
  pub funding_rates : Store ℕ FundingRate
  pub next_id : Store (Unit {0}) ℕ
  pub active_flags : Store (ℕ × ℕ) Bool
  pub active_lists : Store ℕ (List ℕ)
  pub market_list : Store (Unit {0}) (List ℕ)
  pub position_indexes : Store ℕ (List ℕ)
  pub operators : Store ℕ Bool
  pub assets : Store ℕ Asset
  pub asset_list : Store (Unit {0}) (List ℕ)
  pub position_index : ℕ → Option (List ℕ)

-- A state over an empty database, at version 0.
unfoldable pub init : State
init = record {
  version = 0;
  balances = fresh;
  nonces = fresh;
  positions = fresh;
  orders = fresh;
  markets = fresh;
  funding_rates = fresh;
  next_id = fresh;
  active_flags = fresh;
  active_lists = fresh;
  market_list = fresh;
  position_indexes = fresh;
  operators = fresh;
  assets = fresh;
  asset_list = fresh;
  position_index = λ _. none;
}

-- `unwrap_or_default`
abbrev pub or_else : {V : Type 0} → Option V → V → V
or_else none d = d
or_else (some v) d = v

unfoldable pub begin_block : ℕ → State → State
begin_block height s = record s { version = height }

-- `RocksDbStorage::commit` over the stores of every kind.
unfoldable pub commit_all : State → State
commit_all s = record s {
  balances = commit s.version s.balances;
  nonces = commit s.version s.nonces;
  positions = commit s.version s.positions;
  orders = commit s.version s.orders;
  markets = commit s.version s.markets;
  funding_rates = commit s.version s.funding_rates;
  next_id = commit s.version s.next_id;
  active_flags = commit s.version s.active_flags;
  active_lists = commit s.version s.active_lists;
  market_list = commit s.version s.market_list;
  position_indexes = commit s.version s.position_indexes;
  operators = commit s.version s.operators;
  assets = commit s.version s.assets;
  asset_list = commit s.version s.asset_list;
}

unfoldable pub get_balance : State → ℕ → ℕ → ℕ
get_balance s address asset_id = or_else (get s.balances (address, asset_id) s.version) 0

unfoldable pub set_balance : ℕ → ℕ → ℕ → State → State
set_balance address asset_id amount s = record s {
  balances = set (address, asset_id) amount s.balances;
}

unfoldable pub get_nonce : State → ℕ → ℕ
get_nonce s address = or_else (get s.nonces address s.version) 0

unfoldable pub set_nonce : ℕ → ℕ → State → State
set_nonce address nonce s = record s { nonces = set address nonce s.nonces }

unfoldable pub increment_nonce : ℕ → State → ℕ × State
increment_nonce address s =
    let new_nonce = add_u64 (get_nonce s address) 1 in (new_nonce, set_nonce address new_nonce s)

unfoldable pub get_position : State → ℕ → ℕ → Option Position
get_position s address market_id = get s.positions (address, market_id) s.version

unfoldable pub update_position_index : ℕ → State → State
update_position_index market_id s = elim (s.position_index market_id) [
  | none ↦ record s { position_indexes = delete market_id s.position_indexes }
  | some index ↦ record s { position_indexes = set market_id index s.position_indexes }
]

unfoldable pub set_position : ℕ → ℕ → Position → State → State
set_position address market_id position s =
    let index = insert_new address (or_else (s.position_index market_id) []) in
    update_position_index market_id (record s {
      positions = set (address, market_id) position s.positions;
      position_index = update s.position_index market_id (some index);
    })

-- The entry of a market goes with its last address.
abbrev pub drop_address : ℕ → List ℕ → Option (List ℕ)
drop_address address addresses = elim (without address addresses) [
  | [] ↦ none
  | x ∷ xs ↦ some (x ∷ xs)
]

unfoldable pub remove_from_position_index : ℕ → ℕ → State → State
remove_from_position_index market_id address s = elim (s.position_index market_id) [
  | none ↦ s
  | some addresses ↦ record s {
    position_index = update s.position_index market_id (drop_address address addresses);
  }
]

unfoldable pub delete_position : ℕ → ℕ → State → State
delete_position address market_id s = update_position_index market_id (
    remove_from_position_index market_id address
      (record s { positions = delete (address, market_id) s.positions }))

-- The entries that are stored for these markets.
unfoldable pub rebuilt_index : State → List ℕ → ℕ → Option (List ℕ)
rebuilt_index s [] = λ _. none
rebuilt_index s (market_id ∷ markets) =
    let rest = rebuilt_index s markets in
    elim (get s.position_indexes market_id s.version) [
      | none ↦ rest
      | some addresses ↦ update rest market_id (some addresses)
    ]

unfoldable pub rebuild_position_index : State → State
unfolding rebuilt_index
rebuild_position_index s =
    let markets = or_else (get s.market_list tt s.version) [] in
    record s { position_index = rebuilt_index s markets }

unfoldable pub get_position_addresses : State → ℕ → List ℕ
get_position_addresses s market_id = elim (s.position_index market_id) [
  | none ↦ or_else (get s.position_indexes market_id s.version) []
  | some addresses ↦ addresses
]

-- The `filter_map` of `get_all_positions_in_market`, over the addresses.
unfoldable pub positions_of : State → ℕ → List ℕ → List (ℕ × Position)
positions_of s market_id [] = []
positions_of s market_id (address ∷ rest) =
    let others = positions_of s market_id rest in
    elim (get_position s address market_id) [
      | none ↦ others
      | some p ↦ if ltb 0 p.size then (address, p) ∷ others else others
    ]

unfoldable pub get_all_positions_in_market : State → ℕ → List (ℕ × Position)
get_all_positions_in_market s market_id =
    positions_of s market_id (get_position_addresses s market_id)

unfoldable pub get_order : State → ℕ → Option Order
get_order s order_id = get s.orders order_id s.version

unfoldable pub delete_order : ℕ → State → State
delete_order order_id s = record s { orders = delete order_id s.orders }

unfoldable pub set_order : ℕ → Order → State → State
set_order order_id order s = record s { orders = set order_id order s.orders }

unfoldable pub get_market : State → ℕ → Option Market
get_market s market_id = get s.markets market_id s.version

unfoldable pub set_market : ℕ → Market → State → State
set_market market_id info s = record s {
  markets = set market_id info s.markets;
  market_list =
      let list = or_else (get s.market_list tt s.version) [] in
      if contains market_id list
      then s.market_list
      else set tt (list ++ market_id ∷ []) s.market_list;
}

unfoldable pub list_all_markets : State → List ℕ
list_all_markets s = or_else (get s.market_list tt s.version) []

unfoldable pub get_funding_rate : State → ℕ → FundingRate
get_funding_rate s market_id = or_else (get s.funding_rates market_id s.version) no_funding

unfoldable pub set_funding_rate : ℕ → FundingRate → State → State
set_funding_rate market_id rate s = record s { funding_rates = set market_id rate s.funding_rates }

-- `checked_add(1)` on u64.
unfoldable pub next_order_id : State → Result ℕ × State
next_order_id s =
    let current = or_else (get s.next_id tt s.version) 0 in
    if ltb (current + 1) u64_mod
    then (ok current, record s { next_id = set tt (current + 1) s.next_id })
    else (err (state_error "Order ID counter overflow"), s)

unfoldable pub is_bridge_operator : State → ℕ → Bool
is_bridge_operator s address = or_else (get s.operators address s.version) false

unfoldable pub set_bridge_operator : ℕ → Bool → State → State
set_bridge_operator address is_operator s = record s {
  operators = if is_operator then set address true s.operators else delete address s.operators;
}

unfoldable pub get_asset : State → ℕ → Option Asset
get_asset s asset_id = get s.assets asset_id s.version

unfoldable pub set_asset : ℕ → Asset → State → State
set_asset asset_id asset s = record s {
  assets = set asset_id asset s.assets;
  asset_list =
      let list = or_else (get s.asset_list tt s.version) [] in
      if contains asset_id list then s.asset_list else set tt (list ++ asset_id ∷ []) s.asset_list;
}

unfoldable pub list_all_assets : State → List ℕ
list_all_assets s = or_else (get s.asset_list tt s.version) []

unfoldable pub get_active_orders_by_market : State → ℕ → List ℕ
get_active_orders_by_market s market_id = or_else (get s.active_lists market_id s.version) []

unfoldable pub add_active_order : ℕ → ℕ → State → State
add_active_order market_id order_id s = record s {
  active_flags = set (market_id, order_id) true s.active_flags;
  active_lists =
      let list = get_active_orders_by_market s market_id in
      if contains order_id list
      then s.active_lists
      else set market_id (list ++ order_id ∷ []) s.active_lists;
}

unfoldable pub remove_active_order : ℕ → ℕ → State → State
remove_active_order market_id order_id s = record s {
  active_flags = delete (market_id, order_id) s.active_flags;
  active_lists =
      set market_id (without order_id (get_active_orders_by_market s market_id)) s.active_lists;
}
