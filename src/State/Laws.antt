-- ===== src/State/Laws.antt =====
-- A read of the state after each write of the state.
use pranklin.Base.{
  ℕ, ◌≡◌, refl, Option, some, [], ◌∷◌, without, insert_new, ◌++◌, arith, number_key, pair_key,
  unit_key, ◌&&◌, ◌==◌, if◌then◌else◌,
}
use pranklin.Types.Order.{Order}
use pranklin.Types.Position.{Position}
use pranklin.Storage.{get_value_option}
use pranklin.Storage.Reads.{get-set, get-delete}
use pranklin.State.Defs.{
  State, get_balance, set_balance, get_nonce, set_nonce, get_position, set_position,
  delete_position, update_position_index, remove_from_position_index, get_order, set_order,
  get_active_orders_by_market, add_active_order, remove_active_order,
}

pub get_balance-set_balance :
    (a i x b j : ℕ) (s : State)
    → get_balance (set_balance a i x s) b j ≡ (if a == b && i == j then x else get_balance s b j)
unfolding get_balance set_balance
get_balance-set_balance a i x b j s = ground (arith, get-set (a, i) (b, j) x s.version s.balances)

pub get_position-set_position :
    (a m b n : ℕ) (p : Position) (s : State)
    → get_position (set_position a m p s) b n
      ≡ (if a == b && m == n then some p else get_position s b n)
unfolding get_position set_position update_position_index
get_position-set_position a m b n p s =
    ground (arith, get-set (a, m) (b, n) p s.version s.positions)

pub get_order-set_order :
    (i j : ℕ) (o : Order) (s : State)
    → get_order (set_order i o s) j ≡ (if i == j then some o else get_order s j)
unfolding get_order set_order
get_order-set_order i j o s = ground (arith, get-set i j o s.version s.orders)

pub get_nonce-set_nonce :
    (a b n : ℕ) (s : State) → get_nonce (set_nonce a n s) b ≡ (if a == b then n else get_nonce s b)
unfolding get_nonce set_nonce
get_nonce-set_nonce a b n s = ground (arith, get-set a b n s.version s.nonces)

pub active-add_active_order :
    (m i n : ℕ) (s : State)
    → get_active_orders_by_market (add_active_order m i s) n ≡ (
        if m == n
        then insert_new i (get_active_orders_by_market s m)
        else get_active_orders_by_market s n)
unfolding get_active_orders_by_market add_active_order
active-add_active_order m i n s =
    ground (arith, get-set m n (get_active_orders_by_market s m ++ i ∷ []) s.version s.active_lists)

pub active-remove_active_order :
    (m i n : ℕ) (s : State)
    → get_active_orders_by_market (remove_active_order m i s) n ≡ (
        if m == n
        then without i (get_active_orders_by_market s m)
        else get_active_orders_by_market s n)
unfolding get_active_orders_by_market remove_active_order
active-remove_active_order m i n s =
    ground
      (arith, get-set m n (without i (get_active_orders_by_market s m)) s.version s.active_lists)

-- What a deleted position reads as: the position that was committed, if there is one.
abbrev pub committed_position : State → ℕ → ℕ → Option Position
committed_position s a m = get_value_option s.positions s.version (a, m)

pub get_position-delete_position :
    (a m b n : ℕ) (s : State)
    → get_position (delete_position a m s) b n
      ≡ (if a == b && m == n then committed_position s b n else get_position s b n)
unfolding get_position delete_position update_position_index remove_from_position_index
get_position-delete_position a m b n s =
    ground (arith, get-delete (a, m) (b, n) s.version s.positions)

pub get_order-remove_active_order :
    (m i j : ℕ) (s : State) → get_order (remove_active_order m i s) j ≡ get_order s j
unfolding get_order remove_active_order
get_order-remove_active_order m i j s = refl

pub get_order-add_active_order :
    (m i j : ℕ) (s : State) → get_order (add_active_order m i s) j ≡ get_order s j
unfolding get_order add_active_order
get_order-add_active_order m i j s = ground arith

pub active-set_order :
    (i m : ℕ) (o : Order) (s : State)
    → get_active_orders_by_market (set_order i o s) m ≡ get_active_orders_by_market s m
unfolding get_active_orders_by_market set_order
active-set_order i m o s = refl
