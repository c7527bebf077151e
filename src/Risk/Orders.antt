-- ===== src/Risk/Orders.antt =====
-- What the checks of crates/engine/src/risk.rs promise of an order that they accept.
use pranklin.Base.{ℕ, ◌*◌, ◌/◌, ◌<◌, ◌≤◌, ◌≡◌, ◌≢◌, true, false, none, some, arith, ok}
use pranklin.Base.Words.{fit, u32_mod}
use pranklin.Types.Position.{Position}
use pranklin.Types.Market.{Market}
use pranklin.Types.Tx.{PlaceOrderTx}
use pranklin.State.{State, get_balance, get_position, get_market}
use pranklin.Position.{basis_points, same_side}
use pranklin.Risk.{existing_margin, check_leverage, check_reduce_only, check_order_allowed}

-- The initial margin that the value of an order asks for.
abbrev pub order_margin : Market → PlaceOrderTx → ℕ
order_margin market order = order.size * order.price * market.initial_margin_bps / basis_points

-- An order that is accepted asks for no more margin than the trader's balance; unless it is
-- reduce-only or has no price, its value is at most the greatest leverage times that margin, which
-- is not 0 (the greatest leverage is a u32).
pub check_order_allowed-margin :
    (s : State) (trader : ℕ) (order : PlaceOrderTx) (market : Market)
    → get_market s order.market_id ≡ some market
    → market.max_leverage < u32_mod
    → check_order_allowed s trader order ≡ ok tt
    → (order_margin market order ≤ get_balance s trader market.quote_asset_id)
      × (order.reduce_only ≡ false
          → 0 < order.price
          → (0 < order_margin market order)
            × (order.size * order.price / order_margin market order ≤ market.max_leverage))
unfolding check_order_allowed fit check_leverage
check_order_allowed-margin s trader order market known small e =
    (ground arith, λ opens priced. ground arith)

-- A reduce-only order that is accepted is against a position of the trader in its market, on the
-- other side and at least as large.
pub check_order_allowed-reduce_only :
    (s : State) (trader : ℕ) (order : PlaceOrderTx) (p : Position)
    → order.reduce_only ≡ true
    → check_order_allowed s trader order ≡ ok tt
    → (get_position s trader order.market_id ≢ none)
      × (get_position s trader order.market_id ≡ some p
          → (same_side order.is_buy p.is_long ≡ false) × (order.size ≤ p.size))
unfolding check_order_allowed fit check_leverage check_reduce_only
check_order_allowed-reduce_only s trader order p reduce e =
    (λ gone. ground arith, λ held. (ground arith, ground arith))

-- An order without a price that is not reduce-only is accepted in every known market, whatever
-- the balance of the trader, if he has no position there.
pub check_order_allowed-market_order :
    (s : State) (trader : ℕ) (order : PlaceOrderTx) (market : Market)
    → get_market s order.market_id ≡ some market
    → get_position s trader order.market_id ≡ none
    → order.price ≡ 0
    → order.reduce_only ≡ false
    → check_order_allowed s trader order ≡ ok tt
unfolding check_order_allowed fit check_leverage check_reduce_only existing_margin
check_order_allowed-market_order s trader order market known flat priceless opens = ground arith
