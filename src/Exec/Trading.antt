-- ===== src/Exec/Trading.antt =====
-- What the operations on orders and positions keep: the nonces, the balances and the version.
use pranklin.Base.{
  ℕ, ◌≡◌, ◌∙◌, refl, List, [], ◌∷◌, arith, inl, inr, ok, Method, ◌>>=◌, ◌>>◌, Option-cases, sum_by,
  pure, ◌-◌, ◌++◌, not, Bool-cases, ◌&&◌, Result, err, ok_or, lift, market_not_found,
  position_not_found,
}
use pranklin.Types.Order.{Order, Fill, TimeInForce}
use pranklin.Types.Market.{Market}
use pranklin.Types.Position.{Position}
use pranklin.Types.Tx.{PlaceOrderTx, CancelOrderTx, ClosePositionTx, SetAgentTx, RemoveAgentTx}
use pranklin.State.{
  State, set_order, add_active_order, remove_active_order, next_order_id, get_market, get_position,
  set_position, delete_position, update_position_index, remove_from_position_index,
}
use pranklin.Base.Words.{as_u64}
use pranklin.Types.Event.{Event}
use pranklin.Risk.{check_order_allowed}
use pranklin.Position.{update_position, store_position}
use pranklin.Orderbook.Matching.{LevelRun, fill_maker, match_order, sweep, store_book}
use pranklin.Orderbook.Manager.{OrderbookManager, opposing_book, would_match}
use pranklin.Orderbook.Loops.{match_order_keeps}
use pranklin.Services.Parts.{Parts, on_state, emit}
use pranklin.Services.Orders.{
  process_fill, process_fills, match_in_book, order_of, settle_order, fill_order, closing_order,
  validate_request, rest_order, finish_order, place_order, cancel_order, close_position, set_agent,
  remove_agent,
}

-- The nonces, the balances and the version are the same.
pub record SameAccounts (s s' : State) : Type 0 where
  pub nonces : s'.nonces ≡ s.nonces
  pub balances : s'.balances ≡ s.balances
  pub version : s'.version ≡ s.version

same : (s : State) → SameAccounts s s
same s = record { nonces = refl; balances = refl; version = refl }

then_same : (s t u : State) → SameAccounts s t → SameAccounts t u → SameAccounts s u
then_same s t u h k = record {
  nonces = k.nonces ∙ h.nonces;
  balances = k.balances ∙ h.balances;
  version = k.version ∙ h.version;
}

same_parts : (p : Parts) → SameAccounts p.state p.state
same_parts p = same p.state

-- A method that keeps them, whether it succeeds or fails.
abbrev pub KeepsAccounts : {A : Type 0} → Method Parts A → Type 0
KeepsAccounts m = (p : Parts) → SameAccounts p.state (m p).1.state

continue-SameAccounts :
    {A B : Type 0} (s : State) (r : Result A) (p : Parts) (f : A → Method Parts B)
    → SameAccounts s p.state
    → ((a : A) → KeepsAccounts (f a))
    → SameAccounts s (((λ _. (r, p)) >>= f) p).1.state
continue-SameAccounts s (err x) p f h k = h
continue-SameAccounts s (ok a) p f h k = then_same s p.state (f a p).1.state h (k a p)

>>=-KeepsAccounts :
    {A B : Type 0} (m : Method Parts A) (f : A → Method Parts B)
    → KeepsAccounts m
    → ((a : A) → KeepsAccounts (f a))
    → KeepsAccounts (m >>= f)
>>=-KeepsAccounts m f h k p = continue-SameAccounts p.state (m p).0 (m p).1 f (h p) k

update_position-SameAccounts :
    (t m size price : ℕ) (is_buy : _) (bps : ℕ) (s : State)
    → SameAccounts s (update_position t m size price is_buy bps s).1
unfolding update_position store_position set_position delete_position update_position_index
    remove_from_position_index
update_position-SameAccounts t m size price is_buy bps s = record {
  nonces = ground arith;
  balances = ground arith;
  version = ground arith;
}

pub cancel_order-KeepsAccounts : (a : ℕ) (tx : CancelOrderTx) → KeepsAccounts (cancel_order a tx)
unfolding cancel_order set_order remove_active_order
cancel_order-KeepsAccounts a tx p = record {
  nonces = ground arith;
  balances = ground arith;
  version = ground arith;
}

finish_order-KeepsAccounts :
    (i : ℕ) (o : Order) (t : TimeInForce) → KeepsAccounts (finish_order i o t)
unfolding finish_order rest_order set_order add_active_order
finish_order-KeepsAccounts i o t p = record {
  nonces = ground arith;
  balances = ground arith;
  version = ground arith;
}

process_fill-KeepsAccounts : (market : Market) (f : Fill) → KeepsAccounts (process_fill market f)
unfolding process_fill
process_fill-KeepsAccounts market f p =
    let bps = market.initial_margin_bps in
    let sells = not f.taker_is_buy in
    let mid = (update_position f.taker f.market_id f.size f.price f.taker_is_buy bps p.state).1 in
    let first =
      update_position-SameAccounts f.taker f.market_id f.size f.price f.taker_is_buy bps p.state in
    let second = update_position-SameAccounts f.maker f.market_id f.size f.price sells bps mid in
    record {
      nonces = ground (arith, first.nonces, second.nonces);
      balances = ground (arith, first.balances, second.balances);
      version = ground (arith, first.version, second.version);
    }

process_fills-KeepsAccounts :
    (market : Market) (fills : List Fill) → KeepsAccounts (process_fills market fills)
unfolding process_fills
process_fills-KeepsAccounts market [] p = record {
  nonces = ground arith;
  balances = ground arith;
  version = ground arith;
}
process_fills-KeepsAccounts market (f ∷ fills) p =
    >>=-KeepsAccounts (process_fill market f) (λ _. process_fills market fills)
      (process_fill-KeepsAccounts market f) (λ _. process_fills-KeepsAccounts market fills) p

fill_maker-SameAccounts :
    (taker : Order) (price i : ℕ) (maker : Order) (r : LevelRun)
    → SameAccounts r.state (fill_maker taker price i maker r).state
unfolding fill_maker set_order remove_active_order
fill_maker-SameAccounts taker price i maker r = record {
  nonces = ground arith;
  balances = ground arith;
  version = ground arith;
}

match_order-SameAccounts :
    (o : Order) (ob : OrderbookManager) (s : State) → SameAccounts s (match_order o ob s).2
unfolding match_order
match_order-SameAccounts o ob s = elim (Bool-cases (o.post_only && would_match ob o)) [
  | inl refused ↦ rw (refused, match_order) (same s)
  | inr allowed ↦ elim (Option-cases (opposing_book ob o)) [
    | inl empty ↦ rw (allowed, match_order, empty) (same s)
    | inr (book, found) ↦
        let w = sweep o book s in
        let good : match_order o ob s ≡ (ok w.fills, store_book o w.book ob, w.state) =
          rw (allowed, match_order, found) refl in
        rw (allowed, match_order, found)
          (match_order_keeps o (λ _ _ t. SameAccounts s t)
            (λ price i maker r _ _ _ h.
              then_same s r.state (fill_maker o price i maker r).state h
                (fill_maker-SameAccounts o price i maker r))
            ob (store_book o w.book ob) s (same s) good).1
  ]
]

match_in_book-KeepsAccounts : (o : Order) → KeepsAccounts (match_in_book o)
unfolding match_in_book
match_in_book-KeepsAccounts o p = match_order-SameAccounts o p.orderbook p.state

settle_order-KeepsAccounts :
    (trader : ℕ) (tx : PlaceOrderTx) (market : Market) (o : Order) (fills : List Fill)
    → KeepsAccounts (settle_order trader tx market o fills)
unfolding settle_order
settle_order-KeepsAccounts trader tx market o fills =
    let placed =
      Event.order_placed o.id trader tx.market_id tx.is_buy tx.price tx.size tx.order_type in
    let o' = record o { remaining_size = o.remaining_size - as_u64 (sum_by (λ f. f.size) fills) } in
    >>=-KeepsAccounts (process_fills market fills)
      (λ _. (emit placed >> finish_order o.id o' tx.time_in_force))
      (process_fills-KeepsAccounts market fills)
      (λ _ p.
        finish_order-KeepsAccounts o.id o' tx.time_in_force
          (record p { events = p.events ++ placed ∷ [] }))

fill_order-KeepsAccounts :
    (trader : ℕ) (tx : PlaceOrderTx) (market : Market) (order_id : ℕ)
    → KeepsAccounts (fill_order trader tx market order_id)
unfolding fill_order
fill_order-KeepsAccounts trader tx market order_id p =
    let o = order_of order_id trader p.state.version tx in
    >>=-KeepsAccounts (match_in_book o)
      (λ fills. settle_order trader tx market o fills >> pure order_id)
      (match_in_book-KeepsAccounts o)
      (λ fills.
        >>=-KeepsAccounts (settle_order trader tx market o fills) (λ _. pure order_id)
          (settle_order-KeepsAccounts trader tx market o fills) (λ _. same_parts))
      p

next_order_id-KeepsAccounts : KeepsAccounts (on_state next_order_id)
unfolding next_order_id
next_order_id-KeepsAccounts p = record {
  nonces = ground arith;
  balances = ground arith;
  version = ground arith;
}

pub place_order-KeepsAccounts :
    (trader : ℕ) (tx : PlaceOrderTx) → KeepsAccounts (place_order trader tx)
unfolding place_order
place_order-KeepsAccounts trader tx p =
    let numbered = λ (market : Market).
      on_state next_order_id >>= λ (order_id : ℕ). fill_order trader tx market order_id in
    let checked = λ (market : Market).
      (λ (q : Parts). (check_order_allowed q.state trader tx, q)) >> numbered market in
    let valid = λ (market : Market). lift (validate_request market tx) >> checked market in
    >>=-KeepsAccounts (lift (ok_or (get_market p.state tx.market_id) market_not_found)) valid
      same_parts
      (λ market.
        >>=-KeepsAccounts (lift (validate_request market tx)) (λ _. checked market) same_parts
          (λ _.
            >>=-KeepsAccounts (λ q. (check_order_allowed q.state trader tx, q))
              (λ _. numbered market) same_parts
              (λ _.
                >>=-KeepsAccounts (on_state next_order_id)
                  (λ order_id. fill_order trader tx market order_id) next_order_id-KeepsAccounts
                  (λ order_id. fill_order-KeepsAccounts trader tx market order_id))))
      p

pub close_position-KeepsAccounts :
    (trader : ℕ) (tx : ClosePositionTx) → KeepsAccounts (close_position trader tx)
unfolding close_position
close_position-KeepsAccounts trader tx p =
    let close = λ (position : Position). place_order trader (closing_order position tx) in
    >>=-KeepsAccounts (lift (ok_or (get_position p.state trader tx.market_id) position_not_found))
      (λ position. close position >> pure tt) same_parts
      (λ position.
        >>=-KeepsAccounts (close position) (λ _. pure tt)
          (place_order-KeepsAccounts trader (closing_order position tx)) (λ _. same_parts))
      p

pub set_agent-KeepsAccounts : (account : ℕ) (tx : SetAgentTx) → KeepsAccounts (set_agent account tx)
unfolding set_agent
set_agent-KeepsAccounts account tx p = record {
  nonces = ground arith;
  balances = ground arith;
  version = ground arith;
}

pub remove_agent-KeepsAccounts :
    (account : ℕ) (tx : RemoveAgentTx) → KeepsAccounts (remove_agent account tx)
unfolding remove_agent
remove_agent-KeepsAccounts account tx p = record {
  nonces = ground arith;
  balances = ground arith;
  version = ground arith;
}
