-- ===== src/Services/Fills.antt =====
-- What `process_fills` of crates/engine/src/services/order_service.rs does to the positions.
use pranklin.Base.{
  ℕ, ◌+◌, ◌<◌, ◌≡◌, ◌∙◌, sym, ap, Bool, true, false, not, none, arith, ◌&&◌, ◌||◌, ◌==◌, ok,
}
use pranklin.Base.Int.{ℤ, ◌+ℤ◌}
use pranklin.Base.Words.{u64_mod}
use pranklin.Types.Order.{Fill}
use pranklin.Types.Market.{Market}
use pranklin.State.{
  State, get_position, set_position, delete_position, update_position_index,
  remove_from_position_index,
}
use pranklin.State.Laws.{committed_position}
use pranklin.Position.{update_position, store_position}
use pranklin.Storage.{set, delete, get_value_option}
use pranklin.Position.Exposure.{
  signed_size, exposure, size_of, update_position-exposure, update_position_frame,
}
use pranklin.Services.Parts.{Parts}
use pranklin.Services.Orders.{process_fill}

-- The two sides of a fill may trade: their sizes stay within u64 and neither position was
-- committed before this block.
pub record CanTrade (s : State) (trader market_id size : ℕ) : Type 0 where
  pub fits : size_of (get_position s trader market_id) + size < u64_mod
  pub new : committed_position s trader market_id ≡ none

-- The state after both updates of a fill.
record Filled (market : Market) (f : Fill) (s s' : State) : Type 0 where
  between : State
  taker_moved :
      update_position f.taker f.market_id f.size f.price f.taker_is_buy market.initial_margin_bps s
      ≡ (ok tt, between)
  maker_moved :
      update_position f.maker f.market_id f.size f.price
        (not f.taker_is_buy)
        market.initial_margin_bps
        between
      ≡ (ok tt, s')

process_fill-Filled :
    (market : Market) (f : Fill) (p p' : Parts)
    → process_fill market f p ≡ (ok tt, p')
    → Filled market f p.state p'.state
unfolding process_fill
process_fill-Filled market f p p' e =
    let first =
      update_position f.taker f.market_id f.size f.price f.taker_is_buy market.initial_margin_bps
        p.state in
    let second =
      update_position f.maker f.market_id f.size f.price (not f.taker_is_buy)
        market.initial_margin_bps first.1 in
    record { between = first.1; taker_moved = ground arith; maker_moved = ground arith }

-- A trade commits nothing.
update_position-committed :
    (trader market_id size price : ℕ) (is_buy : Bool) (bps b n : ℕ) (s : State)
    → committed_position (update_position trader market_id size price is_buy bps s).1 b n
      ≡ committed_position s b n
unfolding update_position store_position set_position delete_position update_position_index
    remove_from_position_index set delete get_value_option
update_position-committed trader market_id size price is_buy bps b n s = ground arith

swap_exposure :
    (a b : ℤ) (size : ℕ) (is_buy : Bool)
    → (a +ℤ signed_size size is_buy) +ℤ (b +ℤ signed_size size (not is_buy)) ≡ a +ℤ b
unfolding ◌+ℤ◌
swap_exposure a b size true = ground arith
swap_exposure a b size false = ground arith

-- A fill between two traders moves as much exposure to the one as from the other: the sum of their
-- exposures in its market is the same before and after, and no position of another trader or in
-- another market changes. Their sizes stay within u64, and neither position was committed before
-- this block.
pub process_fill-zero_sum :
    (market : Market) (f : Fill) (p p' : Parts)
    → (f.taker == f.maker) ≡ false
    → CanTrade p.state f.taker f.market_id f.size
    → CanTrade p.state f.maker f.market_id f.size
    → process_fill market f p ≡ (ok tt, p')
    → let held = λ (q : Parts) (who : ℕ). get_position q.state who f.market_id in
      (exposure (held p' f.taker) +ℤ exposure (held p' f.maker)
        ≡ exposure (held p f.taker) +ℤ exposure (held p f.maker))
      × ((b n : ℕ)
          → (f.market_id == n && (f.taker == b || f.maker == b)) ≡ false
          → get_position p'.state b n ≡ get_position p.state b n)
process_fill-zero_sum market f p p' two taker_can maker_can e =
    let r = process_fill-Filled market f p p' e in
    let bps = market.initial_margin_bps in
    let mid = r.between in
    let m = f.market_id in
    let sells = not f.taker_is_buy in
    let keeps₁ : (b n : ℕ)
        → (f.taker == b && m == n) ≡ false
        → get_position mid b n ≡ get_position p.state b n =
      λ b n off.
        ap (λ z. get_position z.1 b n) (sym r.taker_moved)
        ∙ update_position_frame f.taker m f.size f.price f.taker_is_buy bps b n p.state off in
    let keeps₂ : (b n : ℕ)
        → (f.maker == b && m == n) ≡ false
        → get_position p'.state b n ≡ get_position mid b n =
      λ b n off.
        ap (λ z. get_position z.1 b n) (sym r.maker_moved)
        ∙ update_position_frame f.maker m f.size f.price sells bps b n mid off in
    let same : get_position mid f.maker m ≡ get_position p.state f.maker m =
      keeps₁ f.maker m (ground arith) in
    let stays : get_position p'.state f.taker m ≡ get_position mid f.taker m =
      keeps₂ f.taker m (ground arith) in
    let moved₁ =
      update_position-exposure f.taker m f.size f.price f.taker_is_buy bps p.state taker_can.fits
        taker_can.new r.taker_moved in
    let new₂ : committed_position mid f.maker m ≡ none =
      ap (λ z. committed_position z.1 f.maker m) (sym r.taker_moved)
      ∙ update_position-committed f.taker m f.size f.price f.taker_is_buy bps f.maker m p.state
      ∙ maker_can.new in
    let moved₂ =
      update_position-exposure f.maker m f.size f.price sells bps mid (rw same maker_can.fits) new₂
        r.maker_moved in
    (
      rw (stays, moved₁, moved₂, same)
          (swap_exposure (exposure (get_position p.state f.taker m))
            (exposure (get_position p.state f.maker m)) f.size f.taker_is_buy),
      λ b n off. keeps₂ b n (ground arith) ∙ keeps₁ b n (ground arith),
    )
