-- ===== src/Services/Balances.antt =====
-- What the account service does to the balances.
use pranklin.Base.{
  ℕ, ◌+◌, ◌-◌, ◌<◌, ◌≤◌, ◌≡◌, ◌≢◌, ◌⊎◌, inl, inr, false, arith, ltb, ◌==◌, ◌&&◌, ◌||◌,
  if◌then◌else◌, ok, err, EngineError, overflow, insufficient_balance, unauthorized, Bool-cases,
}
use pranklin.Base.Words.{fit, u128_mod}
use pranklin.Types.Tx.{DepositTx, WithdrawTx, TransferTx, BridgeDepositTx, BridgeWithdrawTx}
use pranklin.State.{State, get_balance, set_balance, is_bridge_operator}
use pranklin.State.Laws.{get_balance-set_balance}
use pranklin.Services.Parts.{Parts}
use pranklin.Services.Account.{deposit, withdraw, transfer, bridge_deposit, bridge_withdraw}

-- The state between the two writes of a transfer.
abbrev pub debited : ℕ → TransferTx → State → State
debited from tx s = set_balance from tx.asset_id (get_balance s from tx.asset_id - tx.amount) s

record Moved (from : ℕ) (tx : TransferTx) (s s' : State) : Type 0 where
  others : from ≢ tx.to
  covered : tx.amount ≤ get_balance s from tx.asset_id
  final :
      s'
      ≡ set_balance tx.to tx.asset_id
          (get_balance (debited from tx s) tx.to tx.asset_id + tx.amount)
          (debited from tx s)

two_writes :
    (from to asset x y : ℕ) (s : State) (b j : ℕ)
    → get_balance (set_balance to asset y (set_balance from asset x s)) b j ≡ (
        if to == b && asset == j
        then y
        else if from == b && asset == j
        then x
        else get_balance s b j)
two_writes from to asset x y s b j =
    rw (get_balance-set_balance to asset y b j (set_balance from asset x s))
      (rw (get_balance-set_balance from asset x b j s))

transfer-Moved :
    (from : ℕ) (tx : TransferTx) (p : Parts)
    → (transfer from tx p).0 ≡ ok tt
    → Moved from tx p.state (transfer from tx p).1.state
unfolding transfer fit
transfer-Moved from tx p e = ground arith

-- A transfer that succeeds moves the amount from the sender to the recipient, who is another
-- account, and touches no other balance.
pub transfer_moves :
    (from : ℕ) (tx : TransferTx) (p : Parts)
    → (transfer from tx p).0 ≡ ok tt
    → let s = p.state in
      let s' = (transfer from tx p).1.state in
      (get_balance s' from tx.asset_id + tx.amount ≡ get_balance s from tx.asset_id)
      × (get_balance s' tx.to tx.asset_id ≡ get_balance s tx.to tx.asset_id + tx.amount)
      × ((b j : ℕ)
          → (j == tx.asset_id && (b == from || b == tx.to)) ≡ false
          → get_balance s' b j ≡ get_balance s b j)
transfer_moves from tx p e =
    let s = p.state in
    let m = transfer-Moved from tx p e in
    let left = get_balance s from tx.asset_id - tx.amount in
    let there = get_balance-set_balance from tx.asset_id left tx.to tx.asset_id s in
    let new = get_balance (debited from tx s) tx.to tx.asset_id + tx.amount in
    let read = two_writes from tx.to tx.asset_id left new s in
    rw m.final (
      ground (arith, m.others, m.covered, read from tx.asset_id),
      ground (arith, m.others, there, read tx.to tx.asset_id),
      λ b j off. ground (arith, read b j),
    )

-- A transfer that fails changes nothing, unless the recipient's balance would overflow: then the
-- sender has been debited, and nobody credited.
pub transfer_fails :
    (from : ℕ) (tx : TransferTx) (p : Parts) {e : EngineError}
    → (transfer from tx p).0 ≡ err e
    → ((transfer from tx p).1 ≡ p)
      ⊎ ((e ≡ overflow)
          × (u128_mod ≤ get_balance p.state tx.to tx.asset_id + tx.amount)
          × ((transfer from tx p).1 ≡ record p { state = debited from tx p.state }))
unfolding transfer fit
transfer_fails from tx p e = ground (
  arith,
  get_balance-set_balance from tx.asset_id (get_balance p.state from tx.asset_id - tx.amount) tx.to
      tx.asset_id p.state,
)

-- What a debit or a credit of one balance leaves.
abbrev pub Changes : ℕ → ℕ → ℕ → State → State → Type 0
Changes a asset new s s' =
    (b j : ℕ) → get_balance s' b j ≡ (if a == b && asset == j then new else get_balance s b j)

-- A deposit that succeeds adds its amount to one balance; it fails exactly when the sum does not
-- fit u128, and then changes nothing.
pub deposit_adds :
    (from : ℕ) (tx : DepositTx) (p : Parts)
    → let old = get_balance p.state from tx.asset_id in
      let (r, p') = deposit from tx p in
      ((old + tx.amount < u128_mod)
        × (r ≡ ok tt)
        × Changes from tx.asset_id (old + tx.amount) p.state p'.state)
      ⊎ ((u128_mod ≤ old + tx.amount) × (r ≡ err overflow) × (p' ≡ p))
unfolding deposit fit
deposit_adds from tx p =
    let old = get_balance p.state from tx.asset_id in
    elim (Bool-cases (ltb (old + tx.amount) u128_mod)) [
      | inl fits ↦ inl (
        ground arith,
        ground arith,
        λ b j.
            ground (arith, get_balance-set_balance from tx.asset_id (old + tx.amount) b j p.state),
      )
      | inr full ↦ inr (ground arith, ground arith, ground arith)
    ]

-- A withdrawal that succeeds takes its amount from one balance; it fails exactly when the balance
-- is smaller, and then changes nothing.
pub withdraw_takes :
    (from : ℕ) (tx : WithdrawTx) (p : Parts)
    → let old = get_balance p.state from tx.asset_id in
      let (r, p') = withdraw from tx p in
      ((tx.amount ≤ old)
        × (r ≡ ok tt)
        × Changes from tx.asset_id (old - tx.amount) p.state p'.state)
      ⊎ ((old < tx.amount) × (r ≡ err insufficient_balance) × (p' ≡ p))
unfolding withdraw
withdraw_takes from tx p =
    elim (Bool-cases (ltb (get_balance p.state from tx.asset_id) tx.amount)) [
      | inl short ↦ inr (ground arith, ground arith, ground arith)
      | inr enough ↦ inl (
        ground arith,
        ground arith,
        λ b j. ground (
          arith,
          get_balance-set_balance from tx.asset_id
              (get_balance p.state from tx.asset_id - tx.amount) b j p.state,
        ),
      )
    ]

-- Only a bridge operator changes anything through the bridge.
pub bridge_operator_only :
    (operator : ℕ) (d : BridgeDepositTx) (w : BridgeWithdrawTx) (p : Parts)
    → is_bridge_operator p.state operator ≡ false
    → (bridge_deposit operator d p ≡ (err unauthorized, p))
      × (bridge_withdraw operator w p ≡ (err unauthorized, p))
unfolding bridge_deposit bridge_withdraw
bridge_operator_only operator d w p h = ground arith
