-- ===== src/Signing/Payloads.antt =====
-- The payload that the values given to the encoder, and the string of their type, are those of.
use Prim.Native.String.{String}
use text.Mathlib.Text.{◌==◌ as str_eq}
use pranklin.Base.{
  ℕ, zero, suc, ◌≡◌, ◌∙◌, inl, inr, refl, ap, sym, Bool, true, false, List, [], ◌∷◌, ◌==◌,
  Bool-cases, if◌then◌else◌,
}
use pranklin.Types.Order.{OrderType, TimeInForce}
use pranklin.Types.Transaction.{TxPayload}
use pranklin.Signing.Defs.{
  Primitives, PrimitiveLaws, Eip712Value, eip712_type, added_values, order_type_code,
  time_in_force_code,
}
use pranklin.Signing.Bytes.{Separates}

-- The number of the type of a payload, 5 being that of all payloads without one of their own.
unfoldable pub kind : TxPayload → ℕ
kind (TxPayload.deposit d) = 0
kind (TxPayload.withdraw w) = 1
kind (TxPayload.place_order o) = 2
kind (TxPayload.cancel_order c) = 3
kind (TxPayload.transfer t) = 4
kind _ = 5

kind_of_type : String → ℕ
kind_of_type s =
    if str_eq s "Deposit(uint64 nonce,address from,uint128 amount,uint32 assetId)"
    then 0
    else if str_eq s "Withdraw(uint64 nonce,address from,uint128 amount,uint32 assetId,address to)"
    then 1
    else if str_eq s
        "PlaceOrder(uint64 nonce,address from,uint32 marketId,bool isBuy,uint8 orderType,uint64 price,uint64 size,uint8 timeInForce,bool reduceOnly,bool postOnly)"
    then 2
    else if str_eq s "CancelOrder(uint64 nonce,address from,uint64 orderId)"
    then 3
    else if str_eq s "Transfer(uint64 nonce,address from,address to,uint128 amount,uint32 assetId)"
    then 4
    else 5

kind_of_type-eip712_type : (payload : TxPayload) → kind_of_type (eip712_type payload) ≡ kind payload
unfolding eip712_type kind kind_of_type
kind_of_type-eip712_type (TxPayload.deposit d) = refl
kind_of_type-eip712_type (TxPayload.withdraw w) = refl
kind_of_type-eip712_type (TxPayload.place_order o) = refl
kind_of_type-eip712_type (TxPayload.cancel_order c) = refl
kind_of_type-eip712_type (TxPayload.modify_order m) = refl
kind_of_type-eip712_type (TxPayload.close_position c) = refl
kind_of_type-eip712_type (TxPayload.set_agent a) = refl
kind_of_type-eip712_type (TxPayload.remove_agent a) = refl
kind_of_type-eip712_type (TxPayload.transfer t) = refl
kind_of_type-eip712_type (TxPayload.bridge_deposit b) = refl
kind_of_type-eip712_type (TxPayload.bridge_withdraw b) = refl

-- The strings tell the types apart.
pub kind-eip712_type : (x y : TxPayload) → eip712_type x ≡ eip712_type y → kind x ≡ kind y
kind-eip712_type x y e =
    sym (kind_of_type-eip712_type x) ∙ ap kind_of_type e ∙ kind_of_type-eip712_type y

-- The payload of a kind with these values.
pub order_type_of : ℕ → OrderType
order_type_of n =
    if n == 0
    then OrderType.market
    else if n == 1
    then OrderType.limit
    else if n == 2
    then OrderType.stop_market
    else if n == 3
    then OrderType.stop_limit
    else if n == 4
    then OrderType.take_profit_market
    else OrderType.take_profit_limit

pub time_in_force_of : ℕ → TimeInForce
time_in_force_of n =
    if n == 0
    then TimeInForce.gtc
    else if n == 1
    then TimeInForce.ioc
    else if n == 2
    then TimeInForce.fok
    else TimeInForce.post_only

pub order_type_of-code : (t : OrderType) → order_type_of (order_type_code t) ≡ t
unfolding order_type_of
order_type_of-code OrderType.market = refl
order_type_of-code OrderType.limit = refl
order_type_of-code OrderType.stop_market = refl
order_type_of-code OrderType.stop_limit = refl
order_type_of-code OrderType.take_profit_market = refl
order_type_of-code OrderType.take_profit_limit = refl

pub time_in_force_of-code : (t : TimeInForce) → time_in_force_of (time_in_force_code t) ≡ t
unfolding time_in_force_of
time_in_force_of-code TimeInForce.gtc = refl
time_in_force_of-code TimeInForce.ioc = refl
time_in_force_of-code TimeInForce.fok = refl
time_in_force_of-code TimeInForce.post_only = refl

nat_of : Eip712Value → ℕ
nat_of (Eip712Value.uint n) = n
nat_of (Eip712Value.address a) = a
nat_of _ = 0

bool_of : Eip712Value → Bool
bool_of (Eip712Value.flag b) = b
bool_of _ = false

at : ℕ → List Eip712Value → Eip712Value
at i [] = Eip712Value.digest []
at zero (v ∷ vs) = v
at (suc i) (v ∷ vs) = at i vs

-- The payload of a kind, of those with a type of their own, from its values.
read_values : ℕ → List Eip712Value → TxPayload
read_values k vs =
    let number = λ (i : ℕ). nat_of (at i vs) in
    let test = λ (i : ℕ). bool_of (at i vs) in
    if k == 0
    then TxPayload.deposit (record { amount = number 0; asset_id = number 1 })
    else if k == 1
    then TxPayload.withdraw (record { amount = number 0; asset_id = number 1; to = number 2 })
    else if k == 2
    then TxPayload.place_order (record {
      market_id = number 0;
      is_buy = test 1;
      order_type = order_type_of (number 2);
      price = number 3;
      size = number 4;
      time_in_force = time_in_force_of (number 5);
      reduce_only = test 6;
      post_only = test 7;
    })
    else if k == 3
    then TxPayload.cancel_order (record { order_id = number 0 })
    else TxPayload.transfer (record { to = number 0; amount = number 1; asset_id = number 2 })

module _ (p : Primitives) where
  read_values-added_values :
      (x : TxPayload) → (kind x == 5) ≡ false → read_values (kind x) (added_values p x) ≡ x
  unfolding kind read_values added_values at nat_of bool_of
  read_values-added_values (TxPayload.deposit d) own = refl
  read_values-added_values (TxPayload.withdraw w) own = refl
  read_values-added_values (TxPayload.place_order o) own =
      rw (order_type_of-code o.order_type, time_in_force_of-code o.time_in_force) refl
  read_values-added_values (TxPayload.cancel_order c) own = refl
  read_values-added_values (TxPayload.modify_order m) own = cc
  read_values-added_values (TxPayload.close_position c) own = cc
  read_values-added_values (TxPayload.set_agent a) own = cc
  read_values-added_values (TxPayload.remove_agent a) own = cc
  read_values-added_values (TxPayload.transfer t) own = refl
  read_values-added_values (TxPayload.bridge_deposit b) own = cc
  read_values-added_values (TxPayload.bridge_withdraw b) own = cc

  added_values-generic :
      (x : TxPayload)
      → (kind x == 5) ≡ true
      → added_values p x ≡ Eip712Value.digest (p.keccak256 (p.borsh_payload x)) ∷ []
  unfolding kind added_values
  added_values-generic (TxPayload.deposit d) generic = cc
  added_values-generic (TxPayload.withdraw w) generic = cc
  added_values-generic (TxPayload.place_order o) generic = cc
  added_values-generic (TxPayload.cancel_order c) generic = cc
  added_values-generic (TxPayload.modify_order m) generic = refl
  added_values-generic (TxPayload.close_position c) generic = refl
  added_values-generic (TxPayload.set_agent a) generic = refl
  added_values-generic (TxPayload.remove_agent a) generic = refl
  added_values-generic (TxPayload.transfer t) generic = cc
  added_values-generic (TxPayload.bridge_deposit b) generic = refl
  added_values-generic (TxPayload.bridge_withdraw b) generic = refl

  -- Payloads of one kind with the same values are the same.
  pub added_values_inj :
      PrimitiveLaws p
      → (x y : TxPayload) → kind x ≡ kind y
      → Separates p.keccak256 (p.borsh_payload x) (p.borsh_payload y)
      → added_values p x ≡ added_values p y
      → x ≡ y
  added_values_inj laws x y kinds separated values = elim (Bool-cases (kind x == 5)) [
    | inr own ↦
        let its_own : (kind y == 5) ≡ false = sym (ap (λ k. k == 5) kinds) ∙ own in
        sym (read_values-added_values x own)
        ∙ (ap (λ k. read_values k (added_values p x)) kinds ∙ ap (read_values (kind y)) values)
        ∙ read_values-added_values y its_own
    | inl generic ↦
        let its_own : (kind y == 5) ≡ true = sym (ap (λ k. k == 5) kinds) ∙ generic in
        let digests =
          sym (added_values-generic x generic) ∙ values ∙ added_values-generic y its_own in
        let same : p.keccak256 (p.borsh_payload x) ≡ p.keccak256 (p.borsh_payload y) = cc in
        laws.borsh_payload_inj x y (separated same)
  ]
