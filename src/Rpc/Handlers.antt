-- ===== src/Rpc/Handlers.antt =====
-- The handlers of crates/rpc/src/handlers.rs, on the components that they share with the executor. The
-- decoding of hexadecimal digits, what the signature library recovers, and the hash of a transaction
-- are parameters.
use Prim.Native.Char.{code}
use Prim.Native.String.{String}
use pranklin.Base.{ℕ, ◌&&◌, Bool, Option, none, some, List, [], ◌∷◌, ◌==◌, if◌then◌else◌}
use pranklin.Types.Transaction.{Transaction, TxPayload}
use pranklin.State.{
  get_balance, get_nonce, get_position, get_order, get_market, get_funding_rate, get_asset,
  list_all_assets, is_bridge_operator, State,
}
use pranklin.Mempool.Defs.{added, refused, add}
use pranklin.Mempool.Queries.{get_tx}
use pranklin.Signing.{Primitives, decode, decoded, undecoded}
use pranklin.Exec.Defs.{Node, done, failed, verify_transaction, register_agent, unregister_agent}
use pranklin.Rpc.Types.{
  invalid_hex, invalid_payload, invalid_transaction, RpcResult, answer, refusal, invalid_request,
  auth_error, mempool_error, TxStatus, pending, status_not_found, PositionInfo, from_position,
  OrderInfo, order_info, MarketInfo, market_info, FundingRateInfo, funding_rate_info, AssetInfo,
  asset_info,
}

-- `trim_start_matches("0x")`: every prefix of it goes.
unfoldable pub trim_0x : String → String
trim_0x String.[] = String.[]
trim_0x (String.◌∷◌ c String.[]) = String.◌∷◌ c String.[]
trim_0x (String.◌∷◌ c (String.◌∷◌ d rest)) =
    let trimmed = trim_0x rest in
    if code c == 48 && code d == 120 then trimmed else String.◌∷◌ c (String.◌∷◌ d rest)

-- `Option::map`
abbrev pub map_option : {A B : Type 0} → (A → B) → Option A → Option B
map_option f none = none
map_option f (some a) = some (f a)

-- Queries, which read and change nothing.
unfoldable pub query_status : ℕ → Node → TxStatus
query_status tx_hash node = elim (get_tx node.mempool tx_hash) [
  | none ↦ status_not_found tx_hash
  | some tx ↦ pending tx_hash
]

unfoldable pub query_balance : ℕ → ℕ → Node → ℕ
query_balance address asset_id node = get_balance node.parts.state address asset_id

unfoldable pub query_nonce : ℕ → Node → ℕ
query_nonce address node = get_nonce node.parts.state address

unfoldable pub query_position : ℕ → ℕ → Node → Option PositionInfo
query_position address market_id node =
    map_option (λ p. from_position p market_id) (get_position node.parts.state address market_id)

unfoldable pub query_positions : ℕ → Node → List PositionInfo
query_positions address node = []

unfoldable pub query_order : ℕ → Node → Option OrderInfo
query_order order_id node = map_option order_info (get_order node.parts.state order_id)

unfoldable pub list_orders : ℕ → Option ℕ → Node → List OrderInfo
list_orders address market_id node = []

unfoldable pub query_market : ℕ → Node → Option MarketInfo
query_market market_id node = map_option market_info (get_market node.parts.state market_id)

unfoldable pub query_funding_rate : ℕ → Node → FundingRateInfo
query_funding_rate market_id node = funding_rate_info (get_funding_rate node.parts.state market_id)

unfoldable pub list_agents : ℕ → Node → List (ℕ × ℕ)
list_agents address node = []

unfoldable pub query_asset : ℕ → Node → Option AssetInfo
query_asset asset_id node = map_option asset_info (get_asset node.parts.state asset_id)

-- `filter_map` over the listed identifiers.
abbrev pub known_assets : State → List ℕ → List AssetInfo
known_assets s [] = []
known_assets s (id ∷ ids) =
    let rest = known_assets s ids in
    elim (get_asset s id) [ none ↦ rest | some asset ↦ asset_info asset ∷ rest ]

unfoldable pub list_assets : Node → List AssetInfo
list_assets node = known_assets node.parts.state (list_all_assets node.parts.state)

unfoldable pub check_bridge_operator : ℕ → Node → Bool
check_bridge_operator address node = is_bridge_operator node.parts.state address

module _ (p : Primitives) (decode_hex : String → Option (List ℕ))
    (recover_signer : Transaction → Option ℕ) (hash : Transaction → ℕ) where
  unfoldable pub decode_and_verify_tx : String → RpcResult Transaction
  unfolding trim_0x
  decode_and_verify_tx hex = elim (decode_hex (trim_0x hex)) [
    | none ↦ refusal (invalid_request invalid_hex)
    | some bytes ↦ elim (decode p bytes) [
      | undecoded e ↦ refusal (invalid_request (invalid_transaction e))
      | decoded tx ↦ elim (verify_transaction recover_signer hash tx) [
        | failed e ↦ refusal auth_error
        | done ↦ answer tx
      ]
    ]
  ]

  unfoldable pub submit_transaction : String → Node → RpcResult ℕ × Node
  unfolding decode_and_verify_tx
  submit_transaction hex node = elim (decode_and_verify_tx hex) [
    | refusal e ↦ (refusal e, node)
    | answer tx ↦
        let (r, pool) = add hash tx node.mempool in
        elim r [
          | refused e ↦ (refusal (mempool_error e), record node { mempool = pool })
          | added tx_hash ↦ (answer (hash tx), record node { mempool = pool })
        ]
  ]

  -- Of a transaction that was verified.
  abbrev pub set_agent_of : Transaction → TxPayload → Node → RpcResult (Unit {0}) × Node
  set_agent_of tx (TxPayload.set_agent a) node =
      (answer tt, record node { agents = register_agent tx.from a.agent a.permissions node.agents })
  set_agent_of tx _ node = (refusal (invalid_request invalid_payload), node)

  unfoldable pub request_set_agent : String → Node → RpcResult (Unit {0}) × Node
  unfolding decode_and_verify_tx
  request_set_agent hex node = elim (decode_and_verify_tx hex) [
    | refusal e ↦ (refusal e, node)
    | answer tx ↦ set_agent_of tx tx.payload node
  ]

  abbrev pub remove_agent_of : Transaction → TxPayload → Node → RpcResult (Unit {0}) × Node
  remove_agent_of tx (TxPayload.remove_agent a) node =
      (answer tt, record node { agents = unregister_agent tx.from a.agent node.agents })
  remove_agent_of tx _ node = (refusal (invalid_request invalid_payload), node)

  unfoldable pub request_remove_agent : String → Node → RpcResult (Unit {0}) × Node
  unfolding decode_and_verify_tx
  request_remove_agent hex node = elim (decode_and_verify_tx hex) [
    | refusal e ↦ (refusal e, node)
    | answer tx ↦ remove_agent_of tx tx.payload node
  ]
