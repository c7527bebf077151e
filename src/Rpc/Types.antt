-- ===== src/Rpc/Types.antt =====
-- The answers of the RPC server: crates/rpc/src/types.rs, and the statuses of its errors in
-- crates/rpc/src/error.rs.
use Prim.Native.String.{String}
use pranklin.Base.{ℕ, Bool, true, Option, none, some}
use pranklin.Base.Int.{ℤ}
use pranklin.Types.Order.{Order}
use pranklin.Types.Position.{Position}
use pranklin.Types.Market.{Market, FundingRate, Asset}
use pranklin.Mempool.Defs.{MempoolError}
use pranklin.Signing.{DecodeError}

-- Why a request is invalid: its message, with what it quotes.
pub data InvalidRequest : Type 0 where
  invalid_hex invalid_payload : InvalidRequest
  invalid_transaction : DecodeError → InvalidRequest

pub data RpcError : Type 0 where
  invalid_request : InvalidRequest → RpcError
  mempool_error : MempoolError → RpcError
  state_error engine_error server_error internal : String → RpcError
  auth_error not_found : RpcError

pub data RpcResult (A : Type 0) : Type 0 where
  answer : A → RpcResult A
  refusal : RpcError → RpcResult A

-- The HTTP status of an error.
unfoldable pub status_code : RpcError → ℕ
status_code (invalid_request why) = 400
status_code (mempool_error why) = 400
status_code auth_error = 401
status_code not_found = 404
status_code (state_error why) = 500
status_code (engine_error why) = 500
status_code (server_error why) = 500
status_code (internal why) = 500

pub record TxStatus : Type 0 where
  pub tx_hash : ℕ
  pub status : String
  pub block_height : Option ℕ
  pub error : Option String

unfoldable pub pending : ℕ → TxStatus
pending tx_hash = record {
  tx_hash = tx_hash;
  status = "pending";
  block_height = none;
  error = none;
}

unfoldable pub status_not_found : ℕ → TxStatus
status_not_found tx_hash = record {
  tx_hash = tx_hash;
  status = "not_found";
  block_height = none;
  error = some "Transaction not found";
}

unfoldable pub confirmed : ℕ → ℕ → TxStatus
confirmed tx_hash block_height = record {
  tx_hash = tx_hash;
  status = "confirmed";
  block_height = some block_height;
  error = none;
}

unfoldable pub failed_status : ℕ → String → TxStatus
failed_status tx_hash error = record {
  tx_hash = tx_hash;
  status = "failed";
  block_height = none;
  error = some error;
}

pub record PositionInfo : Type 0 where
  pub market_id : ℕ
  pub size : ℕ
  pub entry_price : ℕ
  pub is_long : Bool
  pub margin : ℕ
  pub unrealized_pnl : ℕ
  pub is_profit : Bool

unfoldable pub from_position : Position → ℕ → PositionInfo
from_position position market_id = record {
  market_id = market_id;
  size = position.size;
  entry_price = position.entry_price;
  is_long = position.is_long;
  margin = position.margin;
  unrealized_pnl = 0;
  is_profit = true;
}

pub record OrderInfo : Type 0 where
  pub id : ℕ
  pub market_id : ℕ
  pub owner : ℕ
  pub is_buy : Bool
  pub price : ℕ
  pub original_size : ℕ
  pub remaining_size : ℕ
  pub created_at : ℕ

unfoldable pub order_info : Order → OrderInfo
order_info order = record {
  id = order.id;
  market_id = order.market_id;
  owner = order.owner;
  is_buy = order.is_buy;
  price = order.price;
  original_size = order.original_size;
  remaining_size = order.remaining_size;
  created_at = order.created_at;
}

pub record MarketInfo : Type 0 where
  pub id : ℕ
  pub symbol : String
  pub base_asset_id : ℕ
  pub quote_asset_id : ℕ
  pub price_decimals : ℕ
  pub size_decimals : ℕ
  pub min_order_size : ℕ
  pub max_leverage : ℕ

unfoldable pub market_info : Market → MarketInfo
market_info market = record {
  id = market.id;
  symbol = market.symbol;
  base_asset_id = market.base_asset_id;
  quote_asset_id = market.quote_asset_id;
  price_decimals = market.price_decimals;
  size_decimals = market.size_decimals;
  min_order_size = market.min_order_size;
  max_leverage = market.max_leverage;
}

pub record FundingRateInfo : Type 0 where
  pub rate : ℤ
  pub last_update : ℕ
  pub index : ℤ
  pub mark_price : ℕ
  pub oracle_price : ℕ

unfoldable pub funding_rate_info : FundingRate → FundingRateInfo
funding_rate_info funding = record {
  rate = funding.rate;
  last_update = funding.last_update;
  index = funding.index;
  mark_price = funding.mark_price;
  oracle_price = funding.oracle_price;
}

pub record AssetInfo : Type 0 where
  pub id : ℕ
  pub symbol : String
  pub name : String
  pub decimals : ℕ
  pub is_collateral : Bool
  pub collateral_weight_bps : ℕ

unfoldable pub asset_info : Asset → AssetInfo
asset_info asset = record {
  id = asset.id;
  symbol = asset.symbol;
  name = asset.name;
  decimals = asset.decimals;
  is_collateral = asset.is_collateral;
  collateral_weight_bps = asset.collateral_weight_bps;
}
