-- ===== src/Exec/Server.antt =====
-- `PranklinExecutorService` of crates/exec/src/server.rs: the requests of the sequencer. The encoding
-- of a transaction, a list of bytes, and its decoding are parameters, as is the order in which the
-- mempool gives its senders.

use Prim.Native.String.{String}
use pranklin.Base.{
  ℕ, ◌+◌, ◌<◌, true, Option, none, some, List, [], ◌∷◌, ltb, ◌==◌, if◌then◌else◌, length, map,
}
use pranklin.Base.Words.{add_u64, u64_mod}
use pranklin.Types.Market.{Asset}
use pranklin.Types.Transaction.{Transaction}
use pranklin.State.{State, begin_block, commit_all, set_asset, set_bridge_operator}
use pranklin.Mempool.Defs.{Mempool}
use pranklin.Mempool.Queries.{ready_txs}
use pranklin.Exec.Defs.{Node, execute_batch}

abbrev pub default_assets : List Asset
default_assets =
    record {
      id = 0;
      symbol = "USDC";
      name = "USD Coin";
      decimals = 6;
      is_collateral = true;
      collateral_weight_bps = 10000;
    }
    ∷ record {
      id = 1;
      symbol = "USDT";
      name = "Tether USD";
      decimals = 6;
      is_collateral = true;
      collateral_weight_bps = 9800;
    }
    ∷ record {
      id = 2;
      symbol = "DAI";
      name = "Dai Stablecoin";
      decimals = 18;
      is_collateral = true;
      collateral_weight_bps = 9500;
    }
    ∷ []

abbrev pub set_assets : List Asset → State → State
set_assets [] s = s
set_assets (a ∷ assets) s = set_assets assets (set_asset a.id a s)

unfoldable pub initialize_assets : State → State
initialize_assets s = set_assets default_assets s

unfoldable pub initialize_bridge_operators : List ℕ → State → State
initialize_bridge_operators [] s = s
initialize_bridge_operators (op ∷ operators) s =
    initialize_bridge_operators operators (set_bridge_operator op true s)

abbrev pub on_state : (State → State) → Node → Node
on_state f node = record node { parts = record node.parts { state = f node.parts.state } }

-- The genesis block; `none` is the refusal of an empty chain identifier.
unfoldable pub validate_init_chain : String → ℕ → Option ℕ
validate_init_chain String.[] initial_height = none
validate_init_chain chain_id initial_height =
    some (if initial_height == 0 then 1 else initial_height)

unfoldable pub init_chain : String → ℕ → Node → Option Node
init_chain chain_id initial_height node = elim (validate_init_chain chain_id initial_height) [
  | none ↦ none
  | some height ↦ some (on_state (λ s. commit_all (begin_block height s)) node)
]

-- The `scan` over the encoded transactions, which stops at the first one that does not fit; the sum
-- is one of u64 in a release build.
unfoldable pub within_bytes : ℕ → ℕ → List (List ℕ) → List (List ℕ)
within_bytes max_bytes total [] = []
within_bytes max_bytes total (bytes ∷ rest) =
    let sum = add_u64 total (length bytes) in
    let later = within_bytes max_bytes sum rest in if ltb max_bytes sum then [] else bytes ∷ later

abbrev pub max_txs_per_block : ℕ
max_txs_per_block = 1000

module _ (encode : Transaction → List ℕ) where
  unfoldable pub fetch_txs_from_mempool : List ℕ → ℕ → Mempool → List (List ℕ)
  fetch_txs_from_mempool senders max_bytes pool =
      within_bytes max_bytes 0 (map encode (ready_txs senders max_txs_per_block pool))

module _ (recover_signer : Transaction → Option ℕ) (hash : Transaction → ℕ)
    (decode : List ℕ → Option Transaction) where
  -- A block: its transactions, whether they succeed or fail, and the commit.
  unfoldable pub execute_txs : ℕ → List (List ℕ) → Node → ℕ × ℕ × Node
  execute_txs block_height txs node =
      let (successful, failed, node') =
        execute_batch recover_signer hash (map decode txs)
          (on_state (begin_block block_height) node) in
      (successful, failed, on_state commit_all node')

abbrev pub Fitting : ℕ → List ℕ → Type 0
Fitting max_bytes bytes = max_bytes + length bytes < u64_mod
