-- ===== src/Exec/ReadOnly.antt =====
-- `ReadOnlyExecutor` of crates/exec/src/readonly_executor.rs. What the leader answers is a parameter:
-- its height, and the transactions of a range of blocks with their heights, or no answer. The loop
-- over the blocks takes fuel.
use pranklin.Base.{
  ℕ, zero, suc, min, leb, Bool, true, Option, none, some, List, [], ◌∷◌, if◌then◌else◌,
}
use pranklin.Base.Words.{add_u64, sub_u64}
use pranklin.Types.Transaction.{Transaction}
use pranklin.Types.Position.{Position}
use pranklin.Types.Order.{Order}
use pranklin.State.{State, get_balance, get_position, get_order}
use pranklin.Engine.Defs.{Engine, engine_of, begin_tx, take_domain_events}
use pranklin.Exec.Defs.{Node, TxResult, TxExecutionError, done, failed, execute_tx_payload_readonly}

pub data ReadOnlyError : Type 0 where
  network_error : ReadOnlyError
  execution_error : TxExecutionError → ReadOnlyError

pub record ReadOnlyExecutor : Type 0 where
  pub engine : Engine
  pub block_height : ℕ

unfoldable pub read_only_executor : State → ReadOnlyExecutor
read_only_executor s = record { engine = engine_of s; block_height = 0 }

pub record SyncResult : Type 0 where
  pub synced_blocks : ℕ
  pub new_height : ℕ
  pub is_synced : Bool

-- The payload runs on the parts of the engine; it touches no agents and no mempool.
abbrev pub node_of : Engine → Node
node_of e = record {
  parts = e.parts;
  agents = λ _ _. none;
  mempool = record {
    index = record { txs = []; by_sender = λ _. none };
    config = record { max_size = 0; max_txs_per_sender = 0; strict_nonce_ordering = true };
  };
}

unfoldable pub execute_transaction : Transaction → Engine → TxResult × Engine
execute_transaction tx e =
    let (r, node) = execute_tx_payload_readonly tx (node_of e) in
    (r, record e { parts = node.parts })

-- What the loop ends with: the blocks that it synced, or an error.
pub data SyncEnd : Type 0 where
  synced : ℕ → SyncEnd
  stopped : ReadOnlyError → SyncEnd

pub data SyncOutcome : Type 0 where
  sync_ok : SyncResult → SyncOutcome
  sync_failed : ReadOnlyError → SyncOutcome

abbrev pub or_failure : Option TxExecutionError → Option SyncEnd
or_failure none = none
or_failure (some why) = some (stopped (execution_error why))

-- The last block of a batch; the sum and the difference are those of u64 in a release build.
abbrev pub batch_end : ℕ → ℕ → ℕ → ℕ
batch_end batch_size leader_height current =
    min (sub_u64 (add_u64 current batch_size) 1) leader_height

abbrev pub blocks_of : ℕ → ℕ → ℕ
blocks_of current end = add_u64 (sub_u64 end current) 1

-- The height is written only when all blocks were replayed; the engine keeps what was replayed.
abbrev pub conclude : ℕ → ReadOnlyExecutor → SyncEnd × Engine → SyncOutcome × ReadOnlyExecutor
conclude leader_height x (stopped why, e) = (sync_failed why, record x { engine = e })
conclude leader_height x (synced n, e) = (
  sync_ok (record { synced_blocks = n; new_height = leader_height; is_synced = true }),
  record { engine = e; block_height = leader_height },
)

module _ (hash : Transaction → ℕ) where
  -- The transactions of a batch; the first error stops the batch, with what was done before it.
  unfoldable pub replay : List (ℕ × Transaction) → Engine → Option TxExecutionError × Engine
  replay [] e = (none, e)
  replay ((height, tx) ∷ txs) e =
      let (r, e') = execute_transaction tx (begin_tx (hash tx) height 0 e) in
      let rest = replay txs (take_domain_events e').1 in
      elim r [ failed why ↦ (some why, e') | done ↦ rest ]

  module _ (fetch_transactions : ℕ → ℕ → Option (List (ℕ × Transaction))) where
    -- One batch, from `current` to `end`: the error that it stops with, if any.
    unfoldable pub sync_batch : ℕ → ℕ → Engine → Option SyncEnd × Engine
    unfolding replay
    sync_batch current end e = elim (fetch_transactions current end) [
      | none ↦ (some (stopped network_error), e)
      | some txs ↦ let (failure, e') = replay txs e in (or_failure failure, e')
    ]

    -- `none` when the fuel runs out.
    unfoldable pub sync_blocks : ℕ → ℕ → ℕ → ℕ → ℕ → Engine → Option (SyncEnd × Engine)
    sync_blocks zero batch_size leader_height current synced_blocks e =
        if leb current leader_height then none else some (synced synced_blocks, e)
    sync_blocks (suc fuel) batch_size leader_height current synced_blocks e =
        let end = batch_end batch_size leader_height current in
        let (ended, e') = sync_batch current end e in
        let rest =
          sync_blocks fuel batch_size leader_height (add_u64 end 1)
            (add_u64 synced_blocks (blocks_of current end)) e' in
        if leb current leader_height
        then elim ended [ some stop ↦ some (stop, e') | none ↦ rest ]
        else some (synced synced_blocks, e)

    unfoldable pub sync_from_leader :
        ℕ → Option ℕ → ℕ → ReadOnlyExecutor → Option (SyncOutcome × ReadOnlyExecutor)
    sync_from_leader fuel none batch_size x = some (sync_failed network_error, x)
    sync_from_leader fuel (some leader_height) batch_size x =
        if leb leader_height x.block_height
        then some (
          sync_ok (record { synced_blocks = 0; new_height = x.block_height; is_synced = true }),
          x,
        )
        else elim (sync_blocks fuel batch_size leader_height (add_u64 x.block_height 1) 0
            x.engine) [ none ↦ none | some ended ↦ some (conclude leader_height x ended) ]

unfoldable pub query_balance : ReadOnlyExecutor → ℕ → ℕ → ℕ
query_balance x address asset_id = get_balance x.engine.parts.state address asset_id

unfoldable pub query_position : ReadOnlyExecutor → ℕ → ℕ → Option Position
query_position x address market_id = get_position x.engine.parts.state address market_id

unfoldable pub query_order : ReadOnlyExecutor → ℕ → Option Order
query_order x order_id = get_order x.engine.parts.state order_id
