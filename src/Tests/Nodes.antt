-- ===== src/Tests/Nodes.antt =====
-- The mempool and the executor at one transfer.
use pranklin.Base.{
  ℕ, true, ◌<◌, ◌+◌, ◌%◌, ◌≡◌, refl, Option, none, some, List, [], ◌∷◌, length, arith,
}
use pranklin.Base.Words.{fit, u64_mod}
use pranklin.Storage.{get, set, delete, fresh, scan_back, get_value_option}
use pranklin.Types.Signature.{TxSignature, bytes_of}
use pranklin.Types.Transaction.{Transaction, TxPayload}
use pranklin.State.{
  init, get_asset, set_asset, get_balance, set_balance, get_position, set_position, delete_position,
  update_position_index, remove_from_position_index, get_market, set_market, get_nonce, set_nonce,
  increment_nonce,
}
use pranklin.Services.Account.{transfer}
use pranklin.Mempool.Defs.{Mempool, sender_tx_count}
use pranklin.Mempool.Laws.{IsWithinLimits}
use pranklin.Exec.Defs.{
  Node, done, failed, invalid_nonce, verify_transaction, verify_nonce, execute, execute_tx_payload,
  payload_call, run_payload, execute_batch,
}
use pranklin.Exec.Batches.{nonces_from, counting, executed, execute_batch-nonces}
use pranklin.Exec.Replay.{execute-nonce, execute-replay}
use pranklin.Tests.Samples.{open_market, parts_of}

-- A signature is the address of its signer, as its only byte, and a hash is the nonce.
abbrev pub signer_of : List ℕ → Option ℕ
signer_of [] = none
signer_of (byte ∷ bytes) = some byte

abbrev pub signer : Transaction → Option ℕ
signer tx = signer_of (bytes_of tx.signature)

abbrev pub hash : Transaction → ℕ
hash tx = tx.nonce

abbrev pub payment : Transaction
payment = record {
  nonce = 0;
  from = 2;
  payload = TxPayload.transfer (record { to = 1; amount = 300; asset_id = 0 });
  signature = TxSignature.raw_borsh (2 ∷ []);
}

abbrev pub empty_pool : Mempool
empty_pool = record {
  index = record { txs = []; by_sender = λ _. none };
  config = record { max_size = 1; max_txs_per_sender = 1; strict_nonce_ordering = true };
}

empty-IsWithinLimits : IsWithinLimits empty_pool
unfolding sender_tx_count
empty-IsWithinLimits = record { size = omega arith; senders = λ s. omega arith }

abbrev pub node : Node
node = record { parts = parts_of open_market; agents = λ _ _. none; mempool = empty_pool }

abbrev pub paid : Node
paid = (execute signer hash payment node).1

pub pays : execute signer hash payment node ≡ (done, paid)
unfolding execute verify_transaction verify_nonce execute_tx_payload payload_call run_payload
    transfer fit get_nonce set_nonce increment_nonce get set delete fresh scan_back get_value_option
    init get_asset set_asset get_balance set_balance get_position set_position delete_position
    update_position_index remove_from_position_index get_market set_market
pays = refl

execute-nonce_example :
    (signer payment ≡ some 2)
    × (get_nonce node.parts.state 2 ≡ 0)
    × (get_nonce paid.parts.state 2 ≡ (payment.nonce + 1) % u64_mod)
execute-nonce_example = execute-nonce signer hash payment node paid pays

execute-replay_example : execute signer hash payment paid ≡ (failed (invalid_nonce 1 0), paid)
execute-replay_example = execute-replay signer hash payment node paid (omega arith) pays

-- The payment twice, and bytes that do not decode.
abbrev block : List (Option Transaction)
block = some payment ∷ some payment ∷ none ∷ []

block_room : get_nonce node.parts.state 2 + length block < u64_mod
unfolding get_nonce get set delete fresh scan_back get_value_option init get_asset set_asset
    get_balance set_balance get_position set_position delete_position update_position_index
    remove_from_position_index get_market set_market
block_room = omega arith

execute_batch-nonces_example :
    let own = nonces_from 2 (executed signer hash block node) in
    let (good, bad, after) = execute_batch signer hash block node in
    (own ≡ counting (get_nonce node.parts.state 2) (length own))
    × (get_nonce after.parts.state 2 ≡ get_nonce node.parts.state 2 + length own)
    × (good ≡ length (executed signer hash block node))
    × (good + bad ≡ length block)
execute_batch-nonces_example = execute_batch-nonces signer hash block node 2 block_room
