-- ===== src/Tests/Indexes.antt =====
-- An index of positions with two traders, one of whom leaves.
use pranklin.Base.{◌≡◌, List, [], ◌∷◌, contains, if◌then◌else◌, none}
use pranklin.Storage.{fresh}
use pranklin.Storage.Reads.{get-fresh}
use pranklin.State.Indexes.{
  PositionIndexManager, new_position_index, get_addresses, rebuild_from_state,
}
use pranklin.State.Recovery.{IndexOp, apply_all, rebuild_from_state-recovers}

abbrev moves : List IndexOp
moves =
    IndexOp.add_address 0 1
    ∷ IndexOp.add_address 0 2
    ∷ IndexOp.add_address 1 2
    ∷ IndexOp.remove_address 0 1
    ∷ IndexOp.remove_address 1 2
    ∷ []

abbrev moved : PositionIndexManager
moved = apply_all moves (new_position_index fresh 3)

rebuild_from_state-recovers_example :
    get_addresses
      (rebuild_from_state (0 ∷ 1 ∷ []) (new_position_index moved.storage moved.version))
      0
    ≡ (if contains 0 (0 ∷ 1 ∷ []) then get_addresses moved 0 else none)
rebuild_from_state-recovers_example =
    rebuild_from_state-recovers fresh 3 moves (0 ∷ 1 ∷ []) 0 (λ j. get-fresh j 3)
