-- ===== src/NodeState/Timeouts.antt =====
-- crates/hyle-modules/src/node_state/timeouts.rs, and `get_tx_timeout_window` of node_state.rs.
pub mod Laws
use hyle.Prelude.{
  ℕ, ◌+◌, ◌≡◌, Bool, true, false, Option, none, some, List, [], ◌∷◌, ◌++◌, ltb, leb, if◌then◌else◌,
  length, min, unwrap_or,
}
use hyle.Prelude.Key.{◌==◌, string_key, nat_key}
use hyle.Prelude.Word.{add_u64}
use hyle.Prelude.Map.{Map, lookup, insert, remove, get_or, values}
use hyle.Model.{
  Blob, BlockHeight, Contract, ContractName, TimeoutWindow, no_timeout, timeout, TxHash,
}

pub record Timeouts : Type 0 where
  pub by_block : Map BlockHeight (List TxHash)

-- `Timeouts::drop`
unfoldable pub drop_at : Timeouts → BlockHeight → Timeouts × List TxHash
drop_at t at = (record { by_block = remove at t.by_block }, get_or at t.by_block [])

-- `Timeouts::set`
unfoldable pub set_timeout : Timeouts → TxHash → BlockHeight → BlockHeight → Timeouts
set_timeout t tx block_height timeout_window =
    let at = add_u64 block_height timeout_window in
    record { by_block = insert at (get_or at t.by_block [] ++ tx ∷ []) t.by_block }

sum_lengths : List (List TxHash) → ℕ
sum_lengths [] = 0
sum_lengths (v ∷ vs) = length v + sum_lengths vs

unfoldable pub count_all : Timeouts → ℕ
unfolding sum_lengths
count_all t = sum_lengths (values t.by_block)

-- `impl Ord for TimeoutWindow`: is `a` the smaller, or the first of two equals?
abbrev pub window_le : TimeoutWindow → TimeoutWindow → Bool
window_le no_timeout no_timeout = true
window_le (timeout a) no_timeout = true
window_le no_timeout (timeout b) = false
window_le (timeout a) (timeout b) = leb a b

-- The height up to which the first way to combine the windows is kept.
abbrev pub window_fork_height : BlockHeight
window_fork_height = 445000

-- `filter_map`: the windows of the contracts that are known.
unfoldable pub known_windows : Map ContractName Contract → List Blob → List TimeoutWindow
known_windows contracts [] = []
known_windows contracts (blob ∷ blobs) =
    let rest = known_windows contracts blobs in
    elim (lookup blob.contract_name contracts) [ some c ↦ c.timeout_window ∷ rest | none ↦ rest ]

-- `Iterator::min`
unfoldable pub min_window : List TimeoutWindow → Option TimeoutWindow
min_window [] = none
min_window (w ∷ ws) = elim (min_window ws) [
  | none ↦ some w
  | some v ↦ if window_le w v then some w else some v
]

-- The body of the loop of the first way.
abbrev pub combine_windows : TimeoutWindow → TimeoutWindow → TimeoutWindow
combine_windows no_timeout w = w
combine_windows (timeout a) (timeout b) = timeout (min a b)
combine_windows (timeout a) no_timeout = no_timeout

unfoldable pub fold_windows : Map ContractName Contract → TimeoutWindow → List Blob → TimeoutWindow
fold_windows contracts acc [] = acc
fold_windows contracts acc (blob ∷ blobs) =
    fold_windows contracts
      (elim (lookup blob.contract_name contracts) [
        | some c ↦ combine_windows acc c.timeout_window
        | none ↦ acc
      ])
      blobs

unfoldable pub get_tx_timeout_window :
    BlockHeight → Map ContractName Contract → List Blob → TimeoutWindow
unfolding known_windows min_window fold_windows
get_tx_timeout_window current_height contracts blobs =
    if ltb window_fork_height current_height
    then unwrap_or (min_window (known_windows contracts blobs)) no_timeout
    else fold_windows contracts no_timeout blobs
