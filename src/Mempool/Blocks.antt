-- ===== src/Mempool/Blocks.antt =====
-- From a committed proposal to a signed block: src/mempool/block_construction.rs and
-- `handle_consensus_event` of src/mempool.rs. The walk between two cuts has fuel: Blocks/Paths says
-- how much is enough.
pub mod Paths
pub mod Complete
use hyle.Prelude.{
  ◌+◌, ◌-◌, ℕ, zero, suc, Bool, true, false, not, ◌&&◌, ◌||◌, Option, none, some, List, [], ◌∷◌,
  ◌++◌, if◌then◌else◌, find, leb, nat_eq, length, Result, ok, err,
}
use hyle.Prelude.Exec.{
  Exec, Done, pure, bail, lift, gets, reading, ok_or, modify, require, ◌>>=◌, ◌>>◌,
}
use hyle.Prelude.Key.{◌==◌, string_key}
use hyle.Prelude.Map.{lookup}
use hyle.Model.{bytes_key}
use hyle.Proposals.{DataProposalHash, LaneId, LaneBytesSize, Cut, Slot, ConsensusProposal}
use hyle.Consensus.Checks.{CutEntry}
use hyle.Mempool.{
  DataProposal, LanesStorage, CommittedConsensusProposal, BlockUnderConstruction, MempoolOutput,
  send_to, started_building_blocks, built_signed_block, sync_request, MempoolEnv, Mempool,
  MempoolError, out_of_fuel, missing_dp, M,
}
use hyle.Mempool.Storage.{
  contains, get_metadata_by_hash, get_dp_by_hash, get_lane_hash_tip, hash_eq, clean_and_update_lane,
}
use hyle.Mempool.Handlers.{send, on_lanes}

-- What a walk finds: the data proposals from the oldest on, and the hash where it broke off.
abbrev pub Found : Type 0
Found = List DataProposal × Option DataProposalHash

-- `get_entries_between_hashes`, from `hash` back to `from`, before those that were found.
unfoldable pub between :
    ℕ
    → LanesStorage
    → LaneId
    → Option DataProposalHash
    → DataProposalHash
    → List DataProposal
    → Result MempoolError Found
unfolding get_metadata_by_hash get_dp_by_hash
between zero lanes lane_id from hash dps = err out_of_fuel
between (suc fuel) lanes lane_id from hash dps = elim (hash_eq (some hash) from) [
  | true ↦ ok (dps, none)
  | false ↦ elim (get_metadata_by_hash lanes lane_id hash) [
    | err e ↦ err e
    | ok found ↦ elim found [
      | none ↦ ok (dps, some hash)
      | some le ↦ elim (get_dp_by_hash lanes lane_id hash) [
        | err e ↦ err e
        | ok stored ↦ elim stored [
          | none ↦ ok (dps, some hash)
          | some dp ↦ elim le.parent_data_proposal_hash [
            | none ↦ ok (dp ∷ dps, none)
            | some parent ↦ between fuel lanes lane_id from parent (dp ∷ dps)
          ]
        ]
      ]
    ]
  ]
]

-- The lane's data proposal in a cut.
unfoldable pub hash_in_cut : Option Cut → LaneId → Option DataProposalHash
hash_in_cut none lane_id = none
hash_in_cut (some cut) lane_id = elim (find (λ (entry : CutEntry). entry.0 == lane_id) cut) [
  | none ↦ none
  | some entry ↦ some entry.1
]

unfoldable pub send_sync_request : LaneId → Option DataProposalHash → DataProposalHash → M Done
unfolding send
send_sync_request lane_id from to = send (send_to lane_id (sync_request from (some to)))

-- The data of a lane, or a request for what is missing.
unfoldable pub complete_or_ask : LaneId → Option DataProposalHash → Found → M (List DataProposal)
unfolding send_sync_request ◌>>=◌
complete_or_ask lane_id from (dps, none) = pure dps
complete_or_ask lane_id from (dps, some missing) = do
  send_sync_request lane_id from missing
  bail missing_dp

unfoldable pub try_get_full_data : ℕ → Option Cut → Cut → M (List (LaneId × List DataProposal))
unfolding hash_in_cut between complete_or_ask ◌>>=◌
try_get_full_data fuel from [] = pure []
try_get_full_data fuel from (entry ∷ cut) = do
  found ← reading (λ s. lift (between fuel s.lanes entry.0 (hash_in_cut from entry.0) entry.1 []))
  dps ← complete_or_ask entry.0 (hash_in_cut from entry.0) found
  rest ← try_get_full_data fuel from cut
  pure ((entry.0, dps) ∷ rest)

unfoldable pub build_signed_block_and_emit : ℕ → BlockUnderConstruction → M Done
unfolding try_get_full_data send ◌>>=◌
build_signed_block_and_emit fuel buc = do
  dps ← try_get_full_data fuel buc.from buc.ccp.consensus_proposal.cut
  send (built_signed_block dps buc.ccp.certificate buc.ccp.consensus_proposal)

-- A block that fails goes to the end of the queue.
unfoldable pub build_or_requeue : ℕ → BlockUnderConstruction → Mempool → Mempool
unfolding build_signed_block_and_emit
build_or_requeue fuel buc s =
    let (result, s') = build_signed_block_and_emit fuel buc s in
    elim result [
      | ok done ↦ s'
      | err e ↦ record s' { blocks_under_construction = s'.blocks_under_construction ++ buc ∷ [] }
    ]

-- As many turns as there were blocks at the start.
unfoldable pub build_blocks : ℕ → ℕ → Mempool → Mempool
unfolding build_or_requeue
build_blocks zero fuel s = s
build_blocks (suc turns) fuel s = elim s.blocks_under_construction [
  | [] ↦ build_blocks turns fuel s
  | buc ∷ more ↦
      build_blocks turns fuel
        (build_or_requeue fuel buc (record s { blocks_under_construction = more }))
]

unfoldable pub try_to_send_full_signed_blocks : ℕ → Mempool → Mempool
unfolding build_blocks
try_to_send_full_signed_blocks fuel s = build_blocks (length s.blocks_under_construction) fuel s

unfoldable pub set_ccp_build_start_height : Slot → Mempool → Mempool
set_ccp_build_start_height slot s = elim s.buc_build_start_height [
  | some height ↦ s
  | none ↦ record s {
    buc_build_start_height = some slot;
    outputs = s.outputs ++ started_building_blocks slot ∷ [];
  }
]

abbrev push_block : Option Cut → CommittedConsensusProposal → Mempool → Mempool
push_block from ccp s = record s {
  blocks_under_construction = s.blocks_under_construction ++ record { from = from; ccp = ccp } ∷ [];
}

unfoldable pub try_create_block_under_construction : CommittedConsensusProposal → Mempool → Mempool
unfolding set_ccp_build_start_height
try_create_block_under_construction ccp s =
    let slot = ccp.consensus_proposal.slot in
    let known = record s { last_ccp = some ccp } in
    elim s.last_ccp [
      | some last ↦
          if leb slot last.consensus_proposal.slot
          then s
          else if nat_eq last.consensus_proposal.slot (slot - 1)
          then push_block (some last.consensus_proposal.cut) ccp
              (set_ccp_build_start_height slot known)
          else known
      | none ↦
          if nat_eq slot 1
          then push_block none ccp (set_ccp_build_start_height slot known)
          else known
    ]

module _ (env : MempoolEnv) where
  unfoldable pub clean_lane : Option Cut → CutEntry → M Done
  unfolding contains hash_in_cut on_lanes clean_and_update_lane send_sync_request ◌>>=◌
  clean_lane previous_cut entry = reading (λ s.
      let previous = hash_in_cut previous_cut entry.0 in
      if contains s.lanes entry.0 entry.1 || hash_eq previous (some entry.1) then pure tt else (do
        on_lanes (clean_and_update_lane env entry.0 previous entry.1 entry.2)
        send_sync_request entry.0 previous entry.1))

  unfoldable pub clean_and_update_lanes : Cut → Option Cut → M Done
  unfolding clean_lane ◌>>=◌
  clean_and_update_lanes [] previous_cut = pure tt
  clean_and_update_lanes (entry ∷ cut) previous_cut = do
    clean_lane previous_cut entry
    clean_and_update_lanes cut previous_cut

  unfoldable pub handle_consensus_event : ℕ → CommittedConsensusProposal → M Done
  unfolding try_create_block_under_construction try_to_send_full_signed_blocks
      clean_and_update_lanes ◌>>=◌
  handle_consensus_event fuel ccp = do
    modify (λ s. record s { staking = ccp.staking })
    previous ←
        gets (λ s. elim s.last_ccp [ none ↦ none | some last ↦ some last.consensus_proposal.cut ])
    modify (try_create_block_under_construction ccp)
    modify (try_to_send_full_signed_blocks fuel)
    clean_and_update_lanes ccp.consensus_proposal.cut previous
