-- ===== src/Mempool/Storage.antt =====
-- The lanes of data proposals: `LanesStorage` of src/mempool/storage_memory.rs and what the trait
-- `Storage` of src/mempool/storage.rs builds on it. The walk down a lane has fuel: see Cars and Blocks.
pub mod Clean
pub mod Growing
use hyle.Prelude.{
  ◌+◌, ℕ, zero, suc, Bool, true, false, not, ◌&&◌, ◌||◌, Option, none, some, List, [], ◌∷◌, map,
  if◌then◌else◌, nat_eq, ltb, length, find, retain, Result, ok, err, unwrap_or,
}
use hyle.Prelude.Exec.{Exec, Done, pure, bail, lift, reading, ok_or, modify, require, ◌>>=◌, ◌>>◌}
use hyle.Prelude.Key.{◌==◌, string_key}
use hyle.Prelude.Map.{Map, lookup, insert, remove, contains_key, get_or}
use hyle.Prelude.Sets.{mem}
use hyle.Prelude.Word.{add_u64, add_u128}
use hyle.Model.{bytes_key, bytes_before, TransactionData}
use hyle.Contracts.Staking.{Staking, compute_voting_power, compute_f}
use hyle.Proposals.{DataProposalHash, LaneId, LaneBytesSize, PoDa}
use hyle.Consensus.Checks.{CutEntry}
use hyle.Mempool.{
  DataProposal, ValidatorDag, LaneEntryMetadata, Entry, LanesStorage, CanBePutOnTop, yes, no,
  already_on_top, fork, MempoolEnv, MempoolError, unknown_lane, unknown_dp, already_in_lane,
  unknown_parent, creates_a_fork, signing_failed, out_of_fuel,
}

-- A storage method that may fail.
abbrev pub L : Type 0 → Type 0
L A = Exec LanesStorage MempoolError A

-- A lane's entry, if the lane and the entry are known.
unfoldable pub get_entry : LanesStorage → LaneId → DataProposalHash → Option Entry
get_entry s lane_id hash = elim (lookup lane_id s.by_hash) [
  | none ↦ none
  | some lane ↦ lookup hash lane
]

unfoldable pub contains : LanesStorage → LaneId → DataProposalHash → Bool
contains s lane_id hash = elim (lookup lane_id s.by_hash) [
  | none ↦ false
  | some lane ↦ contains_key hash lane
]

unfoldable pub get_metadata_by_hash :
    LanesStorage → LaneId → DataProposalHash → Result MempoolError (Option LaneEntryMetadata)
get_metadata_by_hash s lane_id hash = elim (lookup lane_id s.by_hash) [
  | none ↦ err unknown_lane
  | some lane ↦ ok (elim (lookup hash lane) [ none ↦ none | some e ↦ some e.0 ])
]

unfoldable pub get_dp_by_hash :
    LanesStorage → LaneId → DataProposalHash → Result MempoolError (Option DataProposal)
get_dp_by_hash s lane_id hash = elim (lookup lane_id s.by_hash) [
  | none ↦ err unknown_lane
  | some lane ↦ ok (elim (lookup hash lane) [ none ↦ none | some e ↦ some e.1 ])
]

abbrev pub get_lane_ids : LanesStorage → List LaneId
get_lane_ids s = map (λ (lane : LaneId × (DataProposalHash × LaneBytesSize)). lane.0) s.lanes_tip

unfoldable pub get_lane_hash_tip : LanesStorage → LaneId → Option DataProposalHash
get_lane_hash_tip s lane_id = elim (lookup lane_id s.lanes_tip) [
  | none ↦ none
  | some tip ↦ some tip.0
]

unfoldable pub get_lane_size_tip : LanesStorage → LaneId → Option LaneBytesSize
get_lane_size_tip s lane_id = elim (lookup lane_id s.lanes_tip) [
  | none ↦ none
  | some tip ↦ some tip.1
]

unfoldable pub update_lane_tip :
    LaneId → DataProposalHash → LaneBytesSize → LanesStorage → LanesStorage
update_lane_tip lane_id hash size s = record s {
  lanes_tip = insert lane_id (hash, size) s.lanes_tip;
}

unfoldable pub pop : LaneId → LanesStorage → Option (DataProposalHash × Entry) × LanesStorage
unfolding update_lane_tip
pop lane_id s = elim (lookup lane_id s.lanes_tip) [
  | none ↦ (none, s)
  | some tip ↦ elim (lookup lane_id s.by_hash) [
    | none ↦ (none, s)
    | some lane ↦ elim (lookup tip.0 lane) [
      | none ↦ (none, s)
      | some entry ↦
          let popped = record s { by_hash = insert lane_id (remove tip.0 lane) s.by_hash } in
          (some (tip.0, entry), update_lane_tip lane_id tip.0 entry.0.cumul_size popped)
    ]
  ]
]

unfoldable pub get_lane_size_at :
    LanesStorage → LaneId → DataProposalHash → Result MempoolError LaneBytesSize
unfolding get_metadata_by_hash
get_lane_size_at s lane_id hash = elim (get_metadata_by_hash s lane_id hash) [
  | err e ↦ err e
  | ok found ↦ ok (elim found [ none ↦ 0 | some metadata ↦ metadata.cumul_size ])
]

-- The derived equality of an optional hash.
abbrev pub hash_eq : Option DataProposalHash → Option DataProposalHash → Bool
hash_eq none none = true
hash_eq (some a) (some b) = a == b
hash_eq _ _ = false

unfoldable pub can_be_put_on_top :
    LanesStorage → LaneId → DataProposalHash → Option DataProposalHash → CanBePutOnTop
unfolding get_lane_hash_tip contains
can_be_put_on_top s lane_id hash parent =
    if hash_eq parent (get_lane_hash_tip s lane_id)
    then yes
    else if hash_eq (some hash) (get_lane_hash_tip s lane_id)
    then already_on_top
    else elim parent [ none ↦ fork | some p ↦ if not (contains s lane_id p) then no else fork ]

-- The derived order of `ValidatorSignature`.
abbrev pub signature_before : ValidatorDag → ValidatorDag → Bool
signature_before a b =
    bytes_before a.signature b.signature
    || (a.signature == b.signature && bytes_before a.validator b.validator)

-- Where a binary search puts a signature in a sorted list; it is left out if it is there.
unfoldable pub insert_signature : ValidatorDag → List ValidatorDag → List ValidatorDag
insert_signature new [] = new ∷ []
insert_signature new (s ∷ ss) =
    if signature_before s new
    then s ∷ insert_signature new ss
    else if signature_before new s
    then new ∷ s ∷ ss
    else s ∷ ss

unfoldable pub take_votes :
    DataProposalHash → LaneEntryMetadata → List ValidatorDag → LaneEntryMetadata
unfolding insert_signature
take_votes hash metadata [] = metadata
take_votes hash metadata (vote ∷ votes) =
    let fits = nat_eq metadata.cumul_size vote.msg.1 && hash == vote.msg.0 in
    take_votes hash
      (if fits
        then record metadata { signatures = insert_signature vote metadata.signatures }
        else metadata)
      votes

unfoldable pub add_signatures :
    LaneId → DataProposalHash → List ValidatorDag → L (List ValidatorDag)
unfolding take_votes ◌>>=◌
add_signatures lane_id hash votes = reading (λ s. do
  lane ← ok_or unknown_lane (lookup lane_id s.by_hash)
  entry ← ok_or unknown_dp (lookup hash lane)
  modify (λ s. record s {
    by_hash = insert lane_id (insert hash (take_votes hash entry.0 votes, entry.1) lane) s.by_hash;
  })
  pure (take_votes hash entry.0 votes).signatures)

module _ (env : MempoolEnv) where
  unfoldable pub put_no_verification : LaneId → Entry → LanesStorage → LanesStorage
  put_no_verification lane_id entry s = record s {
    by_hash =
        insert lane_id (insert (env.hashed entry.1) entry (get_or lane_id s.by_hash [])) s.by_hash;
  }

  -- `DataProposal::estimate_size`
  unfoldable pub estimate_size : List TransactionData → ℕ
  estimate_size [] = 0
  estimate_size (tx ∷ txs) = add_u64 (env.estimate_size tx) (estimate_size txs)

  unfoldable pub put_signed : LaneId → DataProposal → DataProposalHash → LaneBytesSize → L Done
  unfolding put_no_verification ◌>>=◌
  put_signed lane_id dp hash size = do
    signature ← ok_or signing_failed (env.sign (hash, size))
    modify (
        put_no_verification lane_id (
          record {
            parent_data_proposal_hash = dp.parent_data_proposal_hash;
            cumul_size = size;
            signatures = signature ∷ [];
          },
          dp,
        ))

  unfoldable pub store_as :
      CanBePutOnTop
      → LaneId
      → DataProposal
      → DataProposalHash
      → L (DataProposalHash × LaneBytesSize)
  unfolding get_lane_size_tip estimate_size put_signed update_lane_tip ◌>>=◌
  store_as no lane_id dp hash = bail unknown_parent
  store_as fork lane_id dp hash = bail creates_a_fork
  store_as yes lane_id dp hash = reading (λ s.
      let size = add_u64 (unwrap_or (get_lane_size_tip s lane_id) 0) (estimate_size dp.txs) in
      do
        put_signed lane_id dp hash size
        modify (update_lane_tip lane_id hash size)
        pure (hash, size))
  store_as already_on_top lane_id dp hash = reading (λ s.
      let size = unwrap_or (get_lane_size_tip s lane_id) 0 in
      do put_signed lane_id dp hash size; pure (hash, size))

  unfoldable pub store_data_proposal : LaneId → DataProposal → L (DataProposalHash × LaneBytesSize)
  unfolding contains can_be_put_on_top store_as ◌>>=◌
  store_data_proposal lane_id dp = reading (λ s. do
    require (not (contains s lane_id (env.hashed dp))) already_in_lane
    store_as (can_be_put_on_top s lane_id (env.hashed dp) dp.parent_data_proposal_hash) lane_id dp
        (env.hashed dp))

  -- The loop of `clean_and_update_lane`.
  unfoldable pub pop_until : ℕ → LaneId → Option DataProposalHash → L Done
  unfolding pop put_no_verification
  pop_until zero lane_id previous s = (err out_of_fuel, s)
  pop_until (suc fuel) lane_id previous s =
      let (popped, s') = pop lane_id s in
      elim popped [
        | none ↦ (ok tt, s')
        | some e ↦ elim (hash_eq (some e.0) previous) [
          | true ↦ (ok tt, put_no_verification lane_id e.1 s')
          | false ↦ pop_until fuel lane_id previous s'
        ]
      ]

  -- Each turn takes an entry of the lane.
  unfoldable pub clean_and_update_lane :
      LaneId → Option DataProposalHash → DataProposalHash → LaneBytesSize → L Done
  unfolding get_lane_hash_tip pop_until update_lane_tip ◌>>=◌
  clean_and_update_lane lane_id previous new_hash new_size = reading (λ s.
      let tip = get_lane_hash_tip s lane_id in
      do
        (if not (hash_eq tip previous) && not (hash_eq tip (some new_hash))
            then pop_until (suc (suc (length (get_or lane_id s.by_hash [])))) lane_id previous
            else pure tt)
        modify (update_lane_tip lane_id new_hash new_size))
