-- ===== src/Mempool/Handlers.antt =====
-- What a mempool does with a data proposal, its votes and their signatures: src/mempool/verify_tx.rs,
-- own_lane.rs (`on_data_vote`) and src/mempool.rs (`on_poda_update`).
use hyle.Prelude.{
  ℕ, zero, suc, Bool, true, false, not, ◌&&◌, ◌||◌, Option, none, some, List, [], ◌∷◌, ◌++◌, map,
  if◌then◌else◌, any, retain, is_empty, length, ltb, leb, Result, ok, err,
}
use hyle.Prelude.Exec.{Done, pure, bail, lift, gets, reading, ok_or, modify, ◌>>=◌, ◌>>◌}
use hyle.Prelude.Key.{◌==◌, string_key, pair_key}
use hyle.Prelude.Map.{lookup, insert, get_or}
use hyle.Prelude.Word.{mul_u128}
use hyle.Model.{ValidatorPublicKey, bytes_key}
use hyle.Contracts.Staking.{compute_voting_power, compute_f}
use hyle.Proposals.{DataProposalHash, LaneId, LaneBytesSize}
use hyle.Mempool.{
  DataProposal, ValidatorDag, LanesStorage, yes, no, already_on_top, fork, DataProposalVerdict,
  process, empty, wait, vote, refuse, ignore, data_vote, poda_update, MempoolOutput, broadcast,
  send_to, hash_task, processing_task, MempoolEnv, Mempool, MempoolError, wrong_hash, unreachable,
  signing_failed, out_of_fuel, M,
}
use hyle.Mempool.Storage.{
  L, contains, get_lane_size_at, can_be_put_on_top, add_signatures, store_data_proposal,
}

abbrev push_output : MempoolOutput → Mempool → Mempool
push_output o s = record s { outputs = s.outputs ++ o ∷ [] }

unfoldable pub send : MempoolOutput → M Done
unfolding modify
send o = modify (push_output o)

-- A storage method, on the mempool's lanes.
unfoldable pub on_lanes : {A : Type 0} → L A → M A
on_lanes m s = let (r, lanes') = m s.lanes in (r, record s { lanes = lanes' })

-- Whether the child of `hash` is first in the list, and the list without it: the last element takes
-- its place.
abbrev is_child : DataProposalHash → DataProposal → Bool
is_child hash dp = elim dp.parent_data_proposal_hash [ none ↦ false | some parent ↦ parent == hash ]

abbrev without_last : {A : Type 0} → A → List A → List A
without_last a [] = []
without_last a (b ∷ bs) = a ∷ without_last b bs

abbrev last_or : {A : Type 0} → A → List A → A
last_or a [] = a
last_or a (b ∷ bs) = last_or b bs

unfoldable pub take_child :
    DataProposalHash → List DataProposal → Option DataProposal × List DataProposal
take_child hash [] = (none, [])
take_child hash (dp ∷ dps) =
    let rest = take_child hash dps in
    if is_child hash dp
    then (some dp, elim dps [ [] ↦ [] | d ∷ ds ↦ last_or d ds ∷ without_last d ds ])
    else (rest.0, dp ∷ rest.1)

module _ (env : MempoolEnv) where
  unfoldable pub get_verdict :
      LanesStorage
      → LaneId
      → DataProposal
      → Result MempoolError (DataProposalVerdict × Option LaneBytesSize)
  unfolding contains get_lane_size_at can_be_put_on_top
  get_verdict lanes lane_id dp =
      if is_empty dp.txs
      then ok (empty, none)
      else if contains lanes lane_id (env.hashed dp)
      then elim (get_lane_size_at lanes lane_id (env.hashed dp)) [
        | err e ↦ err e
        | ok size ↦ ok (vote, some size)
      ]
      else elim (can_be_put_on_top lanes lane_id (env.hashed dp) dp.parent_data_proposal_hash) [
        | yes ↦ ok (process, none)
        | no ↦ ok (wait, none)
        | already_on_top ↦ ok (ignore, none)
        | fork ↦ ok (refuse, none)
      ]

  unfoldable pub send_vote : ValidatorPublicKey → DataProposalHash → LaneBytesSize → M Done
  unfolding send ◌>>=◌
  send_vote validator hash size = do
    signed ← ok_or signing_failed (env.sign (hash, size))
    send (send_to validator (data_vote signed))

  -- The answer to a data proposal whose verdict is cached; `false` where it is to be hashed.
  unfoldable pub answer_cached : LaneId → DataProposalHash → Option DataProposalVerdict → M Bool
  unfolding get_lane_size_at send_vote ◌>>=◌
  answer_cached lane_id hash none = pure false
  answer_cached lane_id hash (some wait) = pure false
  answer_cached lane_id hash (some vote) = reading (λ s.
      elim (get_lane_size_at s.lanes lane_id hash) [
        | err e ↦ pure false
        | ok size ↦ do send_vote lane_id hash size; pure true
      ])
  answer_cached lane_id hash (some process) = pure true
  answer_cached lane_id hash (some empty) = pure true
  answer_cached lane_id hash (some refuse) = pure true
  answer_cached lane_id hash (some ignore) = pure true

  unfoldable pub on_data_proposal : LaneId → DataProposalHash → DataProposal → M Done
  unfolding answer_cached send ◌>>=◌
  on_data_proposal lane_id hash dp = do
    cached ← gets (λ s. lookup (lane_id, hash) s.cached_dp_votes)
    answered ← answer_cached lane_id hash cached
    (if answered then pure tt else send (hash_task lane_id hash dp))

  -- What the task of `on_data_proposal` does.
  unfoldable pub check_hash : DataProposalHash → DataProposal → Result MempoolError DataProposal
  check_hash hash dp = if env.hashed dp == hash then ok dp else err wrong_hash

  abbrev pub cache_verdict : LaneId → DataProposalHash → DataProposalVerdict → M Done
  cache_verdict lane_id hash verdict =
      modify (λ s. record s { cached_dp_votes = insert (lane_id, hash) verdict s.cached_dp_votes })

  -- A set in order of insertion: a data proposal is in it once.
  unfoldable pub buffer_proposal : LaneId → DataProposal → Mempool → Mempool
  buffer_proposal lane_id dp s =
      let waiting = get_or lane_id s.buffered_proposals [] in
      let known = any (λ old. env.hashed old == env.hashed dp) waiting in
      record s {
        buffered_proposals =
            insert lane_id (if known then waiting else waiting ++ dp ∷ []) s.buffered_proposals;
      }

  unfoldable pub act_on_verdict :
      LaneId → DataProposal → DataProposalVerdict → Option LaneBytesSize → M Done
  unfolding send_vote send buffer_proposal
  act_on_verdict lane_id dp vote (some size) = send_vote lane_id (env.hashed dp) size
  act_on_verdict lane_id dp vote none = bail unreachable
  act_on_verdict lane_id dp process size =
      reading (λ s. send (processing_task lane_id dp s.known_contracts))
  act_on_verdict lane_id dp wait size = modify (buffer_proposal lane_id dp)
  act_on_verdict lane_id dp empty size = pure tt
  act_on_verdict lane_id dp refuse size = pure tt
  act_on_verdict lane_id dp ignore size = pure tt

  unfoldable pub on_hashed_data_proposal : LaneId → DataProposal → M Done
  unfolding get_verdict act_on_verdict ◌>>=◌
  on_hashed_data_proposal lane_id dp = do
    judged ← reading (λ s. lift (get_verdict s.lanes lane_id dp))
    cache_verdict lane_id (env.hashed dp) judged.0
    act_on_verdict lane_id dp judged.0 judged.1

  abbrev pub buffer_poda : LaneId → DataProposalHash → List ValidatorDag → Mempool → Mempool
  buffer_poda lane_id hash podas s =
      let lane = get_or lane_id s.buffered_podas [] in
      record s {
        buffered_podas =
            insert lane_id (insert hash (get_or hash lane [] ++ podas ∷ []) lane) s.buffered_podas;
      }

  unfoldable pub on_poda_update : LaneId → DataProposalHash → List ValidatorDag → M Done
  unfolding add_signatures on_lanes
  on_poda_update lane_id hash podas s =
      let (result, s') = on_lanes (add_signatures lane_id hash podas) s in
      elim result [
        | ok signatures ↦ (ok tt, s')
        | err e ↦ (ok tt, buffer_poda lane_id hash podas s')
      ]

  -- The last of the signatures that wait for a data proposal.
  unfoldable pub pop_poda :
      LaneId → DataProposalHash → Mempool → Option (List ValidatorDag) × Mempool
  pop_poda lane_id hash s = elim (lookup lane_id s.buffered_podas) [
    | none ↦ (none, s)
    | some lane ↦ elim (lookup hash lane) [
      | none ↦ (none, s)
      | some podas ↦ elim podas [
        | [] ↦ (none, s)
        | p ∷ ps ↦ (
          some (last_or p ps),
          record s {
            buffered_podas = insert lane_id (insert hash (without_last p ps) lane) s.buffered_podas;
          },
        )
      ]
    ]
  ]

  -- Each turn takes one of the lists that wait; the fuel is how many there are, and one.
  unfoldable pub take_podas : ℕ → LaneId → DataProposalHash → M Done
  unfolding pop_poda on_poda_update
  take_podas zero lane_id hash s = (err out_of_fuel, s)
  take_podas (suc fuel) lane_id hash s =
      let (popped, s') = pop_poda lane_id hash s in
      elim popped [
        | none ↦ (ok tt, s')
        | some podas ↦ take_podas fuel lane_id hash (on_poda_update lane_id hash podas s').1
      ]

  -- A data proposal that waits for this one.
  unfoldable pub resume_child : LaneId → DataProposalHash → M Done
  unfolding take_child on_hashed_data_proposal ◌>>=◌
  resume_child lane_id hash = reading (λ s. elim (lookup lane_id s.buffered_proposals) [
    | none ↦ pure tt
    | some waiting ↦
        let (child, rest) = take_child hash waiting in
        do
          modify (λ t. record t { buffered_proposals = insert lane_id rest t.buffered_proposals })
          elim child [ none ↦ pure tt | some dp ↦ on_hashed_data_proposal lane_id dp ]
  ])

  abbrev waiting_podas : LaneId → DataProposalHash → Mempool → ℕ
  waiting_podas lane_id hash s = length (get_or hash (get_or lane_id s.buffered_podas []) [])

  unfoldable pub store_and_vote : LaneId → DataProposal → M Done
  unfolding on_lanes store_data_proposal send_vote take_podas resume_child ◌>>=◌
  store_and_vote lane_id dp = do
    stored ← on_lanes (store_data_proposal env lane_id dp)
    send_vote lane_id stored.0 stored.1
    reading (λ s. take_podas (suc (waiting_podas lane_id stored.0 s)) lane_id stored.0)
    resume_child lane_id stored.0

  unfoldable pub act_on_processed : LaneId → DataProposal → DataProposalVerdict → M Done
  unfolding store_and_vote
  act_on_processed lane_id dp vote = store_and_vote lane_id dp
  act_on_processed lane_id dp refuse = pure tt
  act_on_processed lane_id dp ignore = pure tt
  act_on_processed lane_id dp empty = bail unreachable
  act_on_processed lane_id dp process = bail unreachable
  act_on_processed lane_id dp wait = bail unreachable

  unfoldable pub on_processed_data_proposal : LaneId → DataProposalVerdict → DataProposal → M Done
  unfolding act_on_processed ◌>>=◌
  on_processed_data_proposal lane_id verdict dp = do
    cache_verdict lane_id (env.hashed dp) verdict
    act_on_processed lane_id dp verdict

  unfoldable pub on_data_vote : ValidatorDag → M Done
  unfolding on_lanes add_signatures compute_voting_power compute_f send ◌>>=◌
  on_data_vote vdag = do
    signatures ← on_lanes (add_signatures env.validator_pubkey vdag.msg.0 (vdag ∷ []))
    reading (λ s.
        let validators = map (λ (d : ValidatorDag). d.validator) signatures in
        let old =
          compute_voting_power s.staking (retain (λ v. not (v == vdag.validator)) validators) in
        let new = compute_voting_power s.staking validators in
        let f = compute_f s.staking in
        if (ltb old f && leb f new)
          || ((ltb old (mul_u128 2 f) && leb (mul_u128 2 f) new) || ltb (mul_u128 3 f) new)
        then send (broadcast (poda_update vdag.msg.0 signatures))
        else pure tt)
