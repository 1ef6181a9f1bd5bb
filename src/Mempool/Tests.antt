-- ===== src/Mempool/Tests.antt =====
-- The mempool at concrete inputs: the lane of Alice, with two data proposals.
use hyle.Prelude.{
  is_empty, ◌≡◌, refl, ap, ◌≢◌, false≢true, ℕ, ◌+◌, ◌<◌, String, true, false, none, some, List, [],
  ◌∷◌, map, ok, err, ◌⊎◌, sym, subst, Bool-cases, inl, inr, arith,
}
use hyle.Prelude.Key.{◌==◌, string_key, key_eq}
use hyle.Prelude.Exec.{reading, ◌>>=◌}
use hyle.Prelude.Map.{lookup, Map}
use hyle.Model.{
  ProofTransaction, ValidatorPublicKey, bytes_key, VerifiedProofTransaction,
  verified_proof_transaction, BlobTransaction, blob_transaction,
}
use hyle.Proposals.{LaneId, DataProposalHash, AggregateSignature, default_proposal}
use hyle.Contracts.Staking.{Staking}
use hyle.NodeState.Fixtures.{test_codec, output_of}
use hyle.Mempool.{
  DataProposal, ValidatorDag, LaneEntryMetadata, Entry, LanesStorage, MempoolEnv, Mempool,
  BlockUnderConstruction, built_signed_block, vote, MempoolError, out_of_fuel, unknown_lane,
}
use hyle.Mempool.Storage.{get_entry, get_lane_hash_tip, get_metadata_by_hash, clean_and_update_lane}
use hyle.Mempool.Storage.Clean.{clean_removes_one}
use hyle.Mempool.Cars.{Car, get_latest_car}
use hyle.Mempool.Cars.Walk.{IsVoted, latest_car-IsVoted}
use hyle.Mempool.Verify.{accepts_tx, process_data_proposal, contract_of}
use hyle.Mempool.Verify.Proven.{claims_unchecked}
use hyle.Mempool.OwnLane.{process_proof_tx, init_dp_preparation_if_pending}
use hyle.Mempool.OwnLane.Accepted.{transactions, processed-IsAccepted, prepared_conserves}
use hyle.Mempool.Blocks.{build_signed_block_and_emit}
use hyle.Mempool.Blocks.Complete.{AllGrow, AllPaths, built-AllPaths}

abbrev alice : ValidatorPublicKey
alice = 1 ∷ []

abbrev bob : ValidatorPublicKey
bob = 2 ∷ []

abbrev carol : ValidatorPublicKey
carol = 3 ∷ []

abbrev stakes : Staking
stakes = record {
  stakes = ("alice", 40) ∷ ("bob", 40) ∷ ("carol", 40) ∷ [];
  delegations = (alice, "alice" ∷ []) ∷ (bob, "bob" ∷ []) ∷ (carol, "carol" ∷ []) ∷ [];
  bonded = alice ∷ bob ∷ carol ∷ [];
  total_bond = 120;
  fees = record { pending_fees = []; balances = [] };
}

abbrev signed_by : ValidatorPublicKey → String → ℕ → ValidatorDag
signed_by v hash size = record { msg = (hash, size); signature = v; validator = v }

abbrev transfer : BlobTransaction
transfer = record { identity = "alice"; blobs = [] }

abbrev first_dp : DataProposal
first_dp = record { parent_data_proposal_hash = none; txs = blob_transaction transfer ∷ [] }

abbrev second_dp : DataProposal
second_dp = record { parent_data_proposal_hash = some "d1"; txs = blob_transaction transfer ∷ [] }

abbrev first_meta : LaneEntryMetadata
first_meta = record {
  parent_data_proposal_hash = none;
  cumul_size = 10;
  signatures = signed_by alice "d1" 10 ∷ signed_by bob "d1" 10 ∷ [];
}

abbrev second_meta : LaneEntryMetadata
second_meta = record {
  parent_data_proposal_hash = some "d1";
  cumul_size = 20;
  signatures = signed_by alice "d2" 20 ∷ [];
}

abbrev two_entries : Map DataProposalHash Entry
two_entries = ("d1", (first_meta, first_dp)) ∷ ("d2", (second_meta, second_dp)) ∷ []

abbrev two_lanes : LanesStorage
two_lanes = record { lanes_tip = (alice, ("d2", 20)) ∷ []; by_hash = (alice, two_entries) ∷ [] }

abbrev test_env : MempoolEnv
test_env = record {
  codec = test_codec;
  hashed = λ dp. elim dp.parent_data_proposal_hash [ none ↦ "d1" | some p ↦ "d2" ];
  estimate_size = λ tx. 10;
  tx_hash = λ tx. "tx";
  proof_hash = λ proof. "proof";
  key_text = λ key. "alice";
  sign = λ (hash, size). some (signed_by alice hash size);
  aggregate = λ content dags.
      some
        (record { signature = 7 ∷ []; validators = map (λ (d : ValidatorDag). d.validator) dags });
  verify_proof = λ proof verifier program. some ([]);
  verify_recursive_proof = λ proof verifier program. none;
  validator_pubkey = alice;
}

entry_known :
    (lane_id : LaneId) (hash : DataProposalHash) (le : LaneEntryMetadata)
    → get_metadata_by_hash two_lanes lane_id hash ≡ ok (some le)
    → ((hash ≡ "d1") × (le ≡ first_meta)) ⊎ ((hash ≡ "d2") × (le ≡ second_meta))
unfolding get_metadata_by_hash lookup
entry_known lane_id hash le e = elim (Bool-cases (alice == lane_id)) [
  | inr other ↦ absurd (ground (arith, e, other))
  | inl same ↦ elim (Bool-cases ("d1" == hash)) [
    | inl d1 ↦ inl (sym (key_eq "d1" hash d1), ground (arith, e, same, d1))
    | inr not_d1 ↦ elim (Bool-cases ("d2" == hash)) [
      | inl d2 ↦ inr (sym (key_eq "d2" hash d2), ground (arith, e, same, not_d1, d2))
      | inr not_d2 ↦ absurd (ground (arith, e, same, not_d1, not_d2))
    ]
  ]
]

hashes_differ : (◌≢◌ {A = String}) "d1" "d2"
hashes_differ e = false≢true (sym (ap (λ h. h == "d1") e))

entries_grow : AllGrow two_lanes 22
entries_grow lane_id = (
  λ hash parent le le' e p f. elim (entry_known lane_id hash le e) [
    | inl first ↦ absurd (ground (arith, first.1, p))
    | inr second ↦ elim (entry_known lane_id parent le' f) [
      | inl first ↦
          subst (λ (m : LaneEntryMetadata). le'.cumul_size < m.cumul_size) (sym second.1)
            (subst (λ (m : LaneEntryMetadata). m.cumul_size < 20) (sym first.1) (omega arith))
      | inr again ↦ absurd (hashes_differ (ground (arith, second.1, again.0, p)))
    ]
  ],
  λ hash le e. elim (entry_known lane_id hash le e) [
    | inl first ↦
        subst (λ (m : LaneEntryMetadata). m.cumul_size + 1 < 22) (sym first.1) (omega arith)
    | inr second ↦
        subst (λ (m : LaneEntryMetadata). m.cumul_size + 1 < 22) (sym second.1) (omega arith)
  ],
)

abbrev state : Mempool
state = record {
  lanes = two_lanes;
  waiting_dissemination_txs = [];
  own_data_proposal_in_preparation = [];
  buffered_proposals = [];
  buffered_podas = [];
  cached_dp_votes = [];
  blocks_under_construction = [];
  buc_build_start_height = none;
  last_ccp = none;
  staking = stakes;
  known_contracts = ("token", ("test", 1 ∷ [])) ∷ [];
  outputs = [];
}

abbrev poda : AggregateSignature
poda = record { signature = 7 ∷ []; validators = alice ∷ bob ∷ [] }

-- The cut of both data proposals, after a genesis without any.
abbrev committed : BlockUnderConstruction
committed = record {
  from = none;
  ccp = record {
    staking = stakes;
    consensus_proposal = record default_proposal { slot = 1; cut = (alice, "d2", 20, poda) ∷ [] };
    certificate = poda;
  };
}

built-AllPaths_example :
    let (result, s') = build_signed_block_and_emit 22 committed state in
    ((result ≡ ok tt)
      × ((dps : List (LaneId × List DataProposal)) × AllPaths two_lanes none
            ((alice, "d2", 20, poda) ∷ [])
            dps
          × (s' ≡ record state {
            outputs = built_signed_block dps poda committed.ccp.consensus_proposal ∷ [];
          })))
    ⊎ ((x : MempoolError) × (result ≡ err x) × (x ≢ out_of_fuel))
built-AllPaths_example = built-AllPaths 22 committed state entries_grow (omega arith)

block_is_built : (build_signed_block_and_emit 22 committed state).0 ≡ ok tt
unfolding build_signed_block_and_emit lookup reading ◌>>=◌
block_is_built = refl

latest_car-IsVoted_example :
    let result = get_latest_car test_env 22 two_lanes alice stakes none in
    ((car : Car) × (result ≡ ok (some car)) × IsVoted test_env two_lanes alice stakes none car)
    ⊎ (result ≡ ok none)
    ⊎ (result ≡ err unknown_lane)
latest_car-IsVoted_example =
    latest_car-IsVoted test_env two_lanes alice stakes 22 none (entries_grow alice).0
      (entries_grow alice).1 (omega arith)

-- Alice's power alone is not enough for the tip: the car is its parent.
car_of_parent : get_latest_car test_env 22 two_lanes alice stakes none ≡ ok (some ("d1", 10, poda))
unfolding get_latest_car lookup
car_of_parent = refl

abbrev token_proof : VerifiedProofTransaction
token_proof = record {
  contract_name = "token";
  proof = some (3 ∷ []);
  proof_hash = "proof";
  proof_size = 1;
  proven_blobs = [];
  is_recursive = false;
}

abbrev proven_dp : DataProposal
proven_dp = record {
  parent_data_proposal_hash = some "d2";
  txs = verified_proof_transaction token_proof ∷ [];
}

-- The proof is of an output that says the opposite of what the transaction claims.
abbrev lying_env : MempoolEnv
lying_env = record test_env {
  verify_proof = λ proof verifier program. some (output_of false [] [] ∷ []);
}

abbrev lie : VerifiedProofTransaction
lie = record token_proof {
  proven_blobs =
      record {
        blob_tx_hash = "first";
        original_proof_hash = "proof";
        hyle_output = output_of true [] [];
        program_id = 1 ∷ [];
      }
      ∷ [];
}

claims_unchecked_example :
    (process_data_proposal lying_env state.known_contracts
      (record { parent_data_proposal_hash = none; txs = verified_proof_transaction lie ∷ [] })).0
    ≡ vote
unfolding contract_of lookup
claims_unchecked_example =
    claims_unchecked lying_env state.known_contracts none lie (3 ∷ []) ("test", 1 ∷ [])
      (output_of false [] [] ∷ []) refl refl refl refl refl

clean_removes_one_example :
    let (result, s') = clean_and_update_lane test_env alice none "d3" 30 two_lanes in
    (result ≡ ok tt)
    × (get_lane_hash_tip s' alice ≡ some "d3")
    × (get_entry s' alice "d1" ≡ some (first_meta, first_dp))
unfolding get_lane_hash_tip get_entry lookup
clean_removes_one_example =
    clean_removes_one test_env alice two_lanes "d2" "d3" none 30 "d1" refl refl refl

abbrev raw_proof : ProofTransaction
raw_proof = record { contract_name = "token"; proof = 3 ∷ [] }

processed-IsAccepted_example :
    accepts_tx test_env state.known_contracts []
      (verified_proof_transaction (record token_proof { proof_size = 10 }))
    ≡ true
unfolding process_proof_tx lookup
processed-IsAccepted_example =
    processed-IsAccepted test_env state.known_contracts [] raw_proof
      (verified_proof_transaction (record token_proof { proof_size = 10 })) refl refl

abbrev one_waits : Mempool
one_waits = record state { waiting_dissemination_txs = ("tx", blob_transaction transfer) ∷ [] }

prepared_conserves_example :
    let (prepared, s') = init_dp_preparation_if_pending test_env one_waits in
    (blob_transaction transfer ∷ []
      ≡ blob_transaction transfer ∷ transactions s'.waiting_dissemination_txs)
    × (is_empty (blob_transaction transfer ∷ []) ≡ false)
    × (some "d2" ≡ get_lane_hash_tip two_lanes alice)
unfolding init_dp_preparation_if_pending lookup
prepared_conserves_example =
    prepared_conserves test_env one_waits
      (record { parent_data_proposal_hash = some "d2"; txs = blob_transaction transfer ∷ [] }) refl
