-- ===== src/Consensus/Tests.antt =====
-- The consensus at concrete inputs: three validators of stake 40, a follower at slot 5.
use hyle.Prelude.{
  ◌≡◌, refl, ◌+◌, ◌≤◌, ◌%◌, true, Option, none, some, List, [], ◌∷◌, map, arith, nat_eq,
  if◌then◌else◌,
}
use hyle.Model.{Bytes, ValidatorPublicKey}
use hyle.Contracts.Staking.{Staking, compute_voting_power, compute_f, distribute_fees, get_stake}
use hyle.Prelude.Exec.{reading, ◌>>=◌}
use hyle.Prelude.Map.{lookup}
use hyle.Prelude.Sets.{mem}
use hyle.Contracts.Staking.Power.{common, sum_where}
use hyle.Proposals.{AggregateSignature, default_proposal}
use hyle.Consensus.Messages.{
  SignedContent, prepare_vote_content, confirm_ack_content, commit, ConsensusNetMessage,
}
use hyle.Consensus.{
  Env, no_check, Consensus, default_leader, follower_tag, inactive, commit_consensus_proposal,
}
use hyle.Consensus.Round.{check_quorum_certificate, current_slot_prepare_is_present}
use hyle.Consensus.Follower.{on_confirm, on_commit}
use hyle.Consensus.Handler.{handle_net_message}
use hyle.Consensus.Runs.{here, by_message}
use hyle.Consensus.Quorums.{HasExactBond, quorums_meet}
use hyle.Consensus.Markers.{HasSent, votes_commit}
use hyle.Consensus.Certified.{CommitsCertified, Reaches-CommitsCertified}
use hyle.Consensus.HighestQc.{HoldsQc, Reaches-HoldsQc}

abbrev alice_key : ValidatorPublicKey
alice_key = 1 ∷ []

abbrev bob_key : ValidatorPublicKey
bob_key = 2 ∷ []

abbrev carol_key : ValidatorPublicKey
carol_key = 3 ∷ []

abbrev stakes : Staking
stakes = record {
  stakes = ("alice", 40) ∷ ("bob", 40) ∷ ("carol", 40) ∷ [];
  delegations = (alice_key, "alice" ∷ []) ∷ (bob_key, "bob" ∷ []) ∷ (carol_key, "carol" ∷ []) ∷ [];
  bonded = alice_key ∷ bob_key ∷ carol_key ∷ [];
  total_bond = 120;
  fees = record { pending_fees = []; balances = [] };
}

abbrev test_encode : SignedContent → Bytes
test_encode (prepare_vote_content h) = 1 ∷ []
test_encode (confirm_ack_content h) = 1 ∷ []
test_encode _ = 2 ∷ []

-- Every signature holds, and Alice's node handles the events.
abbrev test_env : Env
test_env = record {
  encode = test_encode;
  verify_aggregate = λ qc m. some true;
  verify = λ s v m. some true;
  sign = λ m. some (9 ∷ []);
  aggregate = λ m ss. some (record {
    signature = 9 ∷ [];
    validators = map (λ (s : Bytes × ValidatorPublicKey). s.1) ss;
  });
  hashed = λ p. if nat_eq p.slot 5 then "five" else "other";
  validator_pubkey = alice_key;
  choose = λ vs. none;
  now = 1000;
  timeout_after = 100;
  slot_duration = 50;
  timestamp_checks = no_check;
  public_address = "alice:80";
}

abbrev all_signed : AggregateSignature
all_signed = record { signature = 7 ∷ []; validators = alice_key ∷ bob_key ∷ carol_key ∷ [] }

abbrev node : Consensus
node = record {
  staking = stakes;
  slot = 5;
  view = 0;
  parent_hash = "four";
  parent_timestamp = 900;
  parent_cut = [];
  current_proposal = record default_proposal { slot = 5; parent_hash = "four" };
  leader = default_leader;
  follower = record {
    buffered_quorum_certificate = none;
    buffered_prepares = record { prepares = []; children = [] };
  };
  timeouts = record {
    requests = [];
    timeout_state = inactive;
    highest_seen_prepare_qc = some (4, all_signed);
  };
  staking_updated_to = 0;
  state_tag = follower_tag;
  validator_candidates = [];
  sent = [];
}

abbrev choose_none : List ValidatorPublicKey → Option ValidatorPublicKey
choose_none vs = none

abbrev commit_message : ConsensusNetMessage
commit_message = commit all_signed "five"

abbrev after_commit : Consensus
after_commit =
    (handle_net_message (record test_env { now = 2000; choose = choose_none }) 3 bob_key
      commit_message node).1

commit_moves : (after_commit.slot ≡ 6) × (after_commit.view ≡ 0)
unfolding handle_net_message reading ◌>>=◌ lookup distribute_fees
commit_moves = (refl, refl)

exact_bond : HasExactBond stakes
unfolding mem sum_where get_stake lookup
exact_bond = record { distinct = (refl, (refl, (refl, tt))); total = refl; fits = omega arith }

quorums_meet_example :
    compute_f stakes + 2
    ≤ compute_voting_power stakes (common all_signed.validators all_signed.validators) + 120 % 3
unfolding check_quorum_certificate lookup
quorums_meet_example =
    quorums_meet test_env stakes (confirm_ack_content "five") (confirm_ack_content "five")
      all_signed all_signed exact_bond refl refl

votes_commit_example :
    HasSent test_env
      (commit_consensus_proposal stakes node.current_proposal all_signed)
      (on_commit test_env all_signed "five" node).1
unfolding on_confirm reading ◌>>=◌ lookup current_slot_prepare_is_present
votes_commit_example = votes_commit test_env all_signed node refl refl refl refl

Reaches-CommitsCertified_example : CommitsCertified test_env after_commit
Reaches-CommitsCertified_example =
    Reaches-CommitsCertified test_env node tt
      (by_message 2000 choose_none 3 bob_key commit_message here)

Reaches-HoldsQc_example : HoldsQc 4 after_commit
Reaches-HoldsQc_example =
    Reaches-HoldsQc test_env node 4 (4, all_signed, refl, omega arith)
      (by_message 2000 choose_none 3 bob_key commit_message here)
