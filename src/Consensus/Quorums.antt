-- ===== src/Consensus/Quorums.antt =====
-- Two certificates of one set of stakes: `verify_quorum_certificate` of src/consensus.rs over
-- `compute_f` and `compute_voting_power` of crates/contracts/staking/src/state.rs.
use hyle.Prelude.{
  ◌≡◌, subst, ◌+◌, ◌≤◌, ◌<◌, ◌%◌, true, some, all, Option-cases, inl, inr, ok, arith,
}
use hyle.Prelude.Sets.{Distinct}
use hyle.Prelude.Word.{u128_mod}
use hyle.Model.{bytes_key}
use hyle.Proposals.{AggregateSignature}
use hyle.Contracts.Staking.{Staking, compute_voting_power, compute_f, is_bonded}
use hyle.Contracts.Staking.Power.{weight, weights, common, compute_voting_power-meet}
use hyle.Consensus.Messages.{SignedContent}
use hyle.Consensus.{Env}
use hyle.Consensus.Round.{check_quorum_certificate, verify_quorum_signers_part_of_consensus, quorum}

-- The total bond is the stake of the bonded validators, each bonded once.
pub record HasExactBond (s : Staking) : Type 0 where
  pub distinct : Distinct s.bonded
  pub total : s.total_bond ≡ weights (weight s) s.bonded
  pub fits : s.total_bond < u128_mod

module _ (env : Env) (s : Staking) where
  -- The signature of a certificate that is accepted holds, its signers are bonded and they have
  -- 2 * f + 1 of the power.
  pub accepted_certificate :
      (content : SignedContent) (qc : AggregateSignature)
      → check_quorum_certificate env s content qc ≡ ok tt
      → (env.verify_aggregate qc (env.encode content) ≡ some true)
        × (all (λ v. is_bonded s v) qc.validators ≡ true)
        × (quorum s ≤ compute_voting_power s qc.validators)
  unfolding check_quorum_certificate verify_quorum_signers_part_of_consensus
  accepted_certificate content qc e =
      elim (Option-cases (env.verify_aggregate qc (env.encode content))) [
        | inl f ↦ absurd (ground arith)
        | inr (valid, f) ↦ (ground arith, ground arith, ground arith)
      ]

  -- Where the total bond is exact, the signers that two accepted certificates share have at least
  -- f + 2 of the power, less what the total bond leaves when it is divided by 3: more than f where
  -- that is 0 or 1, and f where it is 2.
  pub quorums_meet :
      (first second : SignedContent) (qc qc' : AggregateSignature)
      → HasExactBond s
      → check_quorum_certificate env s first qc ≡ ok tt
      → check_quorum_certificate env s second qc' ≡ ok tt
      → compute_f s + 2
        ≤ compute_voting_power s (common qc.validators qc'.validators) + s.total_bond % 3
  unfolding compute_f quorum
  quorums_meet first second qc qc' exact e f =
      let a = accepted_certificate first qc e in
      let b = accepted_certificate second qc' f in
      omega (
        arith,
        exact.total,
        exact.fits,
        a.2,
        b.2,
        compute_voting_power-meet s exact.distinct
            (subst (λ n. n < u128_mod) exact.total exact.fits) qc.validators qc'.validators a.1 b.1,
      )
