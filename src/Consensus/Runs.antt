-- ===== src/Consensus/Runs.antt =====
-- What a node comes to by the events that its consensus handles (`start` of src/consensus.rs): messages
-- of any sender, commands, and blocks of the node state, with any clock and any choice of peers.
use hyle.Prelude.{ℕ, Option, List}
use hyle.Model.{ValidatorPublicKey}
use hyle.NodeState.Block.{Block}
use hyle.Proposals.{TimestampMs, Cut, ConsensusProposalHash}
use hyle.Consensus.Messages.{ConsensusNetMessage}
use hyle.Consensus.{Env, Consensus}
use hyle.Consensus.Handler.{
  ConsensusCommand, handle_net_message, handle_command, handle_node_state_event,
}

pub data Reaches (env : Env) (start : Consensus) : Consensus → Type 0 where
  here : Reaches env start start
  by_message :
      {s : Consensus} (now : TimestampMs)
      (choose : List ValidatorPublicKey → Option ValidatorPublicKey) (fuel : ℕ)
      (sender : ValidatorPublicKey) (message : ConsensusNetMessage)
      → Reaches env start s
      → Reaches env start
          (handle_net_message (record env { now = now; choose = choose }) fuel sender message s).1
  by_command :
      {s : Consensus} (now : TimestampMs) (cut : Option Cut) (command : ConsensusCommand)
      → Reaches env start s
      → Reaches env start (handle_command (record env { now = now }) cut command s).1
  by_block :
      {s : Consensus} (block : Block) (hash : ConsensusProposalHash)
      (bonded : List ValidatorPublicKey)
      → Reaches env start s
      → Reaches env start (handle_node_state_event env block hash bonded s).1
