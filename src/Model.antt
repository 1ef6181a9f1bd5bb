-- ===== src/Model.antt =====
-- The data that blocks carry (crates/hyle-model/src/contract.rs, transaction.rs, staking.rs,
-- node/data_availability.rs). Hashes, names and identities are texts, commitments and program ids
-- are bytes. Borsh and sha3 are not code of the repository: what the node uses of them is `Codec`.
use hyle.Prelude.{
  ℕ, String, ◌≡◌, ◌↔◌, refl, Bool, true, false, ◌&&◌, ◌||◌, Option, List, [], ◌∷◌, arith, ltb,
  nat_eq,
}
use hyle.Prelude.Key.{Key, nat_key, string_key}
use hyle.Prelude.Map.{Map}

abbrev pub ContractName : Type 0
ContractName = String

abbrev pub TxHash : Type 0
TxHash = String

abbrev pub Identity : Type 0
Identity = String

abbrev pub Verifier : Type 0
Verifier = String

abbrev pub BlobIndex : Type 0
BlobIndex = ℕ

abbrev pub BlockHeight : Type 0
BlockHeight = ℕ

abbrev pub Bytes : Type 0
Bytes = List ℕ

abbrev pub ProgramId : Type 0
ProgramId = Bytes

abbrev pub StateCommitment : Type 0
StateCommitment = Bytes

abbrev pub ValidatorPublicKey : Type 0
ValidatorPublicKey = Bytes

abbrev pub bytes_eq : Bytes → Bytes → Bool
bytes_eq [] [] = true
bytes_eq (a ∷ as') (b ∷ bs) = nat_eq a b && bytes_eq as' bs
bytes_eq _ _ = false

abbrev pub bytes_before : Bytes → Bytes → Bool
bytes_before _ [] = false
bytes_before [] (b ∷ bs) = true
bytes_before (a ∷ as') (b ∷ bs) = ltb a b || (nat_eq a b && bytes_before as' bs)

bytes_eq_refl : (a : Bytes) → bytes_eq a a ≡ true
bytes_eq_refl [] = refl
bytes_eq_refl (x ∷ xs) = ground (arith, bytes_eq_refl xs)

bytes_eq-eq : (a b : Bytes) → bytes_eq a b ≡ true → a ≡ b
bytes_eq-eq [] [] h = refl
bytes_eq-eq [] (y ∷ ys) h = ground arith
bytes_eq-eq (x ∷ xs) [] h = ground arith
bytes_eq-eq (x ∷ xs) (y ∷ ys) h = ground (arith, bytes_eq-eq xs ys)

pub bytes_eq_iff : (a b : Bytes) → (bytes_eq a b ≡ true) ↔ (a ≡ b)
bytes_eq_iff a b = (bytes_eq-eq a b, λ e. ground (arith, bytes_eq_refl a))

instance abbrev pub bytes_key : Key Bytes
bytes_key = record { beq = bytes_eq; before = bytes_before; beq_iff = bytes_eq_iff }

pub record Blob : Type 0 where
  pub contract_name : ContractName
  pub blob_data : Bytes

-- `IndexedBlobs`
abbrev pub IndexedBlobs : Type 0
IndexedBlobs = List (BlobIndex × Blob)

pub data TimeoutWindow : Type 0 where
  no_timeout : TimeoutWindow
  timeout : BlockHeight → TimeoutWindow

-- `TimeoutWindow::default()`
abbrev pub default_timeout_window : TimeoutWindow
default_timeout_window = timeout 100

pub record TxContext : Type 0 where
  pub lane_id : ValidatorPublicKey
  pub block_hash : String
  pub block_height : BlockHeight
  pub timestamp : ℕ
  pub chain_id : ℕ

pub record RegisterContractAction : Type 0 where
  pub verifier : Verifier
  pub program_id : ProgramId
  pub state_commitment : StateCommitment
  pub contract_name : ContractName
  pub timeout_window : Option TimeoutWindow
  pub constructor_metadata : Option Bytes

pub record RegisterContractEffect : Type 0 where
  pub verifier : Verifier
  pub program_id : ProgramId
  pub state_commitment : StateCommitment
  pub contract_name : ContractName
  pub timeout_window : Option TimeoutWindow

-- `RegisterContractEffect::from`
unfoldable pub effect_of_action : RegisterContractAction → RegisterContractEffect
effect_of_action a = record {
  verifier = a.verifier;
  program_id = a.program_id;
  state_commitment = a.state_commitment;
  contract_name = a.contract_name;
  timeout_window = a.timeout_window;
}

pub record UpdateContractProgramIdAction : Type 0 where
  pub contract_name : ContractName
  pub program_id : ProgramId

pub record UpdateContractTimeoutWindowAction : Type 0 where
  pub contract_name : ContractName
  pub timeout_window : TimeoutWindow

pub record DeleteContractAction : Type 0 where
  pub contract_name : ContractName

pub data OnchainEffect : Type 0 where
  register_contract : RegisterContractEffect → OnchainEffect
  delete_contract : ContractName → OnchainEffect

pub record HyleOutput : Type 0 where
  pub version : ℕ
  pub initial_state : StateCommitment
  pub next_state : StateCommitment
  pub identity : Identity
  pub index : BlobIndex
  pub blobs : IndexedBlobs
  pub tx_blob_count : ℕ
  pub tx_hash : TxHash
  pub success : Bool
  pub state_reads : List (ContractName × StateCommitment)
  pub tx_ctx : Option TxContext
  pub onchain_effects : List OnchainEffect
  pub program_outputs : Bytes

pub record Contract : Type 0 where
  pub name : ContractName
  pub program_id : ProgramId
  pub state : StateCommitment
  pub verifier : Verifier
  pub timeout_window : TimeoutWindow

abbrev pub BlobsHashes : Type 0
BlobsHashes = Map BlobIndex String

pub record UnsettledBlobMetadata : Type 0 where
  pub blob : Blob
  pub possible_proofs : List (ProgramId × HyleOutput)

pub record UnsettledBlobTransaction : Type 0 where
  pub identity : Identity
  pub parent_dp_hash : String
  pub hash : TxHash
  pub tx_context : TxContext
  pub blobs_hash : BlobsHashes
  pub blobs : Map BlobIndex UnsettledBlobMetadata

pub data StakingAction : Type 0 where
  stake : ℕ → StakingAction
  delegate : ValidatorPublicKey → StakingAction
  distribute : List BlockHeight → StakingAction
  deposit_for_fees : ValidatorPublicKey → ℕ → StakingAction

pub record HandledBlobProofOutput : Type 0 where
  pub proof_tx_hash : TxHash
  pub blob_tx_hash : TxHash
  pub blob_index : BlobIndex
  pub contract_name : ContractName
  pub hyle_output : HyleOutput
  pub blob_proof_output_index : ℕ

pub record BlobProofOutput : Type 0 where
  pub blob_tx_hash : TxHash
  pub original_proof_hash : String
  pub hyle_output : HyleOutput
  pub program_id : ProgramId

-- The hashes of a transaction and of its data proposal come with it, in its `TxId`.
pub record BlobTransaction : Type 0 where
  pub identity : Identity
  pub blobs : List Blob

pub record ProofTransaction : Type 0 where
  pub contract_name : ContractName
  pub proof : Bytes

pub record VerifiedProofTransaction : Type 0 where
  pub contract_name : ContractName
  pub proof : Option Bytes
  pub proof_hash : String
  pub proof_size : ℕ
  pub proven_blobs : List BlobProofOutput
  pub is_recursive : Bool

pub data TransactionData : Type 0 where
  blob_transaction : BlobTransaction → TransactionData
  proof_transaction : ProofTransaction → TransactionData
  verified_proof_transaction : VerifiedProofTransaction → TransactionData

-- Code that is not the repository's: `StructuredBlobData::<T>::try_from(data)` for each action
-- type (borsh), `Blob::hashed` (sha3), `hyle_verifiers::validate_program_id` (risc0, sp1),
-- `hyle_verifiers::native::verify`, and whether the secp256k1 blob beside a nuke is signed with the
-- key of the environment (blst, k256).
pub record Codec : Type 0 where
  pub register : Bytes → Option RegisterContractAction
  pub delete : Bytes → Option DeleteContractAction
  pub update_program_id : Bytes → Option UpdateContractProgramIdAction
  pub update_timeout_window : Bytes → Option UpdateContractTimeoutWindowAction
  pub staking_action : Bytes → Option StakingAction
  pub nuke : Bytes → Option (Map TxHash (List HyleOutput))
  pub hashed : Blob → String
  pub valid_program_id : Verifier → ProgramId → Bool
  pub native_verify : TxHash → BlobIndex → List Blob → Verifier → HyleOutput
  pub nuke_is_signed : Identity → List Blob → BlobIndex → Map TxHash (List HyleOutput) → Bool
