-- ===== src/NodeState/Registration.antt =====
-- crates/hyle-modules/src/node_state/contract_registration.rs
pub mod Laws
use Prim.Native.Char.{Char, code}
use Prim.Native.String
use hyle.Prelude.{
  ℕ, ◌*◌, ◌≡◌, String, Bool, true, false, ◌&&◌, ◌||◌, not, Option, none, some, List, length, nat_eq,
  ltb, leb, if◌then◌else◌, is_some, Result, ok, err, ensure, ◌>>◌,
}
use hyle.Prelude.Key.{◌==◌, string_key}
use hyle.Model.{Codec, ContractName, ProgramId, StateCommitment, Verifier}
use hyle.NodeState.Changes.{
  Error, no_dot, empty_name_or_tld, invalid_subdomain, invalid_program_id, state_too_long,
}

-- `str::split_once(".")`: what stands before and after the first dot.
unfoldable pub split_once : String → Option (String × String)
split_once String.[] = none
split_once (String.◌∷◌ c s) =
    let rest = split_once s in
    if nat_eq (code c) b'.'
    then some (String.[], s)
    else elim rest [ none ↦ none | some (a, b) ↦ some (String.◌∷◌ c a, b) ]

-- `str::contains(".")`
abbrev pub contains_dot : String → Bool
contains_dot s = is_some (split_once s)

unfoldable pub validate_subdomain : ContractName → ContractName → Result Error (Unit {0})
validate_subdomain owner new_name = elim (split_once new_name) [
  | none ↦ err no_dot
  | some (name, tld) ↦
      if name == "" || tld == ""
      then err empty_name_or_tld
      else if not (tld == owner)
      then err invalid_subdomain
      else ok tt
]

unfoldable pub validate_contract_name_registration :
    ContractName → ContractName → Result Error (Unit {0})
unfolding validate_subdomain
validate_contract_name_registration owner new_name =
    if owner == "hyle"
    then (if new_name == "hyle" || (not (new_name == "") && not (contains_dot new_name))
        then ok tt
        else validate_subdomain owner new_name)
    else if owner == new_name && not (owner == "")
    then ok tt
    else validate_subdomain owner new_name

-- 10 Mb
abbrev pub max_state_commitment_size : ℕ
max_state_commitment_size = 10 * 1024 * 1024

unfoldable pub validate_state_commitment_size : StateCommitment → Result Error (Unit {0})
validate_state_commitment_size state =
    if ltb max_state_commitment_size (length state) then err state_too_long else ok tt

unfoldable pub validate_contract_registration_metadata :
    Codec
    → ContractName
    → ContractName
    → Verifier
    → ProgramId
    → StateCommitment
    → Result Error (Unit {0})
validate_contract_registration_metadata codec owner new_name verifier program_id state = do
  validate_contract_name_registration owner new_name
  ensure (codec.valid_program_id verifier program_id) invalid_program_id
  validate_state_commitment_size state
