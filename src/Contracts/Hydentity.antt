-- ===== src/Contracts/Hydentity.antt =====
-- Identities with a password and a nonce: crates/contracts/hydentity/src/lib.rs and
-- identity_provider.rs. A method that takes `&mut self` returns its result and the state that it
-- leaves, on an error too. `sha256` is sha2's hash in hexadecimal.
pub mod Ids
pub mod Nonces
use hyle.Prelude.{
  ◌≡◌, ℕ, ◌+◌, ◌%◌, String, Bool, true, false, not, Option, none, some, List, [], if◌then◌else◌,
  nat_eq, is_some, Result, ok, err,
}
use Prim.Native.String.{◌++◌}
use hyle.Prelude.Key.{◌==◌, string_key}
use hyle.Prelude.Texts.{next_part}
use hyle.Prelude.Word.{u32_mod}
use hyle.Prelude.Map.{Map, lookup, insert, contains_key}

pub record AccountInfo : Type 0 where
  pub hash : String
  pub nonce : ℕ

pub record Hydentity : Type 0 where
  pub identities : Map String AccountInfo

pub data HydentityAction : Type 0 where
  register_identity_of : String → HydentityAction
  verify_identity_of : String → ℕ → HydentityAction
  get_identity_info_of : String → HydentityAction

pub data HydentityError : Type 0 where
  no_hash invalid_hash already_exists invalid_nonce identity_not_found : HydentityError
  verification_failed : HydentityError

pub data HydentityOutput : Type 0 where
  registered : String → HydentityOutput
  verified : String → HydentityOutput
  info_is : String → AccountInfo → HydentityOutput

unfoldable pub get_identity_info : Hydentity → String → Result HydentityError AccountInfo
get_identity_info h account = elim (lookup account h.identities) [
  | some info ↦ ok info
  | none ↦ err identity_not_found
]

unfoldable pub get_nonce : Hydentity → String → Result HydentityError ℕ
get_nonce h username = elim (get_identity_info h username) [
  | ok info ↦ ok info.nonce
  | err e ↦ err e
]

unfoldable pub parse_id : String → Result HydentityError (String × String)
parse_id id =
    let (name, rest) = next_part b':' id in
    elim rest [ none ↦ err no_hash | some after ↦ ok (name, (next_part b':' after).0) ]

module _ (sha256 : String → String) where
  -- The hash of `{name}:{private_input}`.
  abbrev pub id_hash : String → String → String
  id_hash name private_input = sha256 (name ++ ":" ++ private_input)

  -- `account_info` of a registration
  abbrev pub new_account : String → String → AccountInfo
  new_account name private_input = record { hash = id_hash name private_input; nonce = 0 }

  unfoldable pub build_id : String → String → String
  build_id account private_input = account ++ ":" ++ id_hash account private_input

  -- The insertion comes before the test: an identity that exists is overwritten, and the error has
  -- the contract's state reverted.
  unfoldable pub register_identity :
      Hydentity → String → String → Result HydentityError (Unit {0}) × Hydentity
  register_identity h registration private_input =
      let (name, rest) = next_part b':' registration in
      elim rest [
        | none ↦ (err no_hash, h)
        | some after ↦
            let account_info = new_account name private_input in
            if not ((next_part b':' after).0 == account_info.hash) then (err invalid_hash, h) else (
              if contains_key name h.identities then err already_exists else ok tt,
              record { identities = insert name account_info h.identities },
            )
      ]

  unfoldable pub verify_identity :
      Hydentity → String → ℕ → String → Result HydentityError Bool × Hydentity
  verify_identity h account nonce private_input = elim (lookup account h.identities) [
    | none ↦ (err identity_not_found, h)
    | some info ↦
        if not (nat_eq nonce info.nonce)
        then (err invalid_nonce, h)
        else if not (info.hash == id_hash account private_input)
        then (ok false, h)
        else (
          ok true,
          record {
            identities =
                insert account (record info { nonce = (info.nonce + 1) % u32_mod }) h.identities;
          },
        )
  ]

  unfoldable pub execute_identity_action :
      Hydentity → HydentityAction → String → Result HydentityError HydentityOutput × Hydentity
  execute_identity_action h (register_identity_of account) private_input =
      let (result, h') = register_identity h account private_input in
      (elim result [ ok done ↦ ok (registered account) | err e ↦ err e ], h')
  execute_identity_action h (verify_identity_of account nonce) private_input =
      let (result, h') = verify_identity h account nonce private_input in
      (
        elim result [
          | ok true ↦ ok (verified account)
          | ok false ↦ err verification_failed
          | err e ↦ err e
        ],
        h',
      )
  execute_identity_action h (get_identity_info_of account) private_input = (
    elim (get_identity_info h account) [ ok info ↦ ok (info_is account info) | err e ↦ err e ],
    h,
  )
