-- ===== src/Contracts/Hydentity/Nonces.antt =====
-- The identities of crates/contracts/hydentity/src/lib.rs: what a verification reads and leaves, and
-- what a registration does.
use hyle.Prelude.{
  ◌≡◌, ℕ, ◌+◌, ◌%◌, String, true, false, none, some, arith, Option-cases, inl, inr, ok, err,
}
use hyle.Prelude.Key.{◌==◌, string_key, key_eq}
use hyle.Prelude.Texts.{next_part}
use hyle.Prelude.Word.{u32_mod}
use hyle.Prelude.Map.{lookup, lookup-insert, lookup-insert_self}
use hyle.Contracts.Hydentity.{
  Hydentity, HydentityError, HydentityAction, register_identity_of, verify_identity_of,
  get_identity_info_of, get_identity_info, execute_identity_action, invalid_nonce, new_account,
  already_exists, id_hash, register_identity, verify_identity,
}

module _ (sha256 : String → String) (h : Hydentity) where
  verified_entry :
      (account : String) (nonce : ℕ) (private_input : String) (h' : Hydentity)
      → verify_identity sha256 h account nonce private_input ≡ (ok true, h')
      → lookup account h'.identities
        ≡ some
            (record { hash = id_hash sha256 account private_input; nonce = (nonce + 1) % u32_mod })
  unfolding verify_identity
  verified_entry account nonce private_input h' e =
      elim (Option-cases (lookup account h.identities)) [
        | inl f ↦ absurd (ground arith)
        | inr (info, f) ↦ ground (
          arith,
          key_eq info.hash (id_hash sha256 account private_input),
          lookup-insert_self account (record info { nonce = (info.nonce + 1) % u32_mod })
              h.identities,
        )
      ]

  -- A nonce that a verification accepted is refused by the next one, whatever the password.
  pub nonce_serves_once :
      (account : String) (nonce : ℕ) (private_input other_input : String) (h' : Hydentity)
      → verify_identity sha256 h account nonce private_input ≡ (ok true, h')
      → verify_identity sha256 h' account nonce other_input ≡ (err invalid_nonce, h')
  unfolding verify_identity
  nonce_serves_once account nonce private_input other_input h' e =
      ground (arith, verified_entry account nonce private_input h' e)

  -- A registration that succeeds was of a name that no one had, under the hash of the password, and
  -- leaves that identity with nonce 0 and every other one as it was.
  pub registered_was_free :
      (registration private_input : String) (h' : Hydentity)
      → register_identity sha256 h registration private_input ≡ (ok tt, h')
      → (lookup (next_part b':' registration).0 h.identities ≡ none)
        × (lookup (next_part b':' registration).0 h'.identities
            ≡ some (new_account sha256 (next_part b':' registration).0 private_input))
        × ((other : String)
            → ((next_part b':' registration).0 == other) ≡ false
            → lookup other h'.identities ≡ lookup other h.identities)
  unfolding register_identity
  registered_was_free registration private_input h' e =
      elim (Option-cases (next_part b':' registration).1) [
        | inl f ↦ absurd (ground (arith, e, f))
        | inr (after, f) ↦
            elim (Option-cases (lookup (next_part b':' registration).0 h.identities)) [
              | inr (info, g) ↦ absurd (ground (arith, e, f, g))
              | inl g ↦ (
                g,
                ground (
                  arith,
                  e,
                  f,
                  g,
                  lookup-insert_self (next_part b':' registration).0
                      (new_account sha256 (next_part b':' registration).0 private_input)
                      h.identities,
                ),
                λ other k. ground (
                  arith,
                  e,
                  f,
                  g,
                  k,
                  lookup-insert (next_part b':' registration).0 other
                      (new_account sha256 (next_part b':' registration).0 private_input)
                      h.identities,
                ),
              )
            ]
      ]

  -- An action that fails leaves every identity as it was, unless it is the registration of a name
  -- that is taken.
  pub failed_action-Preserves :
      (action : HydentityAction) (private_input : String) (e : HydentityError) (h' : Hydentity)
      → execute_identity_action sha256 h action private_input ≡ (err e, h')
      → ¬ (e ≡ already_exists)
      → (account : String) → lookup account h'.identities ≡ lookup account h.identities
  unfolding execute_identity_action register_identity verify_identity get_identity_info
  failed_action-Preserves (register_identity_of name) private_input e h' p q account = ground arith
  failed_action-Preserves (verify_identity_of name nonce) private_input e h' p q account =
      ground arith
  failed_action-Preserves (get_identity_info_of name) private_input e h' p q account = ground arith
