-- ===== src/Contracts/IdentityTests.antt =====
-- Identities at concrete inputs, with a table in place of the hash.
use hyle.Prelude.{◌≡◌, refl, String, ok, err, none, some, false, [], ◌∷◌, if◌then◌else◌, arith}
use hyle.Prelude.Key.{◌==◌, string_key}
use hyle.Prelude.Texts.{next_part}
use hyle.Prelude.Map.{lookup, insert, place, replace}
use hyle.Contracts.Hydentity.{
  AccountInfo, Hydentity, build_id, register_identity, verify_identity, execute_identity_action,
  verify_identity_of, invalid_nonce, verification_failed, already_exists,
}
use hyle.Contracts.Hydentity.Ids.{built_id_registers}
use hyle.Contracts.Hydentity.Nonces.{
  nonce_serves_once, registered_was_free, failed_action-Preserves,
}

abbrev table_hash : String → String
table_hash s = if s == "alice:secret" then "a1" else if s == "bob:pass" then "b2" else "00"

abbrev alice_entry : AccountInfo
alice_entry = record { hash = "a1"; nonce = 4 }

abbrev identities : Hydentity
identities = record { identities = ("alice", alice_entry) ∷ [] }

abbrev next_identities : Hydentity
next_identities = record { identities = ("alice", record alice_entry { nonce = 5 }) ∷ [] }

abbrev with_bob : Hydentity
with_bob = record {
  identities = ("alice", alice_entry) ∷ ("bob", record { hash = "b2"; nonce = 0 }) ∷ [];
}

-- Registering a name again sets its nonce back, and says so by an error.
registers_twice : register_identity table_hash identities "alice:a1" "secret" ≡ (
  err already_exists,
  record { identities = ("alice", record { hash = "a1"; nonce = 0 }) ∷ [] },
)
unfolding register_identity next_part lookup insert replace
registers_twice = refl

nonce_serves_once_example :
    verify_identity table_hash next_identities "alice" 4 "guess"
    ≡ (err invalid_nonce, next_identities)
unfolding verify_identity lookup insert replace
nonce_serves_once_example =
    nonce_serves_once table_hash identities "alice" 4 "secret" "guess" next_identities refl

registered_name :
    (lookup "bob" identities.identities ≡ none)
    × (lookup "bob" with_bob.identities ≡ some (record { hash = "b2"; nonce = 0 }))
    × ((other : String)
        → ("bob" == other) ≡ false
        → lookup other with_bob.identities ≡ lookup other identities.identities)
unfolding register_identity next_part lookup insert place
registered_name = registered_was_free table_hash identities "bob:b2" "pass" with_bob refl

failed_action-Preserves_example :
    lookup "alice" identities.identities ≡ lookup "alice" identities.identities
unfolding execute_identity_action verify_identity lookup
failed_action-Preserves_example =
    failed_action-Preserves table_hash identities (verify_identity_of "alice" 4) "guess"
      verification_failed identities refl (λ e. absurd (ground (arith, e))) "alice"

built_id_registers_example :
    (register_identity table_hash identities (build_id table_hash "bob" "pass") "pass").0 ≡ ok tt
unfolding register_identity build_id next_part lookup
built_id_registers_example = built_id_registers table_hash identities "bob" "pass" refl refl refl
