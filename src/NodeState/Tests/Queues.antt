-- ===== src/NodeState/Tests/Queues.antt =====
-- The queues of unsettled transactions, the timeouts and the names, at concrete inputs.
use hyle.Prelude.{
  ◌+◌, ◌≡◌, ◌≢◌, refl, false, none, some, [], ◌∷◌, ◌++◌, ◌⊎◌, arith, false≢true, ok, if◌then◌else◌,
}
use hyle.Prelude.Key.{string_key, nat_key}
use hyle.Prelude.Map.{lookup, insert}
use hyle.Prelude.Sets.{mem, set_insert}
use hyle.Model.{ContractName, no_timeout, timeout}
use hyle.NodeState.OrderedTxMap.{
  OrderedTxMap, empty_map, add, remove_tx, get_next_unsettled_tx, get_contracts_blocked_by_tx,
  collect_contracts, add_contracts, is_next_to_settle,
}
use hyle.NodeState.OrderedTxMap.Coherent.{IsCoherent}
use hyle.NodeState.OrderedTxMap.Preserve.{empty-IsCoherent, add-IsCoherent}
use hyle.NodeState.OrderedTxMap.Next.{add-is_next, remove_tx-add, next-add}
use hyle.NodeState.Timeouts.{Timeouts, drop_at, set_timeout, get_tx_timeout_window, known_windows}
use hyle.NodeState.Timeouts.Laws.{
  AllAbove, OneOf, drop_at-set_timeout, timeout_window-Least, timeout_window_legacy_last,
}
use hyle.NodeState.Registration.{split_once, contains_dot, validate_contract_name_registration}
use hyle.NodeState.Registration.Laws.{IsSubdomain, registration_safe, registration_complete}
use hyle.NodeState.Fixtures.{test_codec, first_tx, second_tx, contracts, token, vault, blob_of}

-- One transaction waits for "token".
abbrev waiting : OrderedTxMap
waiting = (add test_codec empty_map first_tx).0

waiting-IsCoherent : IsCoherent test_codec waiting
waiting-IsCoherent = add-IsCoherent test_codec empty_map first_tx (empty-IsCoherent test_codec)

second_is_new : lookup "second" waiting.map ≡ none
unfolding add lookup insert collect_contracts add_contracts get_contracts_blocked_by_tx set_insert
    mem
second_is_new = refl

first_waits : get_next_unsettled_tx waiting "token" ≡ some "first"
unfolding add lookup insert collect_contracts add_contracts get_contracts_blocked_by_tx set_insert
    mem get_next_unsettled_tx
first_waits = refl

second_waits :
    (add test_codec waiting second_tx).1
    ≡ some (is_next_to_settle test_codec (add test_codec waiting second_tx).0 "second")
second_waits = add-is_next test_codec waiting second_tx waiting-IsCoherent second_is_new

add_is_undone :
    (lookup "first" (remove_tx test_codec (add test_codec waiting second_tx).0 "second").0.map
      ≡ lookup "first" waiting.map)
    × (lookup "token"
          (remove_tx test_codec (add test_codec waiting second_tx).0 "second").0.tx_order
        ≡ lookup "token" waiting.tx_order)
add_is_undone =
    remove_tx-add test_codec waiting second_tx "first" "token" waiting-IsCoherent second_is_new

first_stays_next : get_next_unsettled_tx (add test_codec waiting second_tx).0 "token" ≡ some "first"
first_stays_next = next-add test_codec waiting second_tx "token" "first" second_is_new first_waits

abbrev no_timeouts : Timeouts
no_timeouts = record { by_block = [] }

timeout_is_dropped :
    ((drop_at (set_timeout no_timeouts "first" 5 100) 105).1 ≡ (
      if nat_key.beq (5 + 100) 105
      then (drop_at no_timeouts 105).1 ++ "first" ∷ []
      else (drop_at no_timeouts 105).1))
    × ((drop_at (drop_at (set_timeout no_timeouts "first" 5 100) 105).0 105).1 ≡ [])
timeout_is_dropped = drop_at-set_timeout no_timeouts "first" 5 100 105 (omega arith)

timeout_window-Least_example :
    let w = get_tx_timeout_window 445001 contracts (blob_of "vault" [] ∷ blob_of "token" [] ∷ []) in
    let ws = known_windows contracts (blob_of "vault" [] ∷ blob_of "token" [] ∷ []) in
    ((ws ≡ []) × (w ≡ no_timeout)) ⊎ (AllAbove w ws × OneOf w ws)
timeout_window-Least_example =
    timeout_window-Least 445001 contracts (blob_of "vault" [] ∷ blob_of "token" [] ∷ [])
      (omega arith)

legacy_window :
    (get_tx_timeout_window 7 contracts (blob_of "token" [] ∷ blob_of "vault" [] ∷ []) ≡ no_timeout)
    × (get_tx_timeout_window 7 contracts (blob_of "vault" [] ∷ blob_of "token" [] ∷ [])
        ≡ timeout 20)
unfolding lookup
legacy_window =
    timeout_window_legacy_last 7 20 contracts (blob_of "token" []) (blob_of "vault" []) token vault
      (omega arith) refl refl refl refl

abbrev owner : ContractName
owner = "dex"

abbrev subdomain : ContractName
subdomain = "a.dex"

registration_safe_example :
    (subdomain ≡ owner)
    ⊎ ((owner ≡ "hyle") × (contains_dot subdomain ≡ false) × (subdomain ≢ ""))
    ⊎ ((name : ContractName) × IsSubdomain owner subdomain name)
unfolding validate_contract_name_registration split_once
registration_safe_example = registration_safe owner subdomain refl

a_dex : IsSubdomain owner subdomain "a"
unfolding split_once
a_dex = record {
  joined = refl;
  direct = refl;
  nonempty = λ e. false≢true ((string_key.beq_iff "a" "").1 e);
}

subdomain_registers : validate_contract_name_registration owner subdomain ≡ ok tt
subdomain_registers =
    registration_complete owner subdomain "a" (λ e. false≢true ((string_key.beq_iff owner "").1 e))
      a_dex
