-- ===== src/Mempool/Storage/Clean.antt =====
-- What `clean_and_update_lane` of src/mempool/storage.rs removes: the pop of
-- src/mempool/storage_memory.rs leaves the tip where it was.
use hyle.Prelude.{
  ◌≡◌, refl, ℕ, suc, false, Option, none, some, Option-cases, Bool-cases, inl, inr, [], ok,
  if◌then◌else◌, arith, length, ◌⊎◌,
}
use hyle.Prelude.Exec.{◌>>=◌, reading, modify}
use hyle.Prelude.Key.{◌==◌, string_key, key_eq}
use hyle.Prelude.Map.{lookup, remove, get_or, lookup-insert_self, lookup-remove, lookup-remove_self}
use hyle.Model.{bytes_key}
use hyle.Proposals.{DataProposalHash, LaneId, LaneBytesSize}
use hyle.Mempool.{Entry, LanesStorage, MempoolEnv}
use hyle.Mempool.Storage.{
  get_entry, get_lane_hash_tip, pop, pop_until, hash_eq, clean_and_update_lane, update_lane_tip,
}

-- After a pop, the lane is empty at its tip.
abbrev IsPopped : LaneId → DataProposalHash → LanesStorage → LanesStorage → Type 0
IsPopped lane_id tip s s' =
    (get_lane_hash_tip s' lane_id ≡ some tip)
    × (get_entry s' lane_id tip ≡ none)
    × ((hash : DataProposalHash)
        → (tip == hash) ≡ false
        → get_entry s' lane_id hash ≡ get_entry s lane_id hash)

pop_tip :
    (lane_id : LaneId) (s : LanesStorage) (tip : DataProposalHash)
    → get_lane_hash_tip s lane_id ≡ some tip
    → IsPopped lane_id tip s (pop lane_id s).1
unfolding get_lane_hash_tip get_entry pop update_lane_tip
pop_tip lane_id s tip e = elim (Option-cases (lookup lane_id s.lanes_tip)) [
  | inl no_tip ↦ absurd (ground (arith, e, no_tip))
  | inr (t, f) ↦ elim (Option-cases (lookup lane_id s.by_hash)) [
    | inl no_lane ↦ (ground arith, ground arith, λ h d. ground arith)
    | inr (lane, g) ↦ elim (Option-cases (lookup t.0 lane)) [
      | inl absent ↦ (ground arith, ground arith, λ h d. ground arith)
      | inr (entry, k) ↦ (
        ground (arith, lookup-insert_self lane_id (t.0, entry.0.cumul_size) s.lanes_tip),
        ground (
          arith,
          lookup-insert_self lane_id (remove t.0 lane) s.by_hash,
          lookup-remove_self t.0 lane,
        ),
        λ h d. ground (
          arith,
          lookup-insert_self lane_id (remove t.0 lane) s.by_hash,
          lookup-remove t.0 h lane,
        ),
      )
    ]
  ]
]

pop_popped :
    (lane_id : LaneId) (s : LanesStorage) (tip : DataProposalHash)
    → get_lane_hash_tip s lane_id ≡ some tip
    → get_entry s lane_id tip ≡ none
    → pop lane_id s ≡ (none, s)
unfolding get_lane_hash_tip get_entry pop
pop_popped lane_id s tip e absent = ground arith

popped_hash :
    (lane_id : LaneId) (s : LanesStorage) (tip : DataProposalHash)
    → get_lane_hash_tip s lane_id ≡ some tip
    → ((pop lane_id s).0 ≡ none) ⊎ ((e : Entry) × ((pop lane_id s).0 ≡ some (tip, e)))
unfolding get_lane_hash_tip pop
popped_hash lane_id s tip e = elim (Option-cases (lookup lane_id s.lanes_tip)) [
  | inl no_tip ↦ absurd (ground (arith, e, no_tip))
  | inr (t, f) ↦ elim (Option-cases (lookup lane_id s.by_hash)) [
    | inl no_lane ↦ inl (ground arith)
    | inr (lane, g) ↦ elim (Option-cases (lookup t.0 lane)) [
      | inl absent ↦ inl (ground arith)
      | inr (entry, k) ↦ inr (entry, ground arith)
    ]
  ]
]

tip-update :
    (lane_id : LaneId) (hash : DataProposalHash) (size : LaneBytesSize) (s : LanesStorage)
    → get_lane_hash_tip (update_lane_tip lane_id hash size s) lane_id ≡ some hash
unfolding get_lane_hash_tip update_lane_tip
tip-update lane_id hash size s = ground (arith, lookup-insert_self lane_id (hash, size) s.lanes_tip)

module _ (env : MempoolEnv) where
  -- Two turns of the loop are enough.
  pop_until-pop :
      (fuel : ℕ) (lane_id : LaneId) (s : LanesStorage) (tip : DataProposalHash)
      (previous : Option DataProposalHash)
      → get_lane_hash_tip s lane_id ≡ some tip
      → hash_eq (some tip) previous ≡ false
      → pop_until env (suc (suc fuel)) lane_id previous s ≡ (ok tt, (pop lane_id s).1)
  unfolding pop_until
  pop_until-pop fuel lane_id s tip previous e d =
      let popped = pop_tip lane_id s tip e in
      let again = pop_popped lane_id (pop lane_id s).1 tip popped.0 popped.1 in
      elim (popped_hash lane_id s tip e) [
        | inl n ↦ ground (arith, n)
        | inr (entry, n) ↦ ground (arith, n, again, d)
      ]

  clean-pop :
      (lane_id : LaneId) (s : LanesStorage) (tip new_hash : DataProposalHash)
      (previous : Option DataProposalHash) (new_size : LaneBytesSize)
      → get_lane_hash_tip s lane_id ≡ some tip
      → hash_eq (some tip) previous ≡ false
      → (tip == new_hash) ≡ false
      → clean_and_update_lane env lane_id previous new_hash new_size s
        ≡ (ok tt, update_lane_tip lane_id new_hash new_size (pop lane_id s).1)
  unfolding clean_and_update_lane reading ◌>>=◌ modify
  clean-pop lane_id s tip new_hash previous new_size e d f =
      let looped =
        pop_until-pop (length (get_or lane_id s.by_hash [])) lane_id s tip previous e d in
      rw (e, d, f, looped) refl

  -- Where the tip is neither the data proposal of the previous cut nor that of the new one, cleaning
  -- a lane ends well, takes out the entry of the tip and keeps every other entry, whether it is after
  -- the previous cut or not, and makes the new data proposal the tip.
  pub clean_removes_one :
      (lane_id : LaneId) (s : LanesStorage) (tip new_hash : DataProposalHash)
      (previous : Option DataProposalHash) (new_size : LaneBytesSize) (hash : DataProposalHash)
      → get_lane_hash_tip s lane_id ≡ some tip
      → hash_eq (some tip) previous ≡ false
      → (tip == new_hash) ≡ false
      → let (result, s') = clean_and_update_lane env lane_id previous new_hash new_size s in
        (result ≡ ok tt)
        × (get_lane_hash_tip s' lane_id ≡ some new_hash)
        × (get_entry s' lane_id hash ≡ (if tip == hash then none else get_entry s lane_id hash))
  unfolding update_lane_tip get_lane_hash_tip get_entry
  clean_removes_one lane_id s tip new_hash previous new_size hash e d f =
      let popped = pop_tip lane_id s tip e in
      rw (clean-pop lane_id s tip new_hash previous new_size e d f) (
        refl,
        tip-update lane_id new_hash new_size (pop lane_id s).1,
        elim (Bool-cases (tip == hash)) [
          | inl same ↦ ground (arith, same, popped.1, key_eq tip hash same)
          | inr other ↦ ground (arith, other, popped.2 hash other)
        ],
      )
