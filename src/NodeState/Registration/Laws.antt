-- ===== src/NodeState/Registration/Laws.antt =====
-- Which names a contract may register.
use Prim.Native.Char.{Char, code}
use hyle.Prelude.{
  ◌≡◌, ◌≢◌, refl, ap, sym, ◌∙◌, ◌⊎◌, inl, inr, String, true, false, none, some, nat_eq, ok, arith,
  Bool-cases, Option-cases,
}
use text.Mathlib.TextEquality.{Char-path}
use hyle.Prelude.Key.{◌==◌, string_key, key_eq, key_refl}
use hyle.Model.{ContractName}
use hyle.NodeState.Registration.{
  split_once, contains_dot, validate_subdomain, validate_contract_name_registration,
}

-- `name` and `tld` with a dot between.
abbrev pub join : String → String → String
join String.[] tld = String.◌∷◌ "." tld
join (String.◌∷◌ c s) tld = String.◌∷◌ c (join s tld)

dot_char : (c : Char) → nat_eq (code c) b'.' ≡ true → c ≡ "."
dot_char c h = Char-path c "." (ground arith)

split_once-cons :
    (c : Char) (s a b : String)
    → nat_eq (code c) b'.' ≡ false
    → split_once (String.◌∷◌ c s) ≡ some (a, b)
    → (a' : String) × (split_once s ≡ some (a', b)) × (a ≡ String.◌∷◌ c a')
unfolding split_once
split_once-cons c s a b h e = elim (Option-cases (split_once s)) [
  | inl n ↦ absurd (ground arith)
  | inr (p, n) ↦ (p.0, ground arith, ground arith)
]

split_once-cons_none :
    (c : Char) (a : String)
    → nat_eq (code c) b'.' ≡ false
    → split_once a ≡ none
    → split_once (String.◌∷◌ c a) ≡ none
unfolding split_once
split_once-cons_none c a h e = ground arith

-- `split_once` cuts at the first dot.
split_once-join :
    (s a b : String) → split_once s ≡ some (a, b) → (s ≡ join a b) × (split_once a ≡ none)
split_once-join String.[] a b e = unfold split_once in ground arith
split_once-join (String.◌∷◌ c s) a b e = elim (Bool-cases (nat_eq (code c) b'.')) [
  | inl dot ↦
      (let dots : (a ≡ "") × (b ≡ s) = (unfold split_once in (ground arith, ground arith)) in
        rw (dots.0, dots.1, dot_char c dot) (refl, (unfold split_once in refl)))
  | inr other ↦
      (let (a', e', same) = split_once-cons c s a b other e in
        let (ih, ih') = split_once-join s a' b e' in
        rw same (ap (String.◌∷◌ c) ih, split_once-cons_none c a' other ih'))
]

-- ... and finds the two parts again.
split_once_of_join : (a b : String) → split_once a ≡ none → split_once (join a b) ≡ some (a, b)
unfolding split_once
split_once_of_join String.[] b e = refl
split_once_of_join (String.◌∷◌ c a) b e = ground (arith, split_once_of_join a b)

-- A direct subdomain: `name` has no dot and is not empty.
pub record IsSubdomain (owner new_name name : String) : Type 0 where
  pub joined : new_name ≡ join name owner
  pub direct : split_once name ≡ none
  pub nonempty : name ≢ ""

checked_name-IsSubdomain :
    (owner new_name name tld : ContractName)
    → split_once new_name ≡ some (name, tld)
    → validate_subdomain owner new_name ≡ ok tt
    → IsSubdomain owner new_name name
unfolding validate_subdomain
checked_name-IsSubdomain owner new_name name tld e h =
    let (joined, direct) = split_once-join new_name name tld e in
    record {
      joined = ground (arith, joined, key_eq tld owner);
      direct = direct;
      nonempty = λ n. ground (arith, (string_key.beq_iff name "").1 n);
    }

accepted-IsSubdomain :
    (owner new_name : ContractName)
    → validate_subdomain owner new_name ≡ ok tt
    → (name : String) × IsSubdomain owner new_name name
accepted-IsSubdomain owner new_name h = elim (Option-cases (split_once new_name)) [
  | inl n ↦ absurd (unfold validate_subdomain in ground arith)
  | inr (p, n) ↦ (p.0, checked_name-IsSubdomain owner new_name p.0 p.1 n h)
]

-- A contract may register only itself, its direct subdomains and, where it is `hyle`, names
-- without a dot.
pub registration_safe :
    (owner new_name : ContractName)
    → validate_contract_name_registration owner new_name ≡ ok tt
    → (new_name ≡ owner)
      ⊎ ((owner ≡ "hyle") × (contains_dot new_name ≡ false) × (new_name ≢ ""))
      ⊎ ((name : String) × IsSubdomain owner new_name name)
registration_safe owner new_name h = elim (Bool-cases (owner == "hyle")) [
  | inl o ↦ elim (Bool-cases (new_name == "hyle")) [
    | inl n ↦ inl (key_eq new_name "hyle" n ∙ sym (key_eq owner "hyle" o))
    | inr n ↦ elim (Bool-cases (contains_dot new_name)) [
      | inl dot ↦ inr (
          inr (
            accepted-IsSubdomain owner new_name
              (unfold validate_contract_name_registration in ground arith)))
      | inr plain ↦ inr (
          inl (
            key_eq owner "hyle" o,
            plain,
            λ e.
                unfold validate_contract_name_registration in
                ground (arith, (string_key.beq_iff new_name "").1 e),
          ))
    ]
  ]
  | inr o ↦ elim (Bool-cases (owner == new_name)) [
    | inl n ↦ inl (sym (key_eq owner new_name n))
    | inr n ↦ inr (
        inr (
          accepted-IsSubdomain owner new_name
            (unfold validate_contract_name_registration in ground arith)))
  ]
]

-- Every direct subdomain of a contract is accepted.
pub registration_complete :
    (owner new_name name : ContractName)
    → owner ≢ ""
    → IsSubdomain owner new_name name
    → validate_contract_name_registration owner new_name ≡ ok tt
unfolding validate_contract_name_registration
registration_complete owner new_name name o sub =
    let cut : split_once new_name ≡ some (name, owner) =
      rw sub.joined (split_once_of_join name owner sub.direct) in
    ground (arith, cut, key_eq name "", sub.nonempty, key_eq owner "", key_refl owner)
