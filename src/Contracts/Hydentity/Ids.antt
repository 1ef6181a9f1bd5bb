-- ===== src/Contracts/Hydentity/Ids.antt =====
-- `build_id` and what reads its result.
use hyle.Prelude.{
  ◌≡◌, refl, ap, ◌∙◌, String, false, Option, none, some, arith, ok, nat_eq, Bool-cases, inl, inr,
}
use Prim.Native.String.{◌++◌}
use Prim.Native.String.append
use Prim.Native.Char.{Char, code}
use hyle.Prelude.Key.{string_key, key_refl}
use hyle.Prelude.Texts.{next_part}
use hyle.Prelude.Map.{lookup}
use hyle.Contracts.Hydentity.{Hydentity, id_hash, build_id, parse_id, register_identity}

colon_append : (t : String) → ":" ++ t ≡ String.◌∷◌ ":" t
colon_append t = append.cons ":" String.[] t ∙ ap (String.◌∷◌ ":") (append.nil t)

tail : String → String
tail String.[] = String.[]
tail (String.◌∷◌ c s) = s

no_colon-rest :
    (c : Char) (s : String)
    → nat_eq (code c) b':' ≡ false
    → next_part b':' (String.◌∷◌ c s) ≡ (String.◌∷◌ c s, none)
    → next_part b':' s ≡ (s, none)
unfolding next_part tail
no_colon-rest c s f h =
    ground (arith, f, h, ap {B = String × Option String} (λ p. (tail p.0, p.1)) h)

-- A text with no colon is the part before the colon that follows it.
next_part-append :
    (s t : String) → next_part b':' s ≡ (s, none) → next_part b':' (s ++ (":" ++ t)) ≡ (s, some t)
unfolding next_part
next_part-append String.[] t h = rw (append.nil (":" ++ t), colon_append t) refl
next_part-append (String.◌∷◌ c s) t h =
    rw (append.cons c s (":" ++ t)) (elim (Bool-cases (nat_eq (code c) b':')) [
      | inl f ↦ ground (arith, h, f)
      | inr f ↦ ground (arith, f, next_part-append s t (no_colon-rest c s f h))
    ])

module _ (sha256 : String → String) where
  -- The identifier that is built for an account is read as the account and its hash, where neither
  -- has a colon.
  pub parse-build :
      (account private_input : String)
      → next_part b':' account ≡ (account, none)
      → next_part b':' (id_hash sha256 account private_input)
        ≡ (id_hash sha256 account private_input, none)
      → parse_id (build_id sha256 account private_input)
        ≡ ok (account, id_hash sha256 account private_input)
  unfolding parse_id build_id
  parse-build account private_input a b =
      ground (arith, next_part-append account (id_hash sha256 account private_input) a)

  -- It is accepted for a name that is free, where neither has a colon.
  pub built_id_registers :
      (h : Hydentity) (account private_input : String)
      → next_part b':' account ≡ (account, none)
      → next_part b':' (id_hash sha256 account private_input)
        ≡ (id_hash sha256 account private_input, none)
      → lookup account h.identities ≡ none
      → (register_identity sha256 h (build_id sha256 account private_input) private_input).0 ≡ ok tt
  unfolding register_identity build_id
  built_id_registers h account private_input a b free = ground (
    arith,
    next_part-append account (id_hash sha256 account private_input) a,
    key_refl (id_hash sha256 account private_input),
  )
