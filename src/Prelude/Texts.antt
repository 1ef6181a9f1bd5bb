-- ===== src/Prelude/Texts.antt =====
-- The order of Rust's strings.
use Prim.Native.Nat.{ℕ, Ordering, compare as compare_ℕ}
use Prim.Native.String.{compare, then as then_ordering}
use Prim.Native.String.compare
use Prim.Native.Char.{code}
use mathlib.Core.Path.{◌≡◌, refl, sym, ◌∙◌, ap}
use mathlib.Core.Bool.{Bool, true, false}
use mathlib.Core.Option.{Option, none, some}
use hyle.Prelude.Tests.{if◌then◌else◌, nat_eq}
use native.Mathlib.Omega.{arith}
use text.Mathlib.TextEquality.{path_by_compare}
use Prim.Native.String.{String}

-- `a <= b`
abbrev pub str_le : String → String → Bool
str_le a b = elim (compare a b) [ Ordering.gt ↦ false | _ ↦ true ]

-- `str::rsplit_once(separator)`, for one character: what stands before and after the last one.
unfoldable pub rsplit_once : ℕ → String → Option (String × String)
rsplit_once separator String.[] = none
rsplit_once separator (String.◌∷◌ c s) =
    let rest = rsplit_once separator s in
    elim rest [
      | some (a, b) ↦ some (String.◌∷◌ c a, b)
      | none ↦ if nat_eq (code c) separator then some (String.[], s) else none
    ]

-- `str::split(separator)`, for one character: the part before the first one, and what follows it.
unfoldable pub next_part : ℕ → String → String × Option String
next_part separator String.[] = (String.[], none)
next_part separator (String.◌∷◌ c s) =
    let (part, rest) = next_part separator s in
    if nat_eq (code c) separator then (String.[], some s) else (String.◌∷◌ c part, rest)

flip : Ordering → Ordering
flip Ordering.lt = Ordering.gt
flip Ordering.eq = Ordering.eq
flip Ordering.gt = Ordering.lt

flip-then : (o r : Ordering) → then_ordering (flip o) (flip r) ≡ flip (then_ordering o r)
unfolding flip
flip-then Ordering.lt r = refl
flip-then Ordering.eq r = refl
flip-then Ordering.gt r = refl

compare-flip_numbers : (m n : ℕ) → compare_ℕ n m ≡ flip (compare_ℕ m n)
unfolding flip
compare-flip_numbers m n = ground arith

compare-flip : (s t : String) → compare t s ≡ flip (compare s t)
unfolding flip
compare-flip String.[] String.[] = compare.nil-nil ∙ ap flip (sym compare.nil-nil)
compare-flip String.[] (String.◌∷◌ d t) =
    compare.cons-nil d t ∙ ap flip (sym (compare.nil-cons d t))
compare-flip (String.◌∷◌ c s) String.[] =
    compare.nil-cons c s ∙ ap flip (sym (compare.cons-nil c s))
compare-flip (String.◌∷◌ c s) (String.◌∷◌ d t) =
    compare.cons-cons d c t s
    ∙ rw (compare-flip_numbers (code c) (code d), compare-flip s t)
        (flip-then (compare_ℕ (code c) (code d)) (compare s t))
    ∙ ap flip (sym (compare.cons-cons c d s t))

-- Two strings are in order one way or the other, and both ways only where they are equal.
pub str_le-total : (s t : String) → str_le s t ≡ false → str_le t s ≡ true
unfolding flip
str_le-total s t h = ground (arith, compare-flip s t)

pub str_le-antisym : (s t : String) → str_le s t ≡ true → str_le t s ≡ true → s ≡ t
unfolding flip
str_le-antisym s t h k = path_by_compare s t (ground (arith, compare-flip s t))
