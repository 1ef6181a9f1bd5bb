-- ===== src/Prelude/Exec.antt =====
-- Methods that change an object and may fail: what was written before a failure stays written, so
-- the state comes back beside the error too. `Keeps` carries a property of the state through them.
use mathlib.Core.Path.{◌≡◌, refl}
use mathlib.Core.Bool.{Bool, true, false}
use mathlib.Core.Option.{Option, none, some}
use hyle.Prelude.Tests.{if◌then◌else◌}
use hyle.Prelude.Results.{Result, ok, err}

abbrev pub Exec : Type 0 → Type 0 → Type 0 → Type 0
Exec S E A = S → Result E A × S

abbrev pub Done : Type 0
Done = Unit {0}

module _ {S E A : Type 0} where
  unfoldable pub pure : A → Exec S E A
  pure a s = (ok a, s)

  -- `bail!`
  unfoldable pub bail : E → Exec S E A
  bail e s = (err e, s)

  unfoldable pub lift : Result E A → Exec S E A
  lift r s = (r, s)

  unfoldable pub gets : (S → A) → Exec S E A
  gets f s = (ok (f s), s)

  -- The state, as the rest of the method reads it.
  unfoldable pub reading : (S → Exec S E A) → Exec S E A
  reading f s = f s s

  -- An optional result, with the error that its absence is.
  unfoldable pub ok_or : E → Option A → Exec S E A
  unfolding pure bail
  ok_or e none = bail e
  ok_or e (some a) = pure a

module _ {S E : Type 0} where
  unfoldable pub modify : (S → S) → Exec S E Done
  modify f s = (ok tt, f s)

  unfoldable pub require : Bool → E → Exec S E Done
  unfolding pure bail
  require b e = if b then pure tt else bail e

module _ {S E A B : Type 0} where
  unfoldable pub continue : Result E A → (A → Exec S E B) → Exec S E B
  continue (ok a) f s = f a s
  continue (err e) f s = (err e, s)

  infixl 10 ◌>>=◌ ◌>>◌
  unfoldable pub ◌>>=◌ : Exec S E A → (A → Exec S E B) → Exec S E B
  unfolding continue pure bail lift gets modify require reading ok_or
  ◌>>=◌ m f s = let (r, s') = m s in continue r f s'

  abbrev pub ◌>>◌ : Exec S E A → Exec S E B → Exec S E B
  m >> n = m >>= λ _. n

-- `m` keeps `P`, whether it returns or fails.
pub record Keeps {S E A : Type 0} (P : S → Type 0) (m : Exec S E A) : Type 0 where
  pub at : (s : S) → P s → P (m s).1

module _ {S E A : Type 0} {P : S → Type 0} where
  pub Keeps-pure : (a : A) → Keeps {E = E} P (pure a)
  unfolding pure
  Keeps-pure a = record { at = λ s h. h }

  pub Keeps-bail : (e : E) → Keeps P (bail {A = A} e)
  unfolding bail
  Keeps-bail e = record { at = λ s h. h }

  pub Keeps-lift : (r : Result E A) → Keeps P (lift r)
  unfolding lift
  Keeps-lift r = record { at = λ s h. h }

  pub Keeps-gets : (f : S → A) → Keeps {E = E} P (gets f)
  unfolding gets
  Keeps-gets f = record { at = λ s h. h }

  pub Keeps-ok_or : (e : E) (o : Option A) → Keeps P (ok_or e o)
  unfolding ok_or pure bail
  Keeps-ok_or e none = record { at = λ s h. h }
  Keeps-ok_or e (some a) = record { at = λ s h. h }

  pub Keeps-reading : {f : S → Exec S E A} → ((s : S) → Keeps P (f s)) → Keeps P (reading f)
  unfolding reading
  Keeps-reading k = record { at = λ s h. (k s).at s h }

  pub Keeps-if :
      (b : Bool) {m n : Exec S E A} → Keeps P m → Keeps P n → Keeps P (if b then m else n)
  Keeps-if true km kn = km
  Keeps-if false km kn = kn

module _ {S E : Type 0} {P : S → Type 0} where
  pub Keeps-require : (b : Bool) (e : E) → Keeps P (require b e)
  unfolding require pure bail
  Keeps-require true e = record { at = λ s h. h }
  Keeps-require false e = record { at = λ s h. h }

  pub Keeps-modify : (f : S → S) → ((s : S) → P s → P (f s)) → Keeps {E = E} P (modify f)
  unfolding modify
  Keeps-modify f k = record { at = k }

module _ {S E A B : Type 0} {P : S → Type 0} where
  pub Keeps-continue :
      (r : Result E A) (f : A → Exec S E B)
      → ((a : A) → Keeps P (f a))
      → (s : S) → P s
      → P (continue r f s).1
  unfolding continue
  Keeps-continue (ok a) f k s h = (k a).at s h
  Keeps-continue (err e) f k s h = h

  pub Keeps-bind :
      {m : Exec S E A} {f : A → Exec S E B}
      → Keeps P m
      → ((a : A) → Keeps P (f a))
      → Keeps P (m >>= f)
  unfolding ◌>>=◌
  Keeps-bind {m} {f} km kf = record { at = λ s h. Keeps-continue (m s).0 f kf (m s).1 (km.at s h) }

-- A case split on an optional value or a result.
module _ {S E A B : Type 0} {P : S → Type 0} where
  pub Keeps-option :
      (o : Option B) {m : Exec S E A} {f : B → Exec S E A}
      → Keeps P m
      → ((b : B) → Keeps P (f b))
      → Keeps P (elim o [ none ↦ m | some b ↦ f b ])
  Keeps-option none km kf = km
  Keeps-option (some b) km kf = kf b

pub ruleset keeps_rules = (
  Keeps-pure, Keeps-bail, Keeps-lift, Keeps-gets, Keeps-ok_or, Keeps-reading, Keeps-if,
  Keeps-require, Keeps-bind, Keeps-option,
)

-- The same at one state, where the rest of a method may use how a test came out.
module _ {S E : Type 0} (P : S → Type 0) where
  pub lift_at :
      {A B : Type 0} (r : Result E A) (f : A → Exec S E B) (s : S)
      → ((a : A) → r ≡ ok a → P (f a s).1)
      → P s
      → P ((lift r >>= f) s).1
  unfolding ◌>>=◌
  lift_at (ok a) f s k p = k a refl
  lift_at (err e) f s k p = p

  pub require_at :
      {B : Type 0} (b : Bool) (e : E) (f : Done → Exec S E B) (s : S)
      → (b ≡ true → P (f tt s).1)
      → P s
      → P ((require b e >>= f) s).1
  unfolding ◌>>=◌
  require_at true e f s k p = k refl
  require_at false e f s k p = p

  pub if_at :
      {A : Type 0} (b : Bool) (m n : Exec S E A) (s : S)
      → (b ≡ true → P (m s).1)
      → (b ≡ false → P (n s).1)
      → P ((if b then m else n) s).1
  if_at true m n s h k = h refl
  if_at false m n s h k = k refl
