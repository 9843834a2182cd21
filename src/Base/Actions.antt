-- ===== src/Base/Actions.antt =====
-- Results with an error text, and calls on a state that can fail. The state comes back after an
-- error too, since what was written stays written.
use Prim.Native.String.{String}
use mathlib.Core.Path.{◌≡◌, refl}
use mathlib.Core.Logic.{◌⊎◌, inl, inr}
use mathlib.Core.Bool.{Bool}
use package.shinzo_scheduler_service.Base.Tests.{if◌then◌else◌}

-- Go's `(T, error)` of a function that returns one or the other.
pub data Result (A : Type 0) : Type 0 where
  ok : A → Result A
  err : String → Result A

pub Result-cases :
    {A : Type 0} (r : Result A) → ((a : A) × (r ≡ ok a)) ⊎ ((e : String) × (r ≡ err e))
Result-cases (ok a) = inl (a, refl)
Result-cases (err e) = inr (e, refl)

abbrev pub Action : Type 0 → Type 0 → Type 0
Action S A = S → Result A × S

module _ {S A : Type 0} where
  abbrev pub pure : A → Action S A
  pure a s = (ok a, s)

  abbrev pub fail : String → Action S A
  fail e s = (err e, s)

  -- A call that only reads.
  abbrev pub reads : (S → Result A) → Action S A
  reads f s = (f s, s)

infixl 5 ◌>>=◌ ◌>>◌
abbrev pub ◌>>=◌ : {S A B : Type 0} → Action S A → (A → Action S B) → Action S B
◌>>=◌ m f s = let (r, s') = m s in elim r [ ok a ↦ f a s' | err e ↦ (err e, s') ]

abbrev pub ◌>>◌ : {S A B : Type 0} → Action S A → Action S B → Action S B
m >> k = m >>= λ _. k

-- `if test { return err }`
abbrev pub fail_if : {S : Type 0} → Bool → String → Action S (Unit {0})
fail_if c e s = (if c then err e else ok tt, s)

-- A call whose error is logged and dropped.
abbrev pub attempt : {S A : Type 0} → Action S A → Action S (Unit {0})
attempt m s = (ok tt, (m s).1)

-- `if test { call }`, where the call's error is dropped.
abbrev pub attempt_if : {S A : Type 0} → Bool → Action S A → Action S (Unit {0})
attempt_if c m s = (ok tt, if c then (m s).1 else s)
