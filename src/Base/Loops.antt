-- ===== src/Base/Loops.antt =====
-- The loops of goroutines: `for { ... }` over a body that goes on or returns. A fuel bounds the
-- passes that are looked at.
use package.shinzo_scheduler_service.Base.{
  ℕ, zero, suc, ◌+◌, ◌<◌, ◌≡◌, ◌∙◌, none, some, Option, subst, arith,
}

-- What a pass of a loop does: it goes on with a state, or it returns.
pub data Pass (S T : Type 0) : Type 0 where
  goes_on : S → Pass S T
  returns : T → Pass S T

module _ {S T : Type 0} (body : ℕ → S → Pass S T) where
  -- The passes from the k-th on.
  unfoldable pub loop : ℕ → ℕ → S → Option T
  loop zero k s = none
  loop (suc fuel) k s = elim (body k s) [ goes_on s' ↦ loop fuel (suc k) s' | returns t ↦ some t ]

  -- The passes from the k-th on go on n times, and then stand at this state.
  pub data GoesOn : ℕ → ℕ → S → S → Type 0 where
    here : (k : ℕ) (s : S) → GoesOn zero k s s
    there :
        (n k : ℕ) (s s' t : S)
        → body k s ≡ goes_on s'
        → GoesOn n (suc k) s' t
        → GoesOn (suc n) k s t

  loop_on :
      (fuel k : ℕ) (s s' : S) → body k s ≡ goes_on s' → loop (suc fuel) k s ≡ loop fuel (suc k) s'
  unfolding loop
  loop_on fuel k s s' e = ground (arith, e)

  loop_end :
      (fuel k : ℕ) (s : S) (result : T)
      → body k s ≡ returns result
      → loop (suc fuel) k s ≡ some result
  unfolding loop
  loop_end fuel k s result e = ground (arith, e)

  -- A loop that goes on n times and then returns has returned with any fuel above n.
  pub loop-returns :
      (n k fuel : ℕ) (s t : S) (result : T)
      → n < fuel
      → GoesOn n k s t
      → body (k + n) t ≡ returns result
      → loop fuel k s ≡ some result
  loop-returns n k zero s t result enough passes ends = absurd (omega arith)
  loop-returns zero k (suc fuel) s t result enough (here _ _) ends =
      loop_end fuel k s result (subst (λ j. body j s ≡ returns result) (omega arith) ends)
  loop-returns (suc n) k (suc fuel) s t result enough (there _ _ _ s' _ step rest) ends =
      loop_on fuel k s s' step
      ∙ loop-returns n (suc k) fuel s' t result (omega arith) rest
          (subst (λ j. body j t ≡ returns result) (omega arith) ends)
