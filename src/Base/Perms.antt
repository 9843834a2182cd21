-- ===== src/Base/Perms.antt =====
-- Rearrangements of lists, with what all elements have, unique keys and filters.
use package.shinzo_scheduler_service.Base.Tests.{Bool-cases}
use mathlib.Core.Logic.{inl, inr}
use package.shinzo_scheduler_service.Base.Lists.{filter, All, length}
use package.shinzo_scheduler_service.Base.Unique.{Unique}
use Prim.Native.Nat.{suc}
use mathlib.Core.Path.{◌≡◌, refl, ap, subst, sym, ◌∙◌}
use mathlib.Core.Bool.{Bool, true, false, not}
use mathlib.Core.List.{List, [], ◌∷◌, ◌++◌, Permᴰ}
use mathlib.Core.List.Permᴰ
use native.Mathlib.Omega.{arith}

module _ {A : Type 0} where
  pub All-perm : (P : A → Type 0) {xs ys : List A} → Permᴰ xs ys → All P xs → All P ys
  All-perm P Permᴰ.nil h = h
  All-perm P (Permᴰ.cons e d) h = (subst P e h.0, All-perm P d h.1)
  All-perm P (Permᴰ.swap e e') h = (subst P e' (h.1.0), (subst P e (h.0), h.1.1))
  All-perm P (Permᴰ.trans d e) h = All-perm P e (All-perm P d h)

  pub All-append : (P : A → Type 0) (xs ys : List A) → All P (xs ++ ys) → All P xs × All P ys
  All-append P [] ys h = (tt, h)
  All-append P (x ∷ xs) ys h = let rest = All-append P xs ys h.1 in ((h.0, rest.0), rest.1)

  pub length-perm : {xs ys : List A} → Permᴰ xs ys → length xs ≡ length ys
  length-perm Permᴰ.nil = refl
  length-perm (Permᴰ.cons e d) = ap suc (length-perm d)
  length-perm (Permᴰ.swap e e') = refl
  length-perm (Permᴰ.trans d e) = length-perm d ∙ length-perm e

  filter-swap :
      (p : A → Bool) (a b : A) (l : List A) → Permᴰ (filter p (a ∷ b ∷ l)) (filter p (b ∷ a ∷ l))
  filter-swap p a b l = elim (Bool-cases (p a)) [
    | inl t ↦ elim (Bool-cases (p b)) [
      | inl t' ↦ rw (t, t') (Permᴰ.swap refl refl)
      | inr f' ↦ rw (t, f') (Permᴰ.refl _)
    ]
    | inr f ↦ rw f (Permᴰ.refl _)
  ]

  pub filter-perm :
      (p : A → Bool) {xs ys : List A} → Permᴰ xs ys → Permᴰ (filter p xs) (filter p ys)
  filter-perm p Permᴰ.nil = Permᴰ.nil
  filter-perm p (Permᴰ.cons {a = a} {b = b} e d) = elim (Bool-cases (p a)) [
    | inl t ↦ rw (t, (ap p (sym e) ∙ t)) (Permᴰ.cons e (filter-perm p d))
    | inr f ↦ rw (f, (ap p (sym e) ∙ f)) (filter-perm p d)
  ]
  filter-perm p (Permᴰ.swap {a = a} {b = b} {b' = b'} {l = l} e e') =
      subst (λ c. Permᴰ (filter p (a ∷ b ∷ l)) (filter p (c ∷ b' ∷ l))) e'
        (subst (λ c. Permᴰ (filter p (a ∷ b ∷ l)) (filter p (b ∷ c ∷ l))) e (filter-swap p a b l))
  filter-perm p (Permᴰ.trans d e) = Permᴰ.trans (filter-perm p d) (filter-perm p e)

  pub filter-none : (p : A → Bool) (xs : List A) → All (λ x. p x ≡ false) xs → filter p xs ≡ []
  filter-none p [] h = refl
  filter-none p (x ∷ xs) h = ground (arith, h.0, filter-none p xs h.1)

  pub filter_kept : (p : A → Bool) (xs : List A) → All (λ x. p x ≡ true) xs → filter p xs ≡ xs
  filter_kept p [] h = refl
  filter_kept p (x ∷ xs) h = ground (arith, h.0, filter_kept p xs h.1)

  pub filter_comm : (p q : A → Bool) (xs : List A) → filter p (filter q xs) ≡ filter q (filter p xs)
  filter_comm p q [] = refl
  filter_comm p q (x ∷ xs) = ground (arith, filter_comm p q xs)

  pub filter-append :
      (p : A → Bool) (xs ys : List A) → filter p (xs ++ ys) ≡ filter p xs ++ filter p ys
  filter-append p [] ys = refl
  filter-append p (x ∷ xs) ys = ground (arith, filter-append p xs ys)

  -- A rearrangement of a list with unique keys has unique keys, where the test is symmetric.
  pub Unique-perm :
      (same : A → A → Bool)
      → ((x y : A) → same x y ≡ false → same y x ≡ false)
      → {xs ys : List A} → Permᴰ xs ys
      → Unique same xs
      → Unique same ys
  Unique-perm same symm Permᴰ.nil u = u
  Unique-perm same symm (Permᴰ.cons {a = a} {l₂ = ys} e d) u = (
    subst (λ b. All (λ y. same b y ≡ false) ys) e (All-perm _ d u.0),
    Unique-perm same symm d u.1,
  )
  Unique-perm same symm (Permᴰ.swap {a = a} {b = b} {b' = b'} {l = l} e e') u =
      subst (λ c. Unique same (c ∷ b' ∷ l)) e'
        (subst (λ c. Unique same (b ∷ c ∷ l)) e ((symm a b (u.0.0), u.1.0), (u.0.1, u.1.1)))
  Unique-perm same symm (Permᴰ.trans d e) u = Unique-perm same symm e (Unique-perm same symm d u)

  -- What passes a test and what does not make up the list.
  pub partition-perm :
      (p : A → Bool) (xs : List A) → Permᴰ (filter p xs ++ filter (λ x. not (p x)) xs) xs
  partition-perm p [] = Permᴰ.nil
  partition-perm p (x ∷ xs) = elim (Bool-cases (p x)) [
    | inl t ↦ rw t (Permᴰ.cons refl (partition-perm p xs))
    | inr f ↦
        rw f (Permᴰ.trans (Permᴰ.middle x (filter p xs) _) (Permᴰ.cons refl (partition-perm p xs)))
  ]
