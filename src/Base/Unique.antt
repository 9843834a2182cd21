-- ===== src/Base/Unique.antt =====
-- Lists whose elements differ pairwise in a key, given by a Boolean test, and what filters find.
use package.shinzo_scheduler_service.Base.Lists.{filter, first, All}
use mathlib.Core.Path.{◌≡◌, refl, sym, ap, subst, ◌∙◌}
use mathlib.Core.Bool.{Bool, true, false}
use mathlib.Core.Option.{none, some}
use mathlib.Core.List.{List, [], ◌∷◌, ◌++◌, map}
use native.Mathlib.Omega.{arith}
use mathlib.Core.Logic.{inl, inr}
use Prim.Native.String.{String}
use text.Mathlib.Text.{◌==◌}
use text.Mathlib.TextEquality.{eq_iff}
use package.shinzo_scheduler_service.Base.Tests.{Bool-cases, if◌then◌else◌}

module _ {A : Type 0} where
  pub All-append_one :
      (P : A → Type 0) (xs : List A) (y : A) → All P xs → P y → All P (xs ++ y ∷ [])
  All-append_one P [] y h p = (p, tt)
  All-append_one P (x ∷ xs) y h p = (h.0, All-append_one P xs y h.1 p)

  pub All-append : (P : A → Type 0) (xs ys : List A) → All P xs → All P ys → All P (xs ++ ys)
  All-append P [] ys h k = k
  All-append P (x ∷ xs) ys h k = (h.0, All-append P xs ys h.1 k)

  pub All-map_of :
      (P : A → Type 0) (f : A → A)
      → ((x : A) → P x → P (f x))
      → (xs : List A) → All P xs
      → All P (map f xs)
  All-map_of P f keep [] h = tt
  All-map_of P f keep (x ∷ xs) h = (keep x h.0, All-map_of P f keep xs h.1)

  pub All-imp : (P Q : A → Type 0) (xs : List A) → ((x : A) → P x → Q x) → All P xs → All Q xs
  All-imp P Q [] f h = tt
  All-imp P Q (x ∷ xs) f h = (f x h.0, All-imp P Q xs f h.1)

  pub All-of_none :
      (p : A → Bool) (xs : List A) → first (filter p xs) ≡ none → All (λ x. p x ≡ false) xs
  All-of_none p [] h = tt
  All-of_none p (x ∷ xs) h = ground (arith, All-of_none p xs)

  -- What `first` finds passes the test.
  pub first-filter_test :
      (p : A → Bool) (xs : List A) (a : A) → first (filter p xs) ≡ some a → p a ≡ true
  first-filter_test p [] a h = cc
  first-filter_test p (x ∷ xs) a h = ground (arith, first-filter_test p xs a)

  pub first-filter_All :
      (P : A → Type 0) (p : A → Bool) (xs : List A) (a : A)
      → All P xs
      → first (filter p xs) ≡ some a
      → P a
  first-filter_All P p [] a h e = absurd (cc)
  first-filter_All P p (x ∷ xs) a h e = ground (arith, h.0, first-filter_All P p xs a h.1)

  -- The first element that passes a test stays the first, if a write that keeps the test's results
  -- changes it.
  pub first-filter-map :
      (p : A → Bool) (f : A → A) (xs : List A) (a : A)
      → ((x : A) → p (f x) ≡ p x)
      → first (filter p xs) ≡ some a
      → first (filter p (map f xs)) ≡ some (f a)
  first-filter-map p f [] a keep h = cc
  first-filter-map p f (x ∷ xs) a keep h = ground (arith, keep x, first-filter-map p f xs a keep)

module _ {A : Type 0} (same : A → A → Bool) where
  abbrev pub Unique : List A → Type 0
  Unique [] = Unit
  Unique (x ∷ xs) = All (λ y. same x y ≡ false) xs × Unique xs

  pub Unique-append_one :
      (xs : List A) (y : A) → All (λ x. same x y ≡ false) xs → Unique xs → Unique (xs ++ y ∷ [])
  Unique-append_one [] y h u = (tt, tt)
  Unique-append_one (x ∷ xs) y h u = (All-append_one _ xs y u.0 h.0, Unique-append_one xs y h.1 u.1)

  All-same-map :
      (f : A → A)
      → ((x y : A) → same (f x) (f y) ≡ same x y)
      → (x : A) (xs : List A) → All (λ y. same x y ≡ false) xs
      → All (λ y. same (f x) y ≡ false) (map f xs)
  All-same-map f keep x [] h = tt
  All-same-map f keep x (y ∷ ys) h = (keep x y ∙ h.0, All-same-map f keep x ys h.1)

  -- A change that leaves the keys alone.
  pub Unique-map :
      (f : A → A)
      → ((x y : A) → same (f x) (f y) ≡ same x y)
      → (xs : List A) → Unique xs
      → Unique (map f xs)
  Unique-map f keep [] u = tt
  Unique-map f keep (x ∷ xs) u = (All-same-map f keep x xs u.0, Unique-map f keep xs u.1)

module _ {A : Type 0} (key : A → String) where
  abbrev pub same_key : A → A → Bool
  same_key x y = key x == key y

  differs_back :
      (x : A) (ys : List A)
      → All (λ y. same_key x y ≡ false) ys
      → All (λ y. (key y == key x) ≡ true → y ≡ x) ys
  differs_back x [] h = tt
  differs_back x (y ∷ ys) h = (
    λ e. absurd (ground (arith, h.0, eq_iff (key y) (key x), eq_iff (key x) (key y))),
    differs_back x ys h.1,
  )

  -- Where keys are unique, whatever has the key of the element that a filter finds is that element.
  pub first-filter_only :
      (p : A → Bool) (xs : List A) (a : A)
      → Unique same_key xs
      → first (filter p xs) ≡ some a
      → All (λ x. (key x == key a) ≡ true → x ≡ a) xs
  first-filter_only p [] a u h = tt
  first-filter_only p (x ∷ xs) a u h = elim (Bool-cases (p x)) [
    | inl found ↦
        let same : a ≡ x = ground arith in
        subst (λ b. All (λ y. (key y == key b) ≡ true → y ≡ b) (x ∷ xs)) (sym same)
          (λ e. refl, differs_back x xs u.0)
    | inr other ↦
        let later : first (filter p xs) ≡ some a = ground arith in
        (
          λ e.
              absurd
                (ground (arith, first-filter_All (λ y. same_key x y ≡ false) p xs a u.0 later)),
          first-filter_only p xs a u.1 later,
        )
  ]

  pub All-filter : (P : A → Type 0) (p : A → Bool) (xs : List A) → All P xs → All P (filter p xs)
  All-filter P p [] h = tt
  All-filter P p (x ∷ xs) h = ground (arith, h.0, All-filter P p xs h.1)

  All-and :
      (P Q R : A → Type 0) (xs : List A)
      → ((x : A) → P x → Q x → R x)
      → All P xs
      → All Q xs
      → All R xs
  All-and P Q R [] f p q = tt
  All-and P Q R (x ∷ xs) f p q = (f x p.0 q.0, All-and P Q R xs f p.1 q.1)

  All-trivial : (xs : List A) → All (λ x. Unit {0}) xs
  All-trivial [] = tt
  All-trivial (x ∷ xs) = (tt, All-trivial xs)

  All-if :
      (P : A → Type 0) (b : Bool) (x : A) (xs : List A)
      → (b ≡ true → P x)
      → All P xs
      → All P (if b then x ∷ xs else xs)
  All-if P true x xs h t = (h refl, t)
  All-if P false x xs h t = t

  -- Where keys are unique, every element with the key of one that passes a test passes it.
  pub filter_only :
      (p : A → Bool) (xs : List A)
      → Unique same_key xs
      → All (λ a. All (λ x. (key x == key a) ≡ true → p x ≡ true) xs) (filter p xs)
  filter_only p [] u = tt
  filter_only p (x ∷ xs) u =
      let later : All (λ a. All (λ y. (key y == key a) ≡ true → p y ≡ true) (x ∷ xs))
          (filter p xs) =
        All-and (λ y. same_key x y ≡ false) _ _ (filter p xs)
          (λ a differs rest. (λ e. absurd (ground arith), rest))
          (All-filter (λ y. same_key x y ≡ false) p xs u.0) (filter_only p xs u.1) in
      All-if _ (p x) x (filter p xs)
        (λ pass. (
          λ e. pass,
          All-and (λ y. (key y == key x) ≡ true → y ≡ x) (λ y. Unit {0}) _ xs
              (λ y same _ e. ap p (same e) ∙ pass) (differs_back x xs u.0) (All-trivial xs),
        ))
        later

  -- Where keys are unique, whatever has the key of one that a filter lets pass is that one.
  pub filter_same :
      (p : A → Bool) (xs : List A)
      → Unique same_key xs
      → All (λ a. All (λ x. (key x == key a) ≡ true → x ≡ a) xs) (filter p xs)
  filter_same p [] u = tt
  filter_same p (x ∷ xs) u =
      let later : All (λ a. All (λ y. (key y == key a) ≡ true → y ≡ a) (x ∷ xs)) (filter p xs) =
        All-and (λ y. same_key x y ≡ false) _ _ (filter p xs)
          (λ a differs rest. (λ e. absurd (ground arith), rest))
          (All-filter (λ y. same_key x y ≡ false) p xs u.0) (filter_same p xs u.1) in
      All-if _ (p x) x (filter p xs) (λ pass. (λ e. refl, differs_back x xs u.0)) later

  -- What a filter lets pass.
  pub filter-All : (p : A → Bool) (xs : List A) → All (λ a. p a ≡ true) (filter p xs)
  filter-All p [] = tt
  filter-All p (x ∷ xs) = ground (arith, filter-All p xs)

  pub Unique-filter :
      (p : A → Bool) (xs : List A) → Unique same_key xs → Unique same_key (filter p xs)
  Unique-filter p [] u = tt
  Unique-filter p (x ∷ xs) u =
      ground (arith, All-filter (λ y. same_key x y ≡ false) p xs u.0, Unique-filter p xs u.1)
