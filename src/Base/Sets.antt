-- ===== src/Base/Sets.antt =====
-- Lists of texts as sets: inclusion, lists without repetition, and the pigeonhole principle.
use package.shinzo_scheduler_service.Base.Tests.{if◌then◌else◌}
use package.shinzo_scheduler_service.Base.Lists.{length, all, elem, filter}
use Prim.Native.Nat.{suc, ◌≤◌}
use Prim.Native.String.{String}
use mathlib.Core.Path.{◌≡◌, refl}
use mathlib.Core.Bool.{Bool, true, false, ◌&&◌}
use mathlib.Core.List.{List, [], ◌∷◌}
use native.Mathlib.Omega.{arith}
use text.Mathlib.Text.{◌==◌}
use text.Mathlib.TextEquality.{eq_iff}
use text.Mathlib.TextPositions.{eq_refl}

abbrev pub subset : List String → List String → Bool
subset xs ys = all (λ x. elem x ys) xs

-- No text stands twice.
abbrev pub Distinct : List String → Type 0
Distinct [] = Unit
Distinct (x ∷ xs) = (elem x xs ≡ false) × Distinct xs

erase : String → List String → List String
erase a [] = []
erase a (x ∷ xs) = if a == x then xs else x ∷ erase a xs

length-erase :
    (a : String) (xs : List String) → elem a xs ≡ true → length xs ≡ suc (length (erase a xs))
unfolding erase
length-erase a [] h = cc
length-erase a (x ∷ xs) h = ground (arith, length-erase a xs)

elem-erase_ne :
    (a b : String) (xs : List String) → (b == a) ≡ false → elem b (erase a xs) ≡ elem b xs
unfolding erase
elem-erase_ne a b [] h = refl
elem-erase_ne a b (x ∷ xs) h =
    ground (arith, elem-erase_ne a b xs, eq_iff a x, eq_iff b x, eq_iff b a)

-- A member of the list is the head of an element other than those left out by `erase`.
subset-erase :
    (a : String) (xs ys : List String)
    → elem a xs ≡ false
    → subset xs ys ≡ true
    → subset xs (erase a ys) ≡ true
subset-erase a [] ys h s = refl
subset-erase a (x ∷ xs) ys h s =
    ground (arith, subset-erase a xs ys, elem-erase_ne a x ys, eq_iff a x, eq_iff x a)

-- A list without repetition inside another is no longer than it.
pub length-le_of_subset :
    (xs ys : List String) → Distinct xs → subset xs ys ≡ true → length xs ≤ length ys
length-le_of_subset [] ys d s = omega arith
length-le_of_subset (x ∷ xs) ys d s =
    ground
      (arith, length-le_of_subset xs (erase x ys) d.1, subset-erase x xs ys d.0, length-erase x ys)

-- A list whose every member lies in another is included in it.
pub subset_of_elem :
    (xs ys : List String)
    → ((c : String) → elem c xs ≡ true → elem c ys ≡ true)
    → subset xs ys ≡ true
subset_of_elem [] ys h = refl
subset_of_elem (x ∷ xs) ys h =
    ground (arith, h x, eq_refl x, subset_of_elem xs ys (λ c e. h c (ground (arith, e))))

elem_back :
    (xs ys : List String) (c : String)
    → Distinct xs
    → subset xs ys ≡ true
    → length ys ≤ length xs
    → elem c ys ≡ true
    → elem c xs ≡ true
elem_back [] [] c d s h e = e
elem_back [] (y ∷ ys) c d s h e = absurd (omega arith)
elem_back (x ∷ xs) ys c d s h e = ground (
  arith,
  elem_back xs (erase x ys) c d.1,
  subset-erase x xs ys d.0,
  length-erase x ys,
  elem-erase_ne x c ys,
  eq_iff c x,
)

-- The pigeonhole principle: a list without repetition that lies inside another, which is no longer,
-- contains it.
pub subset_back :
    (xs ys : List String)
    → Distinct xs
    → subset xs ys ≡ true
    → length ys ≤ length xs
    → subset ys xs ≡ true
subset_back xs ys d s h = subset_of_elem ys xs (λ c e. elem_back xs ys c d s h e)

pub elem-filter :
    (p : String → Bool) (i : String) (ids : List String)
    → elem i (filter p ids) ≡ (elem i ids && p i)
elem-filter p i [] = ground arith
elem-filter p i (j ∷ ids) = ground (arith, elem-filter p i ids, eq_iff i j)

pub filter-Distinct :
    (p : String → Bool) (ids : List String) → Distinct ids → Distinct (filter p ids)
filter-Distinct p [] d = tt
filter-Distinct p (i ∷ ids) d = ground (arith, filter-Distinct p ids d.1, elem-filter p i ids, d.0)
