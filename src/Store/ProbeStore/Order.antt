-- ===== src/Store/ProbeStore/Order.antt =====
-- The order of the probes after the sort of pkg/store/probe_store.go.
use package.shinzo_scheduler_service.Base.{
  zero, suc, ℕ, ◌≡◌, refl, false, List, [], ◌∷◌, ◌++◌, All, take, drop, Bool-cases, inl, inr,
}
use package.shinzo_scheduler_service.Base.Order.{str_lt, str_lt_asymm, str_lt_chain}
use package.shinzo_scheduler_service.Base.Unique.{All-imp}
use package.shinzo_scheduler_service.Store.Records.{ProbeResultRecord}
use package.shinzo_scheduler_service.Store.ProbeStore.{move_down, sort_rest, sort_probe_results_asc}
use mathlib.Core.List.{reverse_aux, Permᴰ}
use mathlib.Core.List.Permᴰ

-- One result was not probed before another.
abbrev pub NotBefore : ProbeResultRecord → ProbeResultRecord → Type 0
NotBefore r q = str_lt r.probed_at q.probed_at ≡ false

-- Every result was not probed before those that stand to its left.
abbrev pub Ascending : List ProbeResultRecord → Type 0
Ascending [] = Unit
Ascending (r ∷ rs) = All (λ q. NotBefore q r) rs × Ascending rs

-- The same from the end.
abbrev Descending : List ProbeResultRecord → Type 0
Descending [] = Unit
Descending (r ∷ rs) = All (λ q. NotBefore r q) rs × Descending rs

All-drop :
    (P : ProbeResultRecord → Type 0) (n : ℕ) (rs : List ProbeResultRecord)
    → All P rs
    → All P (drop n rs)
All-drop P zero rs h = h
All-drop P (suc n) [] h = tt
All-drop P (suc n) (r ∷ rs) h = All-drop P n rs h.1

All-move_down :
    (P : ProbeResultRecord → Type 0) (r : ProbeResultRecord) (qs : List ProbeResultRecord)
    → P r
    → All P qs
    → All P (move_down r qs)
unfolding move_down
All-move_down P r [] h hs = (h, tt)
All-move_down P r (q ∷ qs) h hs = elim (Bool-cases (str_lt r.probed_at q.probed_at)) [
  | inl before ↦ rw before (hs.0, All-move_down P r qs h hs.1)
  | inr after ↦ rw after (h, hs)
]

move_down-Descending :
    (r : ProbeResultRecord) (qs : List ProbeResultRecord)
    → Descending qs
    → Descending (move_down r qs)
unfolding move_down
move_down-Descending r [] d = (tt, tt)
move_down-Descending r (q ∷ qs) d = elim (Bool-cases (str_lt r.probed_at q.probed_at)) [
  | inl before ↦ rw before (
    All-move_down (NotBefore q) r qs (str_lt_asymm _ _ before) d.0,
    move_down-Descending r qs d.1,
  )
  | inr later ↦ rw later ((later, All-imp _ _ qs (λ x h. str_lt_chain _ _ _ later h) d.0), d)
]

reverse_aux-Ascending :
    (rs done : List ProbeResultRecord)
    → Descending rs
    → Ascending done
    → All (λ r. All (λ q. NotBefore q r) done) rs
    → Ascending (reverse_aux rs done)
reverse_aux-Ascending [] done d a h = a
reverse_aux-Ascending (r ∷ rs) done d a h =
    reverse_aux-Ascending rs (r ∷ done) d.1 (h.0, a) (both rs d.0 h.1)
  where
    both :
        (qs : List ProbeResultRecord)
        → All (λ q. NotBefore r q) qs
        → All (λ x. All (λ q. NotBefore q x) done) qs
        → All (λ x. All (λ q. NotBefore q x) (r ∷ done)) qs
    both [] l k = tt
    both (q ∷ qs) l k = ((l.0, k.0), both qs l.1 k.1)

nothing_below : (rs : List ProbeResultRecord) → All (λ r. All (λ q. NotBefore q r) []) rs
nothing_below [] = tt
nothing_below (r ∷ rs) = (tt, nothing_below rs)

sort_rest-Ascending :
    (sorted rest : List ProbeResultRecord) → Descending sorted → Ascending (sort_rest sorted rest)
unfolding sort_rest
sort_rest-Ascending sorted [] d = reverse_aux-Ascending sorted [] d tt (nothing_below sorted)
sort_rest-Ascending sorted (r ∷ rest) d =
    sort_rest-Ascending (move_down r sorted) rest (move_down-Descending r sorted d)

pub sort_probe_results_asc-Ascending :
    (recs : List ProbeResultRecord) → Ascending (sort_probe_results_asc recs)
unfolding sort_probe_results_asc
sort_probe_results_asc-Ascending recs = sort_rest-Ascending [] recs tt

move_down-perm :
    (r : ProbeResultRecord) (qs : List ProbeResultRecord) → Permᴰ (move_down r qs) (r ∷ qs)
unfolding move_down
move_down-perm r [] = Permᴰ.refl _
move_down-perm r (q ∷ qs) = elim (Bool-cases (str_lt r.probed_at q.probed_at)) [
  | inl before ↦
      rw before (Permᴰ.trans (Permᴰ.cons refl (move_down-perm r qs)) (Permᴰ.swap refl refl))
  | inr later ↦ rw later (Permᴰ.refl _)
]

sort_rest-perm :
    (sorted rest : List ProbeResultRecord) → Permᴰ (sort_rest sorted rest) (sorted ++ rest)
unfolding sort_rest
sort_rest-perm sorted [] = Permᴰ.trans (Permᴰ.reverse sorted) (Permᴰ.symm (Permᴰ.append-nil sorted))
sort_rest-perm sorted (r ∷ rest) = Permᴰ.trans (sort_rest-perm (move_down r sorted) rest) (
    Permᴰ.trans (Permᴰ.append_right rest (move_down-perm r sorted))
      (Permᴰ.symm (Permᴰ.middle r sorted rest)))

pub sort_probe_results_asc-perm :
    (recs : List ProbeResultRecord) → Permᴰ (sort_probe_results_asc recs) recs
unfolding sort_probe_results_asc
sort_probe_results_asc-perm recs = sort_rest-perm [] recs

-- Cut anywhere, what is right of the cut was not probed before what is left of it.
pub take-drop-NotBefore :
    (n : ℕ) (rs : List ProbeResultRecord)
    → Ascending rs
    → All (λ r. All (λ q. NotBefore q r) (drop n rs)) (take n rs)
take-drop-NotBefore zero rs a = tt
take-drop-NotBefore (suc n) [] a = tt
take-drop-NotBefore (suc n) (r ∷ rs) a = (All-drop _ n rs a.0, take-drop-NotBefore n rs a.1)
