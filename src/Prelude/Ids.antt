-- ===== src/Prelude/Ids.antt =====
-- Lists of row ids as `sort_unstable` and `dedup` leave them: strictly ascending, and fixed by the
-- set of ids alone.
use Prim.Native.Nat.{ℕ, ◌≤◌}
use mathlib.Core.Path.{◌≡◌, refl, sym, ap, ◌∙◌}
use mathlib.Core.Logic.{inl, inr}
use mathlib.Core.Bool.{Bool, true, false, ◌||◌}
use mathlib.Core.List.{List, [], ◌∷◌}
use native.Mathlib.Omega.{arith}
use easy_deploy.Prelude.Tests.{◌==◌, if◌then◌else◌, leb, ltb, Bool-cases}
use easy_deploy.Prelude.Lists.{All, All-imp, contains}
use easy_deploy.Prelude.Sorting.{sort_by, insert_by, IsSorted, sort_by-IsSorted}

dedup_after : ℕ → List ℕ → List ℕ
dedup_after x [] = []
dedup_after x (y ∷ ys) = let rest = dedup_after y ys in if x == y then rest else y ∷ rest

unfoldable pub dedup : List ℕ → List ℕ
unfolding dedup_after
dedup [] = []
dedup (x ∷ xs) = x ∷ dedup_after x xs

unfoldable pub sort_ids : List ℕ → List ℕ
unfolding sort_by
sort_ids = sort_by leb

sort_ids-IsSorted : (xs : List ℕ) → IsSorted leb (sort_ids xs)
unfolding sort_ids
sort_ids-IsSorted = sort_by-IsSorted leb (λ a b h. ground arith) (λ a b c p q. ground arith)

contains-insert_by :
    (a x : ℕ) (xs : List ℕ) → contains a (insert_by leb x xs) ≡ (a == x || contains a xs)
unfolding contains insert_by
contains-insert_by a x [] = refl
contains-insert_by a x (y ∷ ys) = ground (arith, contains-insert_by a x ys)

pub contains-sort_ids : (a : ℕ) (xs : List ℕ) → contains a (sort_ids xs) ≡ contains a xs
unfolding contains sort_ids
contains-sort_ids a [] = refl
contains-sort_ids a (x ∷ xs) =
    contains-insert_by a x (sort_ids xs) ∙ ap (λ (b : Bool). a == x || b) (contains-sort_ids a xs)

contains-dedup_after :
    (a x : ℕ) (xs : List ℕ) → (a == x || contains a (dedup_after x xs)) ≡ (a == x || contains a xs)
unfolding contains dedup_after
contains-dedup_after a x [] = refl
contains-dedup_after a x (y ∷ ys) = ground (arith, contains-dedup_after a y ys)

pub contains-dedup : (a : ℕ) (xs : List ℕ) → contains a (dedup xs) ≡ contains a xs
unfolding contains dedup
contains-dedup a [] = refl
contains-dedup a (x ∷ xs) = contains-dedup_after a x xs

dedup_after-IsSorted :
    (x : ℕ) (ys : List ℕ)
    → All (λ y. leb x y ≡ true) ys
    → IsSorted leb ys
    → All (λ y. ltb x y ≡ true) (dedup_after x ys) × IsSorted ltb (dedup_after x ys)
unfolding dedup_after
dedup_after-IsSorted x [] h s = (tt, tt)
dedup_after-IsSorted x (y ∷ ys) h s =
    let rest = dedup_after-IsSorted y ys s.0 s.1 in
    let after =
      All-imp (λ z. ltb y z ≡ true) (λ z. ltb x z ≡ true) (λ z p. ground (arith, h.0))
        (dedup_after y ys) rest.0 in
    elim (Bool-cases (x == y)) [
      | inl e ↦ rw e (after, rest.1)
      | inr e ↦ rw e ((ground (arith, h.0), after), rest)
    ]

pub dedup-IsSorted : (xs : List ℕ) → IsSorted leb xs → IsSorted ltb (dedup xs)
unfolding dedup
dedup-IsSorted [] s = tt
dedup-IsSorted (x ∷ xs) s = dedup_after-IsSorted x xs s.0 s.1

-- What is sorted and free of repeats.
pub dedup-sort_ids-IsSorted : (xs : List ℕ) → IsSorted ltb (dedup (sort_ids xs))
dedup-sort_ids-IsSorted xs = dedup-IsSorted (sort_ids xs) (sort_ids-IsSorted xs)

contains_below :
    (a x : ℕ) (ys : List ℕ) → All (λ y. ltb x y ≡ true) ys → a ≤ x → contains a ys ≡ false
unfolding contains
contains_below a x [] h le = refl
contains_below a x (y ∷ ys) h le = ground (arith, h.0, contains_below a x ys h.1)

head_unique :
    (x y : ℕ) (xs ys : List ℕ)
    → All (λ z. ltb x z ≡ true) xs
    → All (λ z. ltb y z ≡ true) ys
    → ((a : ℕ) → contains a (x ∷ xs) ≡ contains a (y ∷ ys))
    → x ≡ y
unfolding contains
head_unique x y xs ys p q h =
    ground (arith, h x, h y, contains_below y x xs p, contains_below x y ys q)

tail_contains :
    (x : ℕ) (xs ys : List ℕ)
    → All (λ z. ltb x z ≡ true) xs
    → All (λ z. ltb x z ≡ true) ys
    → ((a : ℕ) → contains a (x ∷ xs) ≡ contains a (x ∷ ys))
    → (a : ℕ) → contains a xs ≡ contains a ys
unfolding contains
tail_contains x xs ys p q h a =
    ground (arith, h a, contains_below a x xs p, contains_below a x ys q)

-- Two strictly ascending lists with the same members are one list.
pub sorted_unique :
    (xs ys : List ℕ)
    → IsSorted ltb xs
    → IsSorted ltb ys
    → ((a : ℕ) → contains a xs ≡ contains a ys)
    → xs ≡ ys
unfolding contains
sorted_unique [] [] s t h = refl
sorted_unique [] (y ∷ ys) s t h = ground (arith, h y)
sorted_unique (x ∷ xs) [] s t h = ground (arith, h x)
sorted_unique (x ∷ xs) (y ∷ ys) s t h =
    let e = head_unique x y xs ys s.0 t.0 h in
    let t' : IsSorted ltb (x ∷ ys) = rw e t in
    let h' : (a : ℕ) → contains a (x ∷ xs) ≡ contains a (x ∷ ys) = rw (← e) at h in
    rw (← e) (ap (λ zs. x ∷ zs) (sorted_unique xs ys s.1 t'.1 (tail_contains x xs ys s.0 t'.0 h')))

-- So sorting and removing repeats sees the set of ids only.
pub dedup-sort_ids_unique :
    (xs ys : List ℕ)
    → ((a : ℕ) → contains a xs ≡ contains a ys)
    → dedup (sort_ids xs) ≡ dedup (sort_ids ys)
dedup-sort_ids_unique xs ys h =
    sorted_unique _ _ (dedup-sort_ids-IsSorted xs) (dedup-sort_ids-IsSorted ys) λ a.
      contains-dedup a (sort_ids xs)
      ∙ contains-sort_ids a xs
      ∙ h a
      ∙ sym (contains-sort_ids a ys)
      ∙ sym (contains-dedup a (sort_ids ys))
