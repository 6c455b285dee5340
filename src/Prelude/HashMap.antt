-- ===== src/Prelude/HashMap.antt =====
-- `HashMap` as an association list in which a key occurs once: `get`, `insert`, `remove`, `values`,
-- over a Boolean test for equal keys.
use mathlib.Core.Path.{◌≡◌, refl, sym, ap, ◌∙◌}
use mathlib.Core.Bool.{Bool, true, false, not, ◌&&◌, ◌||◌}
use mathlib.Core.Logic.{inl, inr}
use mathlib.Core.List.{List, [], ◌∷◌, map}
use mathlib.Core.Option.{Option, none, some}
use native.Mathlib.Omega.{arith}
use easy_deploy.Prelude.Tests.{if◌then◌else◌, Bool-cases}
use easy_deploy.Prelude.Lists.{keep, find, any}

module _ {ℓ} {K V : Type ℓ} (same : K → K → Bool) where
  unfoldable pub get : K → List (K × V) → Option V
  get k [] = none
  get k ((q, v) ∷ rest) = if same k q then some v else get k rest

  unfoldable pub remove : K → List (K × V) → List (K × V)
  remove k [] = []
  remove k ((q, v) ∷ rest) =
      let others = remove k rest in if same k q then others else (q, v) ∷ others

  unfoldable pub insert : K → V → List (K × V) → List (K × V)
  unfolding remove
  insert k v entries = (k, v) ∷ remove k entries

  unfoldable pub remove_all : List K → List (K × V) → List (K × V)
  unfolding remove
  remove_all [] entries = entries
  remove_all (k ∷ ks) entries = remove_all ks (remove k entries)

  pub get-absent :
      (k : K) (entries : List (K × V)) → get k entries ≡ none → remove k entries ≡ entries
  unfolding get remove
  get-absent k [] h = refl
  get-absent k ((q, v) ∷ rest) h = ground (arith, get-absent k rest)

module _ {ℓ} {A : Type ℓ} where
  keep-true : (p : A → Bool) (xs : List A) → ((a : A) → p a ≡ true) → keep p xs ≡ xs
  unfolding keep
  keep-true p [] h = refl
  keep-true p (x ∷ xs) h = rw (h x) (ap (◌∷◌ x) (keep-true p xs h))

  keep-keep :
      (p q r : A → Bool)
      → ((a : A) → r a ≡ (q a && p a))
      → (xs : List A) → keep p (keep q xs) ≡ keep r xs
  unfolding keep
  keep-keep p q r h [] = refl
  keep-keep p q r h (x ∷ xs) = ground (arith, h x, keep-keep p q r h xs)

not_or : (a b : Bool) → not (a || b) ≡ (not a && not b)
not_or true b = refl
not_or false b = refl

-- A map that holds an entry for each member of a list.
module _ {ℓ κ} {A : Type κ} {K V : Type ℓ} (same : K → K → Bool) (key : A → K) (value : A → V) where
  abbrev pub entry : A → K × V
  entry a = (key a, value a)

  pub get-entries :
      (k : K) (xs : List A)
      → get same k (map entry xs)
        ≡ elim (find (λ a. same k (key a)) xs) [ none ↦ none | some a ↦ some (value a) ]
  unfolding get find
  get-entries k [] = refl
  get-entries k (x ∷ xs) = elim (Bool-cases (same k (key x))) [
    | inl e ↦ rw e refl
    | inr e ↦ rw e (get-entries k xs)
  ]

  pub remove-entries :
      (k : K) (xs : List A)
      → remove same k (map entry xs) ≡ map entry (keep (λ a. not (same k (key a))) xs)
  unfolding remove keep
  remove-entries k [] = refl
  remove-entries k (x ∷ xs) = elim (Bool-cases (same k (key x))) [
    | inl e ↦ rw e (remove-entries k xs)
    | inr e ↦ rw e (ap (◌∷◌ (entry x)) (remove-entries k xs))
  ]

  pub remove_all-entries :
      (ks : List K) (xs : List A)
      → remove_all same ks (map entry xs)
        ≡ map entry (keep (λ a. not (any (λ k. same k (key a)) ks)) xs)
  unfolding remove_all any
  remove_all-entries [] xs = ap (map entry) (sym (keep-true (λ _. true) xs (λ _. refl)))
  remove_all-entries (k ∷ ks) xs = rw (remove-entries k xs) (
      remove_all-entries ks (keep (λ a. not (same k (key a))) xs)
      ∙ ap (map entry) (keep-keep _ _ _ (λ a. not_or (same k (key a)) _) xs))
