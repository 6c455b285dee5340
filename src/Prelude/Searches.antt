-- ===== src/Prelude/Searches.antt =====
-- Lemmas on the searches of a list: `any`, `find`, `keep` and `count`.
use mathlib.Core.Path.{◌≡◌, refl, subst}
use mathlib.Core.Bool.{Bool, true, false}
use mathlib.Core.Logic.{inl, inr}
use mathlib.Core.List.{List, [], ◌∷◌, ◌++◌}
use mathlib.Core.Option.{none, some}
use native.Mathlib.Omega.{arith}
use easy_deploy.Prelude.Tests.{◌==◌, Bool-cases}
use easy_deploy.Prelude.Lists.{All, any, find, keep, count}
use easy_deploy.Prelude.Table.{update_where}

pub All-keep {ℓ κ} :
    {A : Type ℓ} (P : A → Type κ) (p : A → Bool) (xs : List A) → All P xs → All P (keep p xs)
unfolding keep
All-keep P p [] h = tt
All-keep P p (x ∷ xs) h = elim (Bool-cases (p x)) [
  | inl e ↦ rw e (h.0, All-keep P p xs h.1)
  | inr e ↦ rw e (All-keep P p xs h.1)
]

-- Two tests that agree on the members of a list keep the same of them.
pub keep_cong {ℓ} :
    {A : Type ℓ} (p q : A → Bool) (xs : List A) → All (λ x. p x ≡ q x) xs → keep p xs ≡ keep q xs
unfolding keep
keep_cong p q [] h = refl
keep_cong p q (x ∷ xs) h = rw (h.0, keep_cong p q xs h.1) refl

pub All-zip {ℓ κ μ ν} :
    {A : Type ℓ} (P : A → Type κ) (Q : A → Type μ) (R : A → Type ν)
    → ((a : A) → P a → Q a → R a)
    → (xs : List A) → All P xs
    → All Q xs
    → All R xs
All-zip P Q R f [] p q = tt
All-zip P Q R f (x ∷ xs) p q = (f x p.0 q.0, All-zip P Q R f xs p.1 q.1)

pub All-find {ℓ κ} :
    {A : Type ℓ} (P : A → Type κ) (p : A → Bool) (xs : List A) (a : A)
    → All P xs
    → find p xs ≡ some a
    → P a
unfolding find
All-find P p [] a h e = cc
All-find P p (x ∷ xs) a h e = elim (Bool-cases (p x)) [
  | inl q ↦ subst P (ground arith) h.0
  | inr q ↦ All-find P p xs a h.1 (ground arith)
]

pub find-none {ℓ} :
    {A : Type ℓ} (p : A → Bool) (xs : List A) → All (λ x. p x ≡ false) xs → find p xs ≡ none
unfolding find
find-none p [] h = refl
find-none p (x ∷ xs) h = rw h.0 (find-none p xs h.1)

pub any-update_where {ℓ} :
    {A : Type ℓ} (q p : A → Bool) (f : A → A)
    → ((x : A) → q (f x) ≡ q x)
    → (xs : List A) → any q (update_where p f xs) ≡ any q xs
unfolding any update_where
any-update_where q p f h [] = refl
any-update_where q p f h (x ∷ xs) = elim (Bool-cases (p x)) [
  | inl e ↦ rw (e, h x, any-update_where q p f h xs) refl
  | inr e ↦ rw (e, any-update_where q p f h xs) refl
]

pub any_before {ℓ} :
    {A : Type ℓ} (q : A → Bool) (xs ys : List A) → any q xs ≡ true → any q (xs ++ ys) ≡ true
unfolding any
any_before q [] ys h = cc
any_before q (x ∷ xs) ys h = ground (arith, any_before q xs ys)

pub any_weaken {ℓ} :
    {A : Type ℓ} (p q : A → Bool)
    → ((x : A) → p x ≡ true → q x ≡ true)
    → (xs : List A) → any p xs ≡ true
    → any q xs ≡ true
unfolding any
any_weaken p q h [] e = cc
any_weaken p q h (x ∷ xs) e = elim (Bool-cases (p x)) [
  | inl y ↦ rw (h x y) refl
  | inr n ↦ ground (arith, any_weaken p q h xs)
]

pub any_last {ℓ} :
    {A : Type ℓ} (q : A → Bool) (xs : List A) (y : A) → q y ≡ true → any q (xs ++ y ∷ []) ≡ true
unfolding any
any_last q [] y h = rw h refl
any_last q (x ∷ xs) y h = ground (arith, any_last q xs y)

pub count-any {ℓ} :
    {A : Type ℓ} (p : A → Bool) (xs : List A) → (count p xs == 0) ≡ false → any p xs ≡ true
unfolding count any
count-any p [] h = cc
count-any p (x ∷ xs) h = elim (Bool-cases (p x)) [
  | inl e ↦ rw e refl
  | inr e ↦ rw e (count-any p xs (ground arith))
]

pub any-All {ℓ κ} :
    {A : Type ℓ} (P : A → Type κ) (p q : A → Bool)
    → ((x : A) → p x ≡ true → P x → q x ≡ true)
    → (xs : List A) → any p xs ≡ true
    → All P xs
    → any q xs ≡ true
unfolding any
any-All P p q h [] e k = cc
any-All P p q h (x ∷ xs) e k = elim (Bool-cases (p x)) [
  | inl y ↦ rw (h x y k.0) refl
  | inr n ↦
      let rest = any-All P p q h xs (rw n at e) k.1 in
      elim (Bool-cases (q x)) [ inl y ↦ rw y refl | inr m ↦ rw m rest ]
]

pub any_none {ℓ} :
    {A : Type ℓ} (p : A → Bool) (xs : List A) → All (λ x. p x ≡ false) xs → any p xs ≡ false
unfolding any
any_none p [] h = refl
any_none p (x ∷ xs) h = rw (h.0, any_none p xs h.1) refl

pub any-count {ℓ} :
    {A : Type ℓ} (p : A → Bool) (xs : List A) → any p xs ≡ true → (count p xs == 0) ≡ false
unfolding count any
any-count p [] h = cc
any-count p (x ∷ xs) h = elim (Bool-cases (p x)) [
  | inl e ↦ ground arith
  | inr e ↦ ground (arith, any-count p xs)
]

-- A list none of whose elements passes a test that stands for `P`.
pub any-All_not :
    {A : Type 0} (P : A → Type 0) (p : A → Bool)
    → ((x : A) → P x → p x ≡ true)
    → (xs : List A) → any p xs ≡ false
    → All (λ x. ¬ P x) xs
unfolding any
any-All_not P p f [] h = tt
any-All_not P p f (x ∷ xs) h =
    ((λ k. ground (arith, f x k, h)), any-All_not P p f xs (ground (arith, h)))

pub All_not-any :
    {A : Type 0} (P : A → Type 0) (p : A → Bool)
    → ((x : A) → p x ≡ true → P x)
    → (xs : List A) → All (λ x. ¬ P x) xs
    → any p xs ≡ false
unfolding any
All_not-any P p f [] h = refl
All_not-any P p f (x ∷ xs) h = elim (Bool-cases (p x)) [
  | inl e ↦ absurd (h.0 (f x e))
  | inr e ↦ rw e (All_not-any P p f xs h.1)
]
