-- ===== src/Prelude/Pairwise.antt =====
-- Two tables row by row: what an UPDATE, or several of them, make of each row.
use mathlib.Core.Path.{◌≡◌}
use mathlib.Core.Bool.{Bool, true, false}
use mathlib.Core.List.{List, [], ◌∷◌}
use mathlib.Core.Logic.{inl, inr}
use easy_deploy.Prelude.Tests.{Bool-cases}
use easy_deploy.Prelude.Lists.{All}
use easy_deploy.Prelude.Table.{update_where}

module _ {A : Type 0} where
  -- The tables are equally long, and the rows at each place are related.
  abbrev pub Pairwise : (A → A → Type 0) → List A → List A → Type 0
  Pairwise R [] [] = Unit
  Pairwise R [] (y ∷ ys) = ⊥
  Pairwise R (x ∷ xs) [] = ⊥
  Pairwise R (x ∷ xs) (y ∷ ys) = R x y × Pairwise R xs ys

  pub Pairwise-update_where :
      (R : A → A → Type 0) (p : A → Bool) (f : A → A)
      → ((x : A) → p x ≡ true → R x (f x))
      → ((x : A) → p x ≡ false → R x x)
      → (xs : List A) → Pairwise R xs (update_where p f xs)
  unfolding update_where
  Pairwise-update_where R p f changed kept [] = tt
  Pairwise-update_where R p f changed kept (x ∷ xs) =
      let rest = Pairwise-update_where R p f changed kept xs in
      elim (Bool-cases (p x)) [ inl e ↦ rw e (changed x e, rest) | inr e ↦ rw e (kept x e, rest) ]

  pub Pairwise-refl : (R : A → A → Type 0) → ((x : A) → R x x) → (xs : List A) → Pairwise R xs xs
  Pairwise-refl R same [] = tt
  Pairwise-refl R same (x ∷ xs) = (same x, Pairwise-refl R same xs)

  pub Pairwise-trans :
      (R S T : A → A → Type 0)
      → ((x y z : A) → R x y → S y z → T x z)
      → (xs ys zs : List A) → Pairwise R xs ys
      → Pairwise S ys zs
      → Pairwise T xs zs
  Pairwise-trans R S T join [] [] [] r s = tt
  Pairwise-trans R S T join [] [] (z ∷ zs) r s = absurd s
  Pairwise-trans R S T join [] (y ∷ ys) zs r s = absurd r
  Pairwise-trans R S T join (x ∷ xs) [] zs r s = absurd r
  Pairwise-trans R S T join (x ∷ xs) (y ∷ ys) [] r s = absurd s
  Pairwise-trans R S T join (x ∷ xs) (y ∷ ys) (z ∷ zs) r s =
      (join x y z r.0 s.0, Pairwise-trans R S T join xs ys zs r.1 s.1)

  -- A property of the later rows.
  pub Pairwise-All :
      (R T : A → A → Type 0) (P : A → Type 0)
      → ((x y : A) → R x y → P y → T x y)
      → (xs ys : List A) → Pairwise R xs ys
      → All P ys
      → Pairwise T xs ys
  Pairwise-All R T P join [] [] r p = tt
  Pairwise-All R T P join [] (y ∷ ys) r p = absurd r
  Pairwise-All R T P join (x ∷ xs) [] r p = absurd r
  Pairwise-All R T P join (x ∷ xs) (y ∷ ys) r p =
      (join x y r.0 p.0, Pairwise-All R T P join xs ys r.1 p.1)
