-- ===== src/Prelude/Table.antt =====
-- Tables as lists of rows, and the statements that the program issues: an UPDATE with its WHERE, the
-- count of the rows that it affects, and a SELECT.
use Prim.Native.Nat.{suc}
use mathlib.Core.Path.{◌≡◌, refl, ap}
use mathlib.Core.Bool.{Bool, true, false}
use mathlib.Core.List.{List, [], ◌∷◌}
use mathlib.Core.Logic.{inl, inr}
use easy_deploy.Prelude.Tests.{if◌then◌else◌, Bool-cases}
use easy_deploy.Prelude.Lists.{All, length, count}

module _ {ℓ} {A : Type ℓ} where
  -- UPDATE table SET f WHERE p.
  unfoldable pub update_where : (A → Bool) → (A → A) → List A → List A
  update_where p f [] = []
  update_where p f (x ∷ xs) = (if p x then f x else x) ∷ update_where p f xs

  -- A property that the assignment gives to the rows it changes, and that the others have.
  pub All-update_where {κ μ} :
      (P : A → Type κ) (Q : A → Type μ) (p : A → Bool) (f : A → A)
      → ((x : A) → p x ≡ true → P x → Q (f x))
      → ((x : A) → p x ≡ false → P x → Q x)
      → (xs : List A) → All P xs
      → All Q (update_where p f xs)
  unfolding update_where
  All-update_where P Q p f changed kept [] h = tt
  All-update_where P Q p f changed kept (x ∷ xs) h =
      let rest = All-update_where P Q p f changed kept xs h.1 in
      elim (Bool-cases (p x)) [
        | inl e ↦ rw e (changed x e h.0, rest)
        | inr e ↦ rw e (kept x e h.0, rest)
      ]

  -- The same, where nothing is known of the rows before.
  pub All-update_where_plain {μ} :
      (Q : A → Type μ) (p : A → Bool) (f : A → A)
      → ((x : A) → p x ≡ true → Q (f x))
      → ((x : A) → p x ≡ false → Q x)
      → (xs : List A) → All Q (update_where p f xs)
  unfolding update_where
  All-update_where_plain Q p f changed kept [] = tt
  All-update_where_plain Q p f changed kept (x ∷ xs) =
      let rest = All-update_where_plain Q p f changed kept xs in
      elim (Bool-cases (p x)) [ inl e ↦ rw e (changed x e, rest) | inr e ↦ rw e (kept x e, rest) ]

  pub length-update_where :
      (p : A → Bool) (f : A → A) (xs : List A) → length (update_where p f xs) ≡ length xs
  unfolding update_where
  length-update_where p f [] = refl
  length-update_where p f (x ∷ xs) = ap suc (length-update_where p f xs)

  -- An update that leaves a test alone leaves its count alone.
  pub count-update_where :
      (q p : A → Bool) (f : A → A)
      → ((x : A) → p x ≡ true → q (f x) ≡ q x)
      → (xs : List A) → count q (update_where p f xs) ≡ count q xs
  unfolding update_where count
  count-update_where q p f keeps [] = refl
  count-update_where q p f keeps (x ∷ xs) = elim (Bool-cases (p x)) [
    | inl e ↦ rw (e, keeps x e, count-update_where q p f keeps xs)
    | inr e ↦ rw (e, count-update_where q p f keeps xs)
  ]
