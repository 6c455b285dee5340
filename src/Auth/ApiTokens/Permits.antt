-- ===== src/Auth/ApiTokens/Permits.antt =====
-- The permits of the requests that are open, as a list of the ids of their tokens
-- (api/src/auth/service.rs, `ApiTokenRequestPermit`).
use easy_deploy.Prelude.{
  ℕ, suc, List, [], ◌∷◌, ◌++◌, Bool, true, false, ◌+◌, ◌≤◌, ◌<◌, ◌==◌, if◌then◌else◌, count,
  contains, keep, All, ◌≡◌, refl, arith, Bool-cases, inl, inr,
}

-- The requests that a token has open.
abbrev pub open_requests : ℕ → List ℕ → ℕ
open_requests token_id permits = count (λ id. id == token_id) permits

-- One request of the token ends.
unfoldable pub give_back : ℕ → List ℕ → List ℕ
give_back token_id [] = []
give_back token_id (id ∷ ids) =
    let rest = give_back token_id ids in if id == token_id then ids else id ∷ rest

pub give_back-open_requests :
    (token_id : ℕ) (permits : List ℕ)
    → contains token_id permits ≡ true
    → suc (open_requests token_id (give_back token_id permits)) ≡ open_requests token_id permits
unfolding give_back count contains
give_back-open_requests token_id [] h = cc
give_back-open_requests token_id (id ∷ ids) h = elim (Bool-cases (id == token_id)) [
  | inl e ↦ rw e (omega arith)
  | inr e ↦ rw (e, e) (omega (arith, give_back-open_requests token_id ids (ground (arith, e, h))))
]

pub give_back-count :
    (token_id : ℕ) (p : ℕ → Bool) (permits : List ℕ)
    → count p (give_back token_id permits) ≤ count p permits
unfolding give_back count
give_back-count token_id p [] = omega arith
give_back-count token_id p (id ∷ ids) =
    let rest = give_back-count token_id p ids in
    elim (Bool-cases (id == token_id)) [
      | inl e ↦
          rw e
            (elim (Bool-cases (p id)) [ inl q ↦ rw q (omega arith) | inr q ↦ rw q (omega arith) ])
      | inr e ↦ rw e (elim (Bool-cases (p id)) [
        | inl q ↦ rw q (omega (arith, rest))
        | inr q ↦ rw q (omega (arith, rest))
      ])
    ]

pub All-give_back :
    (P : ℕ → Type 0) (token_id : ℕ) (permits : List ℕ)
    → All P permits
    → All P (give_back token_id permits)
unfolding give_back
All-give_back P token_id [] h = tt
All-give_back P token_id (id ∷ ids) h = elim (Bool-cases (id == token_id)) [
  | inl e ↦ rw e h.1
  | inr e ↦ rw e (h.0, All-give_back P token_id ids h.1)
]

-- A token that is still to be created has no request open.
pub open_requests_fresh :
    (next : ℕ) (permits : List ℕ) → All (λ id. id < next) permits → open_requests next permits ≡ 0
unfolding count
open_requests_fresh next [] h = refl
open_requests_fresh next (id ∷ ids) h = ground (arith, h.0, open_requests_fresh next ids h.1)

module _ {A : Type 0} where
  pub count_last_le : (p : A → Bool) (xs : List A) (y : A) → count p (xs ++ y ∷ []) ≤ count p xs + 1
  unfolding count
  count_last_le p [] y = ground arith
  count_last_le p (x ∷ xs) y = ground (arith, count_last_le p xs y)

  pub count_last_other :
      (p : A → Bool) (xs : List A) (y : A) → p y ≡ false → count p (xs ++ y ∷ []) ≡ count p xs
  unfolding count
  count_last_other p [] y h = rw h refl
  count_last_other p (x ∷ xs) y h = ground (arith, count_last_other p xs y h)

  pub count-keep_le : (p q : A → Bool) (xs : List A) → count p (keep q xs) ≤ count p xs
  unfolding count keep
  count-keep_le p q [] = omega arith
  count-keep_le p q (x ∷ xs) =
      let rest = count-keep_le p q xs in
      elim (Bool-cases (q x)) [
        | inl e ↦ rw e (ground (arith, rest))
        | inr e ↦ rw e (ground (arith, rest))
      ]

  pub count_none : (p : A → Bool) (xs : List A) → All (λ x. p x ≡ false) xs → count p xs ≡ 0
  unfolding count
  count_none p [] h = refl
  count_none p (x ∷ xs) h = ground (arith, h.0, count_none p xs h.1)

  count_weaken :
      (p q : A → Bool)
      → ((x : A) → q x ≡ true → p x ≡ true)
      → (xs : List A) → count q xs ≤ count p xs
  unfolding count
  count_weaken p q h [] = omega arith
  count_weaken p q h (x ∷ xs) =
      let rest = count_weaken p q h xs in
      elim (Bool-cases (q x)) [
        | inl e ↦ rw (e, h x e) (omega (arith, rest))
        | inr e ↦ ground (arith, e, rest)
      ]

  -- Where as many pass a stronger test, it is no stronger on these elements.
  pub count-All :
      (p q : A → Bool)
      → ((x : A) → q x ≡ true → p x ≡ true)
      → (xs : List A) → count p xs ≤ count q xs
      → All (λ x. p x ≡ true → q x ≡ true) xs
  unfolding count
  count-All p q h [] le = tt
  count-All p q h (x ∷ xs) le =
      let fewer = count_weaken p q h xs in
      elim (Bool-cases (q x)) [
        | inl e ↦ ((λ _. e), count-All p q h xs (omega (arith, rw (e, h x e) at le)))
        | inr e ↦ elim (Bool-cases (p x)) [
          | inl f ↦ absurd (omega (arith, rw (e, f) at le, fewer))
          | inr f ↦
              ((λ g. ground (arith, f, g)), count-All p q h xs (omega (arith, rw (e, f) at le)))
        ]
      ]
