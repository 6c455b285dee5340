-- ===== src/Auth/Store/Distinct.antt =====
-- Lists of sessions in which no two share their id or a token hash: what a store holds
-- (api/src/auth/session_store.rs).
use easy_deploy.Prelude.{
  String, some, List, [], ◌∷◌, Bool, true, false, keep, find, any, All, All-imp, str_eq, ◌≡◌, ◌≢◌,
  refl, sym, subst, ◌∙◌, arith, eq_iff, Bool-cases, inl, inr, map,
}
use easy_deploy.Prelude.Searches.{All-keep, All-zip, All-find}
use easy_deploy.Auth.Types.{SessionSnapshot}
use easy_deploy.Auth.Store.{same_id}

pub record Apart (s t : SessionSnapshot) : Type 0 where
  pub ids : s.session_id ≢ t.session_id
  pub access : s.access_token_hash ≢ t.access_token_hash
  pub refresh : s.refresh_token_hash ≢ t.refresh_token_hash

abbrev pub Distinct : List SessionSnapshot → Type 0
Distinct [] = Unit
Distinct (s ∷ held) = All (Apart s) held × Distinct held

pub str_eq_ne : (a b : String) → a ≢ b → str_eq a b ≡ false
str_eq_ne a b h = ground (arith, eq_iff a b)

pub str_eq_self : (a : String) → str_eq a a ≡ true
str_eq_self a = ground (arith, eq_iff a a)

pub Apart-sym : (s t : SessionSnapshot) → Apart s t → Apart t s
Apart-sym s t h = record {
  ids = λ e. h.ids (sym e);
  access = λ e. h.access (sym e);
  refresh = λ e. h.refresh (sym e);
}

pub Distinct-keep :
    (p : SessionSnapshot → Bool) (held : List SessionSnapshot)
    → Distinct held
    → Distinct (keep p held)
unfolding keep
Distinct-keep p [] d = tt
Distinct-keep p (s ∷ held) d = elim (Bool-cases (p s)) [
  | inl e ↦ rw e (All-keep (Apart s) p held d.0, Distinct-keep p held d.1)
  | inr e ↦ rw e (Distinct-keep p held d.1)
]

-- A column that tells the sessions apart.
pub record IsKey {ℓ} {K : Type ℓ} (same : K → K → Bool) (key : SessionSnapshot → K) : Type ℓ where
  pub self : (s : SessionSnapshot) → same (key s) (key s) ≡ true
  pub other : (s t : SessionSnapshot) → Apart s t → same (key s) (key t) ≡ false

pub id-IsKey : IsKey same_id (λ s. s.session_id)
id-IsKey = record { self = λ s. ground arith; other = λ s t h. ground (arith, h.ids) }

pub access-IsKey : IsKey str_eq (λ s. s.access_token_hash)
access-IsKey = record {
  self = λ s. str_eq_self s.access_token_hash;
  other = λ s t h. str_eq_ne s.access_token_hash t.access_token_hash h.access;
}

pub refresh-IsKey : IsKey str_eq (λ s. s.refresh_token_hash)
refresh-IsKey = record {
  self = λ s. str_eq_self s.refresh_token_hash;
  other = λ s t h. str_eq_ne s.refresh_token_hash t.refresh_token_hash h.refresh;
}

none_id :
    (s : SessionSnapshot) (held : List SessionSnapshot)
    → All (Apart s) held
    → All (λ t. same_id s.session_id t.session_id ≡ false) held
none_id s held h = All-imp (Apart s) _ (λ t. id-IsKey.other s t) held h

module _ {ℓ} {K : Type ℓ} (same : K → K → Bool) (key : SessionSnapshot → K)
    (is_key : IsKey same key) where
  none_same :
      (s : SessionSnapshot) (held : List SessionSnapshot)
      → All (Apart s) held
      → All (λ t. same (key s) (key t) ≡ false) held
  none_same s held h = All-imp (Apart s) _ (is_key.other s) held h

  abbrev Agrees : SessionSnapshot → SessionSnapshot → Type 0
  Agrees s t = same (key s) (key t) ≡ same_id s.session_id t.session_id

  -- Whatever column finds a session, it finds the one that the id finds.
  pub find_same :
      (held : List SessionSnapshot) (s : SessionSnapshot)
      → Distinct held
      → find (λ t. same_id s.session_id t.session_id) held ≡ some s
      → All (Agrees s) held
  unfolding find
  find_same [] s d h = tt
  find_same (t ∷ held) s d h = elim (Bool-cases (same_id s.session_id t.session_id)) [
    | inl e ↦
        let found : t ≡ s = ground arith in
        let ids =
          All-zip _ _ _ (λ u p q. p ∙ sym q) held (none_same t held d.0) (none_id t held d.0) in
        subst (λ u. All (Agrees u) (t ∷ held)) found (is_key.self t ∙ sym (id-IsKey.self t), ids)
    | inr e ↦
        let rest : find (λ u. same_id s.session_id u.session_id) held ≡ some s = ground arith in
        let apart = Apart-sym t s (All-find (Apart t) _ held s d.0 rest) in
        (is_key.other s t apart ∙ sym e, find_same held s d.1 rest)
  ]

  any-Apart :
      (p : SessionSnapshot → Bool) (t : SessionSnapshot) (held : List SessionSnapshot)
      → All (Apart t) held
      → any (λ k. same k (key t)) (map key (keep p held)) ≡ false
  unfolding keep any
  any-Apart p t [] h = refl
  any-Apart p t (s ∷ held) h = elim (Bool-cases (p s)) [
    | inl e ↦ rw (e, is_key.other s t (Apart-sym t s h.0), any-Apart p t held h.1) refl
    | inr e ↦ rw (e, any-Apart p t held h.1) refl
  ]

  any_later :
      (p : SessionSnapshot → Bool) (t u : SessionSnapshot) (held : List SessionSnapshot)
      → same (key t) (key u) ≡ false
      → any (λ k. same k (key u)) (map key (keep p held)) ≡ p u
      → any (λ k. same k (key u)) (map key (keep p (t ∷ held))) ≡ p u
  unfolding keep any
  any_later p t u held other rest = elim (Bool-cases (p t)) [
    | inl e ↦ rw (e, other) rest
    | inr e ↦ rw e rest
  ]

  -- Of the sessions kept by a test, some has the key of a member exactly if the test keeps it.
  pub any_kept :
      (p : SessionSnapshot → Bool) (held : List SessionSnapshot)
      → Distinct held
      → All (λ t. any (λ k. same k (key t)) (map key (keep p held)) ≡ p t) held
  unfolding keep any
  any_kept p [] d = tt
  any_kept p (t ∷ held) d =
      let later : All (λ u. any (λ k. same k (key u)) (map key (keep p (t ∷ held))) ≡ p u) held =
        All-zip (Apart t) (λ u. any (λ k. same k (key u)) (map key (keep p held)) ≡ p u) _
          (λ u apart rest. any_later p t u held (is_key.other t u apart) rest) held d.0
          (any_kept p held d.1) in
      elim (Bool-cases (p t)) [
        | inl e ↦ (rw (e, is_key.self t) refl, later)
        | inr e ↦ (rw (e, any-Apart p t held d.0) refl, later)
      ]
