-- ===== src/Auth/Store/Refines.antt =====
-- What the session store promises: it is a list of sessions, read by a scan and cleaned by a filter
-- (api/src/auth/session_store.rs).
use easy_deploy.Prelude.{
  ℕ, String, none, some, List, [], ◌∷◌, Bool, not, keep, find, All, All-imp, str_eq, ◌≡◌, refl, ap,
  sym, subst, ◌∙◌, arith, Option-cases, Bool-cases, inl, inr, map,
}
use easy_deploy.Prelude.HashMap.{
  insert, remove, remove_all, get-absent, get-entries, remove-entries, remove_all-entries,
}
use easy_deploy.Prelude.Searches.{keep_cong, All-find, find-none}
use easy_deploy.Auth.Types.{SessionSnapshot}
use easy_deploy.Auth.Store.{
  MemorySessionStore, same_id, of_account, save, get_by_access_hash, get_by_refresh_hash,
  delete_session, delete_session_by_id, delete_sessions_by_account,
}
use easy_deploy.Auth.Store.Distinct.{
  Apart, Distinct, IsKey, Apart-sym, id-IsKey, access-IsKey, refresh-IsKey, find_same, any_kept,
}

-- The store that holds these sessions.
abbrev pub store_of : List SessionSnapshot → MemorySessionStore
store_of held = record {
  access_index = map (λ s. (s.access_token_hash, s.session_id)) held;
  refresh_index = map (λ s. (s.refresh_token_hash, s.session_id)) held;
  sessions = map (λ s. (s.session_id, s)) held;
}

abbrev pub id_is : ℕ → SessionSnapshot → Bool
id_is session_id s = same_id session_id s.session_id

abbrev pub access_is : String → SessionSnapshot → Bool
access_is hash s = str_eq hash s.access_token_hash

abbrev pub refresh_is : String → SessionSnapshot → Bool
refresh_is hash s = str_eq hash s.refresh_token_hash

abbrev pub without : (SessionSnapshot → Bool) → List SessionSnapshot → List SessionSnapshot
without p = keep (λ s. not (p s))

without-none :
    (session_id : ℕ) (held : List SessionSnapshot)
    → find (id_is session_id) held ≡ none
    → without (id_is session_id) held ≡ held
unfolding find keep
without-none session_id [] h = refl
without-none session_id (s ∷ held) h = ground (arith, without-none session_id held)

pub found_id :
    (session_id : ℕ) (held : List SessionSnapshot) (s : SessionSnapshot)
    → find (id_is session_id) held ≡ some s
    → session_id ≡ s.session_id
unfolding find
found_id session_id [] s h = cc
found_id session_id (t ∷ held) s h = ground (arith, found_id session_id held s)

values_of :
    (held : List SessionSnapshot)
    → map (λ (entry : ℕ × SessionSnapshot). entry.1) (map (λ s. (s.session_id, s)) held) ≡ held
values_of [] = refl
values_of (s ∷ held) = ap (◌∷◌ s) (values_of held)

module _ {ℓ} {K V : Type ℓ} (same : K → K → Bool) (key : SessionSnapshot → K)
    (value : SessionSnapshot → V) (is_key : IsKey same key) where
  insert_fresh :
      (s : SessionSnapshot) (held : List SessionSnapshot)
      → All (Apart s) held
      → insert same (key s) (value s) (map (λ t. (key t, value t)) held)
        ≡ map (λ t. (key t, value t)) (s ∷ held)
  unfolding insert
  insert_fresh s held h = ap (◌∷◌ (key s, value s)) (
      get-absent same (key s) _ (
        rw
          (
            get-entries same key value (key s) held,
            find-none (λ t. same (key s) (key t)) held
                (All-imp (Apart s) _ (is_key.other s) held h),
          )
          refl))

  remove_held :
      (s : SessionSnapshot) (held : List SessionSnapshot)
      → Distinct held
      → find (id_is s.session_id) held ≡ some s
      → remove same (key s) (map (λ t. (key t, value t)) held)
        ≡ map (λ t. (key t, value t)) (without (id_is s.session_id) held)
  remove_held s held d h =
      remove-entries same key value (key s) held
      ∙ ap (map (λ t. (key t, value t))) (
          keep_cong _ _ held
            (All-imp _ _ (λ t e. ap not e) held (find_same same key is_key held s d h)))

  remove_kept :
      (p : SessionSnapshot → Bool) (held : List SessionSnapshot)
      → Distinct held
      → remove_all same (map key (keep p held)) (map (λ t. (key t, value t)) held)
        ≡ map (λ t. (key t, value t)) (without p held)
  remove_kept p held d =
      remove_all-entries same key value (map key (keep p held)) held
      ∙ ap (map (λ t. (key t, value t))) (
          keep_cong _ _ held
            (All-imp _ _ (λ t e. ap not e) held (any_kept same key is_key p held d)))

pub save-store_of :
    (s : SessionSnapshot) (held : List SessionSnapshot)
    → All (Apart s) held
    → save s (store_of held) ≡ store_of (s ∷ held)
unfolding save
save-store_of s held h =
    rw
      (
        insert_fresh str_eq (λ t. t.access_token_hash) (λ t. t.session_id) access-IsKey s held h,
        insert_fresh str_eq (λ t. t.refresh_token_hash) (λ t. t.session_id) refresh-IsKey s held h,
        insert_fresh same_id (λ t. t.session_id) (λ t. t) id-IsKey s held h,
      )
      refl

pub find-id :
    (held : List SessionSnapshot) (p : SessionSnapshot → Bool)
    → Distinct held
    → (s : SessionSnapshot) → find p held ≡ some s
    → find (id_is s.session_id) held ≡ some s
unfolding find
find-id [] p d s h = cc
find-id (t ∷ held) p d s h = elim (Bool-cases (p t)) [
  | inl e ↦ let found : t ≡ s = ground arith in rw (found, id-IsKey.self s) refl
  | inr e ↦
      let rest : find p held ≡ some s = ground arith in
      let apart = All-find (Apart t) p held s d.0 rest in
      rw (id-IsKey.other s t (Apart-sym t s apart)) (find-id held p d.1 s rest)
]

pub get_by_access_hash-store_of :
    (hash : String) (held : List SessionSnapshot)
    → Distinct held
    → get_by_access_hash hash (store_of held) ≡ find (access_is hash) held
unfolding get_by_access_hash
get_by_access_hash-store_of hash held d =
    rw
      (
        get_by_access_hash,
        get-entries str_eq (λ t. t.access_token_hash) (λ t. t.session_id) hash held,
      )
      (elim (Option-cases (find (access_is hash) held)) [
        | inl e ↦ rw e refl
        | inr (s, e) ↦
            rw
              (
                e,
                get-entries same_id (λ t. t.session_id) (λ t. t) s.session_id held,
                find-id held (access_is hash) d s e,
              )
              refl
      ])

pub get_by_refresh_hash-store_of :
    (hash : String) (held : List SessionSnapshot)
    → Distinct held
    → get_by_refresh_hash hash (store_of held) ≡ find (refresh_is hash) held
unfolding get_by_refresh_hash
get_by_refresh_hash-store_of hash held d =
    rw
      (
        get_by_refresh_hash,
        get-entries str_eq (λ t. t.refresh_token_hash) (λ t. t.session_id) hash held,
      )
      (elim (Option-cases (find (refresh_is hash) held)) [
        | inl e ↦ rw e refl
        | inr (s, e) ↦
            rw
              (
                e,
                get-entries same_id (λ t. t.session_id) (λ t. t) s.session_id held,
                find-id held (refresh_is hash) d s e,
              )
              refl
      ])

pub delete_session-store_of :
    (s : SessionSnapshot) (held : List SessionSnapshot)
    → Distinct held
    → find (id_is s.session_id) held ≡ some s
    → delete_session s (store_of held) ≡ store_of (without (id_is s.session_id) held)
unfolding delete_session
delete_session-store_of s held d h =
    rw
      (
        remove_held str_eq (λ t. t.access_token_hash) (λ t. t.session_id) access-IsKey s held d h,
        remove_held str_eq (λ t. t.refresh_token_hash) (λ t. t.session_id) refresh-IsKey s held d h,
        remove_held same_id (λ t. t.session_id) (λ t. t) id-IsKey s held d h,
      )
      refl

pub delete_session_by_id-store_of :
    (session_id : ℕ) (held : List SessionSnapshot)
    → Distinct held
    → delete_session_by_id session_id (store_of held) ≡ store_of (without (id_is session_id) held)
unfolding delete_session_by_id delete_session
delete_session_by_id-store_of session_id held d =
    rw (delete_session_by_id, get-entries same_id (λ t. t.session_id) (λ t. t) session_id held)
      (elim (Option-cases (find (id_is session_id) held)) [
        | inl e ↦ rw e (ap store_of (sym (without-none session_id held e)))
        | inr (s, e) ↦
            let same : session_id ≡ s.session_id = found_id session_id held s e in
            rw e (
              rw same (
                delete_session-store_of s held d
                  (subst (λ k. find (id_is k) held ≡ some s) same e)))
      ])

pub delete_sessions_by_account-store_of :
    (account_id : ℕ) (held : List SessionSnapshot)
    → Distinct held
    → delete_sessions_by_account account_id (store_of held)
      ≡ store_of (without (of_account account_id) held)
unfolding delete_sessions_by_account
delete_sessions_by_account-store_of account_id held d =
    let p = of_account account_id in
    rw
      (
        values_of held,
        remove_kept str_eq (λ t. t.access_token_hash) (λ t. t.session_id) access-IsKey p held d,
        remove_kept str_eq (λ t. t.refresh_token_hash) (λ t. t.session_id) refresh-IsKey p held d,
        remove_kept same_id (λ t. t.session_id) (λ t. t) id-IsKey p held d,
      )
      refl
