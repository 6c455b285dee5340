-- ===== src/Auth/History/Standing.antt =====
-- What a session that authenticates stands on, and rows that authenticate no more
-- (api/src/auth/service.rs, `authenticate_access_token`).
use easy_deploy.Prelude.{
  ℕ, String, some, Bool, true, false, ◌&&◌, ◌==◌, ==_iff, any, count, find, ltb, str_eq, ◌≡◌, refl,
  sym, subst, ◌∙◌, arith, Bool-cases, Option-cases, inl, inr, ok,
}
use easy_deploy.Prelude.Searches.{All-find, count-any, any-All}
use easy_deploy.Auth.Types.{SessionSnapshot, CurrentSession, SessionRow, AuthDb}
use easy_deploy.Auth.Store.{get_by_access_hash, current_session}
use easy_deploy.Auth.Store.Refines.{access_is, get_by_access_hash-store_of}
use easy_deploy.Auth.Names.{Outside, hash_token}
use easy_deploy.Auth.Service.{AuthService, session_id_is}
use easy_deploy.Auth.Sessions.{is_live, active_account, admits_access, authenticate_access_token}
use easy_deploy.Auth.History.Sound.{has_access, BelongsTo, Backed, IsSound}

-- The row of a session at a time: live, of the session's account, which is active, with the hash
-- of the token, and not expired.
abbrev pub stands : ℕ → String → CurrentSession → AuthDb → SessionRow → Bool
stands now hash c db row =
    session_id_is c.session_id row
    && (row.account_id == c.account.id
        && (is_live row.session_status
            && (any (active_account db row) db.accounts
                && (has_access hash row && ltb now row.access_expires_at))))

both_true : (a b : Bool) → (a && b) ≡ true → (a ≡ true) × (b ≡ true)
both_true true b h = (refl, h)
both_true false b h = cc

admitted-stands :
    (now : ℕ) (hash : String) (s : SessionSnapshot) (db : AuthDb) (row : SessionRow)
    → admits_access now s.session_id hash db row ≡ true
    → BelongsTo s row
    → stands now hash (current_session s) db row ≡ true
unfolding current_session
admitted-stands now hash s db row h own =
    let (same, rest) = both_true _ _ h in
    let owned = own ((==_iff row.id s.session_id).0 same) in
    let (live, rest) = both_true (is_live row.session_status) _ rest in
    let (account, rest) =
      both_true (any (active_account db row) db.accounts)
        (str_eq row.access_token_hash hash && ltb now row.access_expires_at) rest in
    rw (same, (==_iff row.account_id s.account.id).1 owned, live, account) rest

-- If the store and the tables agree, a token authenticates only as a session with a row that is
-- live, not expired and of that session's account, which is active, under the token's own hash.
pub authenticate_access_token-stands :
    (outside : Outside) (now : ℕ) (token : String) (auth : AuthService) (c : CurrentSession)
    → IsSound auth
    → (authenticate_access_token outside now token auth).1 ≡ ok c
    → any (stands now (hash_token outside token) c auth.db) auth.db.sessions ≡ true
unfolding authenticate_access_token current_session
authenticate_access_token-stands outside now token auth c (held, h) e =
    let hash = hash_token outside token in
    elim (Option-cases (get_by_access_hash hash auth.store)) [
      | inl f ↦ absurd (ground (arith, rw (authenticate_access_token, f) at e))
      | inr (s, f) ↦
          let e₁ = rw (authenticate_access_token, f) at e in
          elim (Bool-cases
            (count (admits_access now s.session_id hash auth.db) auth.db.sessions == 0)) [
              | inl z ↦ absurd (ground (arith, rw z at e₁))
              | inr z ↦
                  let same : current_session s ≡ c = ground (arith, rw z at e₁) in
                  let found : find (access_is hash) held ≡ some s =
                    sym (get_by_access_hash-store_of hash held h.distinct) ∙ (rw (← h.store) f) in
                  let backed =
                    All-find (Backed auth.db.next_session_id auth.db.sessions) (access_is hash) held
                      s h.backed found in
                  subst (λ d. any (stands now hash d auth.db) auth.db.sessions ≡ true) same
                    (any-All (BelongsTo s) _ _ (admitted-stands now hash s auth.db) auth.db.sessions
                      (count-any _ auth.db.sessions z) backed.agrees)
            ]
    ]
