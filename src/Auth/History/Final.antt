-- ===== src/Auth/History/Final.antt =====
-- The operations that end a session end it for good (api/src/auth/service.rs).
use easy_deploy.Prelude.{
  ℕ, String, some, List, [], ◌∷◌, Bool, true, false, any, find, str_eq, ◌≡◌, ◌≢◌, subst, ◌∙◌, arith,
  Bool-cases, Option-cases, inl, inr, ok, err,
}
use easy_deploy.Prelude.Searches.{any_before, any_weaken}
use easy_deploy.Auth.Types.{
  unauthorized, AuthAccount, CurrentSession, SessionSnapshot, SessionRow, AccountRow, AuthResult,
}
use easy_deploy.Auth.Store.{get_by_refresh_hash}
use easy_deploy.Auth.Names.{Outside, hash_token, is_active, row_to_account, generate_token}
use easy_deploy.Auth.Service.{AuthService, account_id_is}
use easy_deploy.Auth.Service.Steps.{pure-keep, bind-ok}
use easy_deploy.Auth.Sessions.{
  Draws, authenticate_access_token, refresh, revoke_admin_session, issue_session, insert_session,
  select_refresh, rotate, admits_refresh, takes_hash,
}
use easy_deploy.Auth.Accounts.{set_account_status, reset_account_password, change_own_password}
use easy_deploy.Auth.Changes.{Changes-keep, done, next, drops_id}
use easy_deploy.Auth.Changes.Operations.{issue_session-Changes}
use easy_deploy.Auth.History.{
  Operation, logs_in, authenticates, refreshes, logs_out, revokes_session, revokes_role,
  sets_status, resets_password, changes_password, perform, perform_all, perform_all-Changes,
}
use easy_deploy.Auth.History.Sound.{IsSound}
use easy_deploy.Auth.History.Agreement.{Change-IsSound}
use easy_deploy.Auth.History.Standing.{authenticate_access_token-stands}
use easy_deploy.Auth.History.Dead.{IsDead, pinned, authenticate_dead, Changes-IsDead}
use easy_deploy.Auth.History.Ended.{
  revoked_id, logout-IsDead, revoke_admin_session-IsDead, set_account_status-IsDead,
  reset_account_password-IsDead, change_own_password-IsDead,
}

-- The operation succeeds and is to end the session.
abbrev pub Ends : Outside → CurrentSession → Operation → AuthService → Type 0
Ends outside c (logs_out now session) auth = session.session_id ≡ c.session_id
Ends outside c (revokes_session now actor session_id) auth =
    (session_id ≡ c.session_id) × ((revoke_admin_session now actor session_id auth).1 ≡ ok tt)
Ends outside c (sets_status now actor account_id status) auth =
    (account_id ≡ c.account.id)
    × (str_eq status "active" ≡ false)
    × ((set_account_status now actor account_id status auth).1 ≡ ok tt)
Ends outside c (resets_password now actor account_id password) auth =
    (account_id ≡ c.account.id)
    × ((reset_account_password outside now actor account_id password auth).1 ≡ ok tt)
Ends outside c (changes_password now actor current new) auth =
    (actor.account.id ≡ c.account.id)
    × (actor.session_id ≢ c.session_id)
    × ((change_own_password outside now actor current new auth).1 ≡ ok tt)
Ends outside c (refreshes draws now token) auth =
    (result : AuthResult) × (s : SessionSnapshot) × ((refresh outside draws now token auth).1
      ≡ ok result)
    × (get_by_refresh_hash (hash_token outside token) auth.store ≡ some s)
    × (s.session_id ≡ c.session_id)
Ends outside c (logs_in _ _ _) auth = ⊥
Ends outside c (authenticates _ _) auth = ⊥
Ends outside c (revokes_role _ _ _) auth = ⊥

issue_session-any :
    (q : SessionRow → Bool) (outside : Outside) (draws : Draws) (now : ℕ) (account : AuthAccount)
    (ip agent : String) (auth : AuthService)
    → any q auth.db.sessions ≡ true
    → any q (issue_session outside draws now account ip agent auth).0.db.sessions ≡ true
unfolding issue_session insert_session
issue_session-any q outside draws now account ip agent auth h =
    let Keeps : AuthService → Type 0 = λ after. any q after.db.sessions ≡ true in
    pure-keep Keeps auth (generate_token outside draws.access) _ h (λ access.
      pure-keep Keeps auth (generate_token outside draws.refresh) _ h (λ refresh.
        pure-keep Keeps auth (generate_token outside draws.csrf) _ h (λ csrf.
          elim (Bool-cases (
            any (takes_hash (hash_token outside access) (hash_token outside refresh))
              auth.db.sessions)) [
                | inl e ↦ rw e h
                | inr e ↦ rw e (any_before q auth.db.sessions _ h)
              ])))

rotate-IsDead :
    (hash : String) (c : CurrentSession) (outside : Outside) (draws : Draws) (now session_id : ℕ)
    (account : AccountRow) (auth : AuthService) {result : AuthResult}
    → IsSound auth
    → any (pinned hash c) auth.db.sessions ≡ true
    → session_id ≡ c.session_id
    → (rotate outside draws now session_id account auth).1 ≡ ok result
    → IsDead hash (rotate outside draws now session_id account auth).0
unfolding rotate
rotate-IsDead hash c outside draws now session_id account auth sound standing same e =
    let issue = issue_session outside draws now (row_to_account account) "" "" auth in
    let changes = issue_session-Changes outside draws now (row_to_account account) "" "" auth in
    let (held, agrees) = Changes-keep IsSound Change-IsSound changes sound in
    bind-ok (IsDead hash) issue _
      (λ result _ _. Changes-IsDead hash (next done (drops_id session_id)) (
        revoked_id hash c issue.0 agrees.access_unique
          (issue_session-any (pinned hash c) outside draws now (row_to_account account) "" "" auth
            standing)
          now "refresh_rotated" session_id same))
      e

selected_id :
    (now session_id : ℕ) (refresh_hash : String) (rows : List SessionRow) (row : SessionRow)
    → find (admits_refresh now session_id refresh_hash) rows ≡ some row
    → row.id ≡ session_id
unfolding find
selected_id now session_id refresh_hash [] row h = cc
selected_id now session_id refresh_hash (other ∷ rows) row h =
    ground (arith, selected_id now session_id refresh_hash rows row)

select_refresh-id :
    (now session_id : ℕ) (refresh_hash : String) (auth : AuthService) (row : SessionRow)
    (account : AccountRow)
    → select_refresh now session_id refresh_hash auth.db ≡ some (row, account)
    → row.id ≡ session_id
unfolding select_refresh
select_refresh-id now session_id refresh_hash auth row account h =
    elim (Option-cases (find (admits_refresh now session_id refresh_hash) auth.db.sessions)) [
      | inl f ↦ absurd (ground (arith, rw (select_refresh, f) at h))
      | inr (session, f) ↦
          let h₁ = rw (select_refresh, f) at h in
          elim (Option-cases (find (account_id_is session.account_id) auth.db.accounts)) [
            | inl g ↦ absurd (ground (arith, rw g at h₁))
            | inr (owner, g) ↦
                let same : session ≡ row = ground (arith, rw g at h₁) in
                subst (λ r. r.id ≡ session_id) same
                  (selected_id now session_id refresh_hash _ session f)
          ]
    ]

refresh-IsDead :
    (hash : String) (c : CurrentSession) (outside : Outside) (draws : Draws) (now : ℕ)
    (token : String) (auth : AuthService) (result : AuthResult) (s : SessionSnapshot)
    → IsSound auth
    → any (pinned hash c) auth.db.sessions ≡ true
    → (refresh outside draws now token auth).1 ≡ ok result
    → get_by_refresh_hash (hash_token outside token) auth.store ≡ some s
    → s.session_id ≡ c.session_id
    → IsDead hash (refresh outside draws now token auth).0
unfolding refresh
refresh-IsDead hash c outside draws now token auth result s sound standing e f same =
    let e₁ = rw (refresh, f) at e in
    elim (Option-cases (select_refresh now s.session_id (hash_token outside token) auth.db)) [
      | inl g ↦ absurd (ground (arith, rw g at e₁))
      | inr ((session, account), g) ↦
          let e₂ = rw g at e₁ in
          let own =
            select_refresh-id now s.session_id (hash_token outside token) auth session account g in
          elim (Bool-cases (is_active account.status)) [
            | inl a ↦
                rw (refresh, f, g, a)
                  (rotate-IsDead hash c outside draws now session.id account auth sound standing
                    (own ∙ same) (rw a at e₂))
            | inr a ↦ absurd (ground (arith, rw a at e₂))
          ]
    ]

ending :
    (outside : Outside) (hash : String) (c : CurrentSession) (operation : Operation)
    (auth : AuthService)
    → IsSound auth
    → any (pinned hash c) auth.db.sessions ≡ true
    → Ends outside c operation auth
    → IsDead hash (perform outside operation auth)
unfolding perform
ending outside hash c (logs_out now session) auth (held, h) e ends =
    logout-IsDead hash c auth h.access_unique e now session ends
ending outside hash c (revokes_session now actor session_id) auth (held, h) e ends =
    revoke_admin_session-IsDead hash c auth h.access_unique e now actor session_id ends.0 ends.1
ending outside hash c (sets_status now actor account_id status) auth (held, h) e
      (own, off, succeeds) =
    set_account_status-IsDead hash c auth h.access_unique e now actor account_id status own off
      succeeds
ending outside hash c (resets_password now actor account_id password) auth (held, h) e ends =
    reset_account_password-IsDead hash c auth h.access_unique e outside now actor account_id
      password ends.0 ends.1
ending outside hash c (changes_password now actor current new) auth (held, h) e
      (own, other, succeeds) =
    change_own_password-IsDead hash c auth h.access_unique e outside now actor current new own other
      succeeds
ending outside hash c (refreshes draws now token) auth sound e (result, s, succeeds, found, own) =
    refresh-IsDead hash c outside draws now token auth result s sound e succeeds found own
ending outside hash c (logs_in _ _ _) auth sound e ends = absurd ends
ending outside hash c (authenticates _ _) auth sound e ends = absurd ends
ending outside hash c (revokes_role _ _ _) auth sound e ends = absurd ends

-- If the store and the tables agree and a token authenticates as a session, then once that session
-- was logged out, revoked, renewed by its refresh token, or ended because its account was disabled or
-- locked, had its password reset, or changed its password from another session, the token
-- authenticates nothing any more, at any time and whatever operations follow.
pub ended_for_good :
    (outside : Outside) (at : ℕ) (token : String) (c : CurrentSession) (operation : Operation)
    (auth : AuthService)
    → IsSound auth
    → (authenticate_access_token outside at token auth).1 ≡ ok c
    → Ends outside c operation auth
    → (later : List Operation) (now : ℕ)
    → (authenticate_access_token outside now token
        (perform_all outside later (perform outside operation auth))).1
      ≡ err (unauthorized "登录已过期，请重新登录")
ended_for_good outside at token c operation auth sound authentic ends later now =
    let hash = hash_token outside token in
    let standing = authenticate_access_token-stands outside at token auth c sound authentic in
    let pin = any_weaken _ (pinned hash c) (λ row h. ground (arith, h)) auth.db.sessions standing in
    authenticate_dead outside now token _ (
      Changes-IsDead hash (perform_all-Changes outside later (perform outside operation auth))
        (ending outside hash c operation auth sound pin ends))
