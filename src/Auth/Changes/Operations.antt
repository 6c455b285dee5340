-- ===== src/Auth/Changes/Operations.antt =====
-- Each operation of the account service is a sequence of changes (api/src/auth/service.rs).
use easy_deploy.Prelude.{
  ℕ, String, List, [], ◌∷◌, Bool, true, false, not, refl, arith, Bool-cases, Option-cases, inl, inr,
  Result, ok, err, any, str_eq, if◌then◌else◌, keep, map, ◌==◌, find, ok_or, ◌&&◌,
}
use easy_deploy.Prelude.Text.{trim, text_is_empty}
use easy_deploy.Auth.Types.{
  AuthError, invalid_input, AccountStatus, AccountRow, AuthAccount, CurrentSession, LoginInput,
}
use easy_deploy.Auth.Store.{get_by_access_hash, get_by_refresh_hash}
use easy_deploy.Auth.Names.{
  Outside, hash_token, generate_token, is_active, row_to_account, database_error, verify_password,
  normalize_username, hash_password, validate_password, account_status,
}
use easy_deploy.Auth.Service.{
  AuthService, Outcome, ◌>>=◌, session_id_is, account_id_is, account_label,
}
use easy_deploy.Auth.Service.Steps.{pure-keep}
use easy_deploy.Auth.Sessions.{
  Draws, takes_hash, is_live_of, select_refresh, rotate, issue_session, insert_session,
  authenticate_access_token, revoke_session_record, revoke_sessions_by_account, revoke_sessions_of,
  revoke_sessions_by_role, refresh, logout, revoke_admin_session,
}
use easy_deploy.Auth.Accounts.{
  attempts_after, locks, note_failure, is_other_live, status_reason, update_account, failed_login,
  record_failed_login, logged_in, reject_password, accept_login, login_as, login, with_status,
  set_account_status, with_password, reset_account_password, change_own_password,
}
use easy_deploy.Auth.Changes.{
  IsOpen, issued, revoked_where, Change, audits, updates, revokes, issues, drops, drops_id,
  drops_account, Changes, done, next, Changes-append,
}

-- A step that computes without writing.
pure-Changes :
    {A B : Type 0} (auth : AuthService) (r : Result A AuthError) (f : AuthService × A → Outcome B)
    → ((x : A) → Changes auth (f (auth, x)).0)
    → Changes auth ((auth, r) >>= f).0
pure-Changes auth r f h = pure-keep (Changes auth) auth r f done h

bind-Changes :
    {A B : Type 0} (auth : AuthService) (m : Outcome A) (f : AuthService × A → Outcome B)
    → Changes auth m.0
    → ((before : AuthService) (x : A) → Changes before (f (before, x)).0)
    → Changes auth (m >>= f).0
bind-Changes auth (before, ok x) f p h = Changes-append p (h before x)
bind-Changes auth (before, err e) f p h = p

if-Changes :
    {B : Type 0} (auth : AuthService) (b : Bool) (m n : Outcome B)
    → Changes auth m.0
    → Changes auth n.0
    → Changes auth (if b then m else n).0
if-Changes auth true m n p q = p
if-Changes auth false m n p q = q

one-Changes :
    (auth : AuthService) (b : Bool) (m n : AuthService)
    → Changes auth m
    → Changes auth n
    → Changes auth (if b then m else n)
one-Changes auth true m n p q = p
one-Changes auth false m n p q = q

pub issue_session-Changes :
    (outside : Outside) (draws : Draws) (now : ℕ) (account : AuthAccount) (ip agent : String)
    (auth : AuthService)
    → Changes auth (issue_session outside draws now account ip agent auth).0
unfolding issue_session insert_session issued
issue_session-Changes outside draws now account ip agent auth =
    pure-Changes auth (generate_token outside draws.access) _ (λ access.
      pure-Changes auth (generate_token outside draws.refresh) _ (λ refresh.
        pure-Changes auth (generate_token outside draws.csrf) _ (λ csrf.
          elim (Bool-cases (
            any (takes_hash (hash_token outside access) (hash_token outside refresh))
              auth.db.sessions)) [
                | inl e ↦ rw e done
                | inr e ↦ rw e (
                    next done (
                      issues now account ip agent (hash_token outside access)
                        (hash_token outside refresh) csrf e))
              ])))

revoke_session_record-Change :
    (now : ℕ) (reason : String) (session_id : ℕ) (auth : AuthService)
    → Change auth (revoke_session_record now reason session_id auth)
unfolding revoke_session_record revoked_where
revoke_session_record-Change now reason session_id auth =
    revokes (session_id_is session_id) now reason

pub revoke_sessions_by_account-Changes :
    (now : ℕ) (reason : String) (account_id : ℕ) (auth : AuthService)
    → Changes auth (revoke_sessions_by_account now reason account_id auth).0
unfolding revoke_sessions_by_account revoked_where
revoke_sessions_by_account-Changes now reason account_id auth =
    next (next done (revokes (is_live_of account_id) now reason)) (drops_account account_id)

revoke_sessions_of-Changes :
    (now : ℕ) (reason : String) (account_ids : List ℕ) (auth : AuthService)
    → Changes auth (revoke_sessions_of now reason account_ids auth)
unfolding revoke_sessions_of
revoke_sessions_of-Changes now reason [] auth = done
revoke_sessions_of-Changes now reason (account_id ∷ account_ids) auth =
    Changes-append (revoke_sessions_by_account-Changes now reason account_id auth) (
      revoke_sessions_of-Changes now reason account_ids
        (revoke_sessions_by_account now reason account_id auth).0)

pub revoke_sessions_by_role-Changes :
    (now : ℕ) (reason : String) (role_id : ℕ) (auth : AuthService)
    → Changes auth (revoke_sessions_by_role now reason role_id auth)
unfolding revoke_sessions_by_role
revoke_sessions_by_role-Changes now reason role_id auth =
    revoke_sessions_of-Changes now reason
      (map (λ pair. pair.0) (keep (λ pair. pair.1 == role_id) auth.db.account_roles)) auth

pub authenticate_access_token-Changes :
    (outside : Outside) (now : ℕ) (token : String) (auth : AuthService)
    → Changes auth (authenticate_access_token outside now token auth).0
unfolding authenticate_access_token
authenticate_access_token-Changes outside now token auth =
    elim (Option-cases (get_by_access_hash (hash_token outside token) auth.store)) [
      | inl e ↦ rw (authenticate_access_token, e) done
      | inr (snapshot, e) ↦
          rw (authenticate_access_token, e)
            (if-Changes auth _ _ _ (next done (drops snapshot (hash_token outside token) (inl e)))
              done)
    ]

pub logout-Changes :
    (now : ℕ) (session : CurrentSession) (auth : AuthService)
    → Changes auth (logout now session auth)
unfolding logout
logout-Changes now session auth =
    next
      (next (next done (revoke_session_record-Change now "logout" session.session_id auth))
        (drops_id session.session_id))
      (audits _)

pub revoke_admin_session-Changes :
    (now : ℕ) (actor : CurrentSession) (session_id : ℕ) (auth : AuthService)
    → Changes auth (revoke_admin_session now actor session_id auth).0
unfolding revoke_admin_session
revoke_admin_session-Changes now actor session_id auth = if-Changes auth _ _ _ done (
    next
      (next (next done (revoke_session_record-Change now "admin_revoked" session_id auth))
        (drops_id session_id))
      (audits _))

rotate-Changes :
    (outside : Outside) (draws : Draws) (now session_id : ℕ) (account : AccountRow)
    (auth : AuthService)
    → Changes auth (rotate outside draws now session_id account auth).0
unfolding rotate
rotate-Changes outside draws now session_id account auth =
    bind-Changes auth (issue_session outside draws now (row_to_account account) "" "" auth) _
      (issue_session-Changes outside draws now (row_to_account account) "" "" auth)
      (λ before result.
        next (next done (revoke_session_record-Change now "refresh_rotated" session_id before))
          (drops_id session_id))

pub refresh-Changes :
    (outside : Outside) (draws : Draws) (now : ℕ) (token : String) (auth : AuthService)
    → Changes auth (refresh outside draws now token auth).0
unfolding refresh
refresh-Changes outside draws now token auth =
    elim (Option-cases (get_by_refresh_hash (hash_token outside token) auth.store)) [
      | inl e ↦ rw (refresh, e) done
      | inr (snapshot, e) ↦
          let dropped = next done (drops snapshot (hash_token outside token) (inr e)) in
          elim (Option-cases
            (select_refresh now snapshot.session_id (hash_token outside token) auth.db)) [
              | inl f ↦ rw (refresh, e, f) dropped
              | inr ((session, account), f) ↦ elim (Bool-cases (is_active account.status)) [
                | inl a ↦
                    rw (refresh, e, f, a) (rotate-Changes outside draws now session.id account auth)
                | inr a ↦ rw (refresh, e, f, a) dropped
              ]
            ]
    ]

failed_login-IsOpen :
    (now : ℕ) (account a : AccountRow)
    → IsOpen (failed_login now (attempts_after account) (locks account) a)
unfolding failed_login
failed_login-IsOpen now account a = ground arith

note_failure-Changes :
    (now : ℕ) (input : LoginInput) (account : AccountRow) (auth : AuthService)
    → Changes auth (note_failure now input account auth)
unfolding note_failure record_failed_login failed_login
note_failure-Changes now input account auth =
    next
      (next done (
        updates (failed_login now (attempts_after account) (locks account)) account.id (λ a. refl)
          (λ a _. failed_login-IsOpen now account a)))
      (audits _)

reject_password-Changes :
    (now : ℕ) (input : LoginInput) (account : AccountRow) (auth : AuthService)
    → Changes auth (reject_password now input account auth).0
unfolding reject_password
reject_password-Changes now input account auth =
    let noted = note_failure-Changes now input account auth in
    one-Changes auth (locks account) _ _
      (Changes-append noted (
        revoke_sessions_by_account-Changes now "account_locked" account.id
          (note_failure now input account auth)))
      noted

logged_in-IsOpen : (now : ℕ) (ip : String) (a : AccountRow) → IsOpen (logged_in now ip a)
unfolding logged_in
logged_in-IsOpen now ip a = ground arith

accept_login-Changes :
    (outside : Outside) (draws : Draws) (now : ℕ) (input : LoginInput) (account : AccountRow)
    (auth : AuthService)
    → Changes auth (accept_login outside draws now input account auth).0
unfolding accept_login logged_in
accept_login-Changes outside draws now input account auth =
    bind-Changes auth
      (issue_session outside draws now (row_to_account account) input.client_ip input.user_agent
        auth)
      _
      (issue_session-Changes outside draws now (row_to_account account) input.client_ip
        input.user_agent auth)
      (λ before result.
        next
          (next done (
            updates (logged_in now input.client_ip) result.session.account.id (λ a. refl)
              (λ a _. logged_in-IsOpen now input.client_ip a)))
          (audits _))

login_as-Changes :
    (outside : Outside) (draws : Draws) (now : ℕ) (input : LoginInput) (account : AccountRow)
    (auth : AuthService)
    → Changes auth (login_as outside draws now input account auth).0
unfolding login_as
login_as-Changes outside draws now input account auth =
    if-Changes auth (is_active account.status) _ _
      (pure-Changes auth (verify_password outside input.password account.password_hash) _ (λ fits.
        if-Changes auth fits _ _ (accept_login-Changes outside draws now input account auth)
          (reject_password-Changes now input account auth)))
      (next done (audits _))

pub login-Changes :
    (outside : Outside) (draws : Draws) (now : ℕ) (input : LoginInput) (auth : AuthService)
    → Changes auth (login outside draws now input auth).0
unfolding login
login-Changes outside draws now input auth =
    pure-Changes auth (normalize_username input.username) _ (λ username.
      if-Changes auth (text_is_empty (trim input.password)) _ _ done
        (elim (Option-cases (find (λ account. str_eq account.username username) auth.db.accounts)) [
          | inl e ↦ rw e (next done (audits _))
          | inr (account, e) ↦ rw e (login_as-Changes outside draws now input account auth)
        ]))

with_status-IsOpen :
    (now : ℕ) (status : AccountStatus) (a : AccountRow)
    → IsOpen a
    → IsOpen (with_status now status a)
unfolding with_status
with_status-IsOpen now status a h = ground (arith, h)

pub set_account_status-Changes :
    (now : ℕ) (actor : CurrentSession) (account_id : ℕ) (status : String) (auth : AuthService)
    → Changes auth (set_account_status now actor account_id status auth).0
unfolding set_account_status with_status
set_account_status-Changes now actor account_id status auth =
    pure-Changes auth (ok_or (account_status status) (invalid_input "账号状态无效")) _ (λ status.
      if-Changes auth (account_id == actor.account.id && not (is_active status)) _ _ done (
        pure-Changes auth (account_label account_id auth.db) _ (λ label.
          let changed = next done (
            updates (with_status now status) account_id (λ a. refl)
              (with_status-IsOpen now status)) in
          elim (Bool-cases (is_active status)) [
            | inl e ↦ rw e (next changed (audits _))
            | inr e ↦ rw e (
                next
                  (Changes-append changed (
                    revoke_sessions_by_account-Changes now (status_reason status) account_id
                      (update_account (with_status now status) account_id auth)))
                  (audits _))
          ])))

pub reset_account_password-Changes :
    (outside : Outside) (now : ℕ) (actor : CurrentSession) (account_id : ℕ) (password : String)
    (auth : AuthService)
    → Changes auth (reset_account_password outside now actor account_id password auth).0
unfolding reset_account_password with_password
reset_account_password-Changes outside now actor account_id password auth =
    if-Changes auth (account_id == actor.account.id) _ _ done (
      pure-Changes auth (account_label account_id auth.db) _ (λ label.
        pure-Changes auth (hash_password outside password) _ (λ password_hash.
          next
            (Changes-append
              (next done
                (updates (with_password now password_hash) account_id (λ a. refl) (λ a h. h)))
              (revoke_sessions_by_account-Changes now "password_reset" account_id
                (update_account (with_password now password_hash) account_id auth)))
            (audits _))))

pub change_own_password-Changes :
    (outside : Outside) (now : ℕ) (actor : CurrentSession) (current_password new_password : String)
    (auth : AuthService)
    → Changes auth (change_own_password outside now actor current_password new_password auth).0
unfolding change_own_password with_password revoked_where
change_own_password-Changes outside now actor current_password new_password auth =
    pure-Changes auth (validate_password new_password) _ (λ _.
      pure-Changes auth
        (ok_or (find (account_id_is actor.account.id) auth.db.accounts)
          (database_error outside.row_not_found))
        _
        (λ account.
          pure-Changes auth (verify_password outside current_password account.password_hash) _
            (λ fits.
              if-Changes auth fits _ _
                (pure-Changes auth (hash_password outside new_password) _ (λ next_hash.
                  next
                    (next
                      (next done (
                        updates (with_password now next_hash) actor.account.id (λ a. refl)
                          (λ a h. h)))
                      (revokes (is_other_live actor) now "password_changed"))
                    (audits _)))
                done)))
