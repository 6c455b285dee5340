-- ===== src/Auth/History/Ended.antt =====
-- The operations that revoke the row of a session (api/src/auth/service.rs).
use easy_deploy.Prelude.{
  ℕ, String, true, false, not, ◌&&◌, ◌==◌, any, find, str_eq, ◌≡◌, ◌≢◌, arith, ok, ok_or,
}
use easy_deploy.Auth.Types.{invalid_input, AccountStatus, CurrentSession}
use easy_deploy.Auth.Names.{
  Outside, account_status, is_active, hash_password, validate_password, verify_password,
  database_error,
}
use easy_deploy.Auth.Service.{AuthService, session_id_is, account_id_is, account_label}
use easy_deploy.Auth.Sessions.{
  logout, revoke_admin_session, revoke_session_record, is_live_of, revoke_sessions_by_account,
}
use easy_deploy.Auth.Accounts.{
  set_account_status, reset_account_password, change_own_password, update_account, is_other_live,
  with_status, status_reason, with_password,
}
use easy_deploy.Auth.Changes.{done, next, audits, drops_id, drops_account, revoked_where}
use easy_deploy.Auth.Service.Steps.{pure-ok, guard-ok, fits-ok}
use easy_deploy.Auth.History.Sound.{AccessUnique}
use easy_deploy.Auth.History.Dead.{IsDead, pinned, Changes-IsDead, revoke-IsDead}

not_active :
    (text : String) (status : AccountStatus)
    → str_eq text "active" ≡ false
    → ok_or (account_status text) (invalid_input "账号状态无效") ≡ ok status
    → is_active status ≡ false
unfolding account_status
not_active text status h e = ground (arith, h, e)

module _ (hash : String) (c : CurrentSession) (auth : AuthService)
    (unique : AccessUnique auth.db.sessions)
    (standing : any (pinned hash c) auth.db.sessions ≡ true) where
  pub revoked_id :
      (now : ℕ) (reason : String) (session_id : ℕ)
      → session_id ≡ c.session_id
      → IsDead hash (revoke_session_record now reason session_id auth)
  unfolding revoke_session_record revoked_where
  revoked_id now reason session_id same =
      revoke-IsDead now hash reason c (session_id_is session_id) auth
        (λ row h. ground (arith, same, h)) unique standing

  pub logout-IsDead :
      (now : ℕ) (session : CurrentSession)
      → session.session_id ≡ c.session_id
      → IsDead hash (logout now session auth)
  unfolding logout
  logout-IsDead now session same =
      Changes-IsDead hash (next (next done (drops_id session.session_id)) (audits _))
        (revoked_id now "logout" session.session_id same)

  pub revoke_admin_session-IsDead :
      (now : ℕ) (actor : CurrentSession) (session_id : ℕ)
      → session_id ≡ c.session_id
      → (revoke_admin_session now actor session_id auth).1 ≡ ok tt
      → IsDead hash (revoke_admin_session now actor session_id auth).0
  unfolding revoke_admin_session
  revoke_admin_session-IsDead now actor session_id same e =
      guard-ok (IsDead hash) auth (session_id == actor.session_id) _ _
        (λ _.
          Changes-IsDead hash (next (next done (drops_id session_id)) (audits _))
            (revoked_id now "admin_revoked" session_id same))
        e

  revoke_sessions_by_account-IsDead :
      (now : ℕ) (reason : String) (account_id : ℕ)
      → account_id ≡ c.account.id
      → IsDead hash (revoke_sessions_by_account now reason account_id auth).0
  unfolding revoke_sessions_by_account revoked_where
  revoke_sessions_by_account-IsDead now reason account_id same =
      Changes-IsDead hash (next done (drops_account account_id)) (
        revoke-IsDead now hash reason c (is_live_of account_id) auth
          (λ row h. ground (arith, same, h)) unique standing)

module _ (hash : String) (c : CurrentSession) (auth : AuthService)
    (unique : AccessUnique auth.db.sessions)
    (standing : any (pinned hash c) auth.db.sessions ≡ true) where
  pub set_account_status-IsDead :
      (now : ℕ) (actor : CurrentSession) (account_id : ℕ) (status : String)
      → account_id ≡ c.account.id
      → str_eq status "active" ≡ false
      → (set_account_status now actor account_id status auth).1 ≡ ok tt
      → IsDead hash (set_account_status now actor account_id status auth).0
  unfolding set_account_status update_account
  set_account_status-IsDead now actor account_id status same inactive e =
      pure-ok (IsDead hash) auth (ok_or (account_status status) (invalid_input "账号状态无效")) _
        (λ status known.
          guard-ok (IsDead hash) auth (account_id == actor.account.id && not (is_active status)) _ _
            (pure-ok (IsDead hash) auth (account_label account_id auth.db) _ (λ label _ _.
              let changed = update_account (with_status now status) account_id auth in
              rw (not_active _ status inactive known) (
                Changes-IsDead hash (next done (audits _)) (
                  revoke_sessions_by_account-IsDead hash c changed unique standing now
                    (status_reason status) account_id same)))))
        e

  pub reset_account_password-IsDead :
      (outside : Outside) (now : ℕ) (actor : CurrentSession) (account_id : ℕ) (password : String)
      → account_id ≡ c.account.id
      → (reset_account_password outside now actor account_id password auth).1 ≡ ok tt
      → IsDead hash (reset_account_password outside now actor account_id password auth).0
  unfolding reset_account_password update_account
  reset_account_password-IsDead outside now actor account_id password same e =
      guard-ok (IsDead hash) auth (account_id == actor.account.id) _ _
        (pure-ok (IsDead hash) auth (account_label account_id auth.db) _ (λ label _.
          pure-ok (IsDead hash) auth (hash_password outside password) _ (λ password_hash _ _.
            let changed = update_account (with_password now password_hash) account_id auth in
            Changes-IsDead hash (next done (audits _)) (
              revoke_sessions_by_account-IsDead hash c changed unique standing now "password_reset"
                account_id same))))
        e

  pub change_own_password-IsDead :
      (outside : Outside) (now : ℕ) (actor : CurrentSession) (current new : String)
      → actor.account.id ≡ c.account.id
      → actor.session_id ≢ c.session_id
      → (change_own_password outside now actor current new auth).1 ≡ ok tt
      → IsDead hash (change_own_password outside now actor current new auth).0
  unfolding change_own_password update_account revoked_where
  change_own_password-IsDead outside now actor current new same other e =
      pure-ok (IsDead hash) auth (validate_password new) _
        (λ _ _.
          pure-ok (IsDead hash) auth
            (ok_or (find (account_id_is actor.account.id) auth.db.accounts)
              (database_error outside.row_not_found))
            _
            (λ account _.
              pure-ok (IsDead hash) auth (verify_password outside current account.password_hash) _
                (λ fits _. fits-ok (IsDead hash) auth fits _ _ (
                  pure-ok (IsDead hash) auth (hash_password outside new) _ (λ next_hash _ _.
                    let changed =
                      update_account (with_password now next_hash) actor.account.id auth in
                    Changes-IsDead hash (next done (audits _)) (
                      revoke-IsDead now hash "password_changed" c (is_other_live actor) changed
                        (λ row h. ground (arith, same, other, h)) unique standing))))))
        e
