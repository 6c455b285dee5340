-- ===== src/Auth/Accounts.antt =====
-- Logging in, and changes of an account that end its sessions (api/src/auth/service.rs: `login`,
-- `record_failed_login`, `set_account_status`, `reset_account_password`, `change_own_password`).
use easy_deploy.Prelude.{
  ℕ, String, Option, none, some, [], ◌∷◌, ◌++◌, Bool, true, false, not, ◌&&◌, find, if◌then◌else◌,
  leb, ◌==◌, ◌+◌, str_eq, ok, err, ok_or,
}
use easy_deploy.Prelude.Table.{update_where}
use easy_deploy.Prelude.Text.{trim, text_is_empty}
use easy_deploy.Auth.Types.{
  invalid_input, unauthorized, forbidden, AccountStatus, Message, lit, num, CurrentSession,
  LoginInput, AuthResult, AccountRow, SessionRow, AuditRecord,
}
use easy_deploy.Auth.Names.{
  Outside, database_error, validate_password, hash_password, verify_password, normalize_username,
  is_active, account_status, account_status_name, row_to_account,
}
use easy_deploy.Auth.Service.{
  AuthService, Outcome, ◌>>=◌, with_db, account_id_is, session_id_is, record_audit, audit_of,
  account_label,
}
use easy_deploy.Auth.Sessions.{Draws, issue_session, revoke_sessions_by_account, is_live_of, revoke}

abbrev pub max_failed_login_attempts : ℕ
max_failed_login_attempts = 5

-- `UPDATE admin_accounts SET .. WHERE id = ?1`.
unfoldable pub update_account : (AccountRow → AccountRow) → ℕ → AuthService → AuthService
unfolding update_where
update_account change account_id auth = with_db auth (record (auth.db) {
  accounts = update_where (account_id_is account_id) change auth.db.accounts;
})

unfoldable pub failed_login : ℕ → ℕ → Bool → AccountRow → AccountRow
failed_login now failed_attempts locked account = record account {
  failed_login_attempts = failed_attempts;
  status = if locked then AccountStatus.locked else account.status;
  locked_at = if locked then some now else account.locked_at;
  locked_reason = if locked then "连续登录失败自动锁定" else account.locked_reason;
  updated_at = now;
}

unfoldable pub record_failed_login : ℕ → ℕ → ℕ → Bool → AuthService → AuthService
unfolding update_account failed_login
record_failed_login now account_id failed_attempts locked auth =
    update_account (failed_login now failed_attempts locked) account_id auth

unfoldable pub logged_in : ℕ → String → AccountRow → AccountRow
logged_in now client_ip account = record account {
  last_login_at = some now;
  last_login_ip = client_ip;
  failed_login_attempts = 0;
  locked_at = none;
  locked_reason = "";
  updated_at = now;
}

abbrev pub login_audit : LoginInput → Option ℕ → String → String → Message → AuditRecord
login_audit input account_id username action message = record {
  actor_account_id = account_id;
  actor_username = username;
  action = action;
  target_type = "account";
  target_id = account_id;
  message = message;
  ip = input.client_ip;
  user_agent = input.user_agent;
}

abbrev pub refused_text : AccountStatus → String
refused_text AccountStatus.locked = "账号已锁定"
refused_text _ = "账号未启用"

abbrev pub wrong_password_text : Bool → ℕ → Message
wrong_password_text true attempts = lit "密码错误，账号已锁定（连续失败 " ∷ num attempts ∷ lit " 次）" ∷ []
wrong_password_text false attempts = lit "密码错误（连续失败 " ∷ num attempts ∷ lit " 次）" ∷ []

abbrev pub attempts_after : AccountRow → ℕ
attempts_after account = account.failed_login_attempts + 1

-- The fifth failure in a row locks the account.
abbrev pub locks : AccountRow → Bool
locks account = leb max_failed_login_attempts (attempts_after account)

unfoldable pub note_failure : ℕ → LoginInput → AccountRow → AuthService → AuthService
unfolding record_failed_login record_audit
note_failure now input account auth =
    record_audit
      (login_audit input (some account.id) account.username "auth.login_failed"
        (wrong_password_text (locks account) (attempts_after account)))
      (record_failed_login now account.id (attempts_after account) (locks account) auth)

-- A password that does not fit.
unfoldable pub reject_password : ℕ → LoginInput → AccountRow → AuthService → Outcome AuthResult
unfolding note_failure revoke_sessions_by_account
reject_password now input account auth =
    let noted = note_failure now input account auth in
    (
      if locks account
          then (revoke_sessions_by_account now "account_locked" account.id noted).0
          else noted,
      err (unauthorized "用户名或密码错误"),
    )

-- A password that fits.
unfoldable pub accept_login :
    Outside → Draws → ℕ → LoginInput → AccountRow → AuthService → Outcome AuthResult
unfolding issue_session update_account logged_in record_audit
accept_login outside draws now input account auth = do
  (auth, result) ←
      issue_session outside draws now (row_to_account account) input.client_ip input.user_agent auth
  let auth = update_account (logged_in now input.client_ip) result.session.account.id auth
  (
    record_audit
        (login_audit input (some result.session.account.id) result.session.account.username
          "auth.login" (lit "登录成功" ∷ []))
        auth,
    ok result,
  )

-- The account of the name, once it is found.
unfoldable pub login_as :
    Outside → Draws → ℕ → LoginInput → AccountRow → AuthService → Outcome AuthResult
unfolding record_audit verify_password reject_password accept_login
login_as outside draws now input account auth =
    if is_active account.status
    then (do
      (auth, fits) ← (auth, verify_password outside input.password account.password_hash)
      (if fits
          then accept_login outside draws now input account auth
          else reject_password now input account auth))
    else (
      record_audit
          (login_audit input (some account.id) account.username "auth.login_failed"
            (lit (refused_text account.status) ∷ []))
          auth,
      err (forbidden (refused_text account.status)),
    )

unfoldable pub login : Outside → Draws → ℕ → LoginInput → AuthService → Outcome AuthResult
unfolding normalize_username trim find record_audit login_as
login outside draws now input auth = do
  (auth, username) ← (auth, normalize_username input.username)
  (if text_is_empty (trim input.password)
      then (auth, err (invalid_input "请输入密码"))
      else elim (find (λ account. str_eq account.username username) auth.db.accounts) [
        | none ↦ (
          record_audit (login_audit input none username "auth.login_failed" (lit "账号不存在" ∷ []))
              auth,
          err (unauthorized "用户名或密码错误"),
        )
        | some account ↦ login_as outside draws now input account auth
      ])

unfoldable pub with_status : ℕ → AccountStatus → AccountRow → AccountRow
with_status now status account = record account {
  status = status;
  failed_login_attempts = if is_active status then 0 else account.failed_login_attempts;
  locked_at = elim status [
    | AccountStatus.active ↦ none
    | AccountStatus.disabled ↦ account.locked_at
    | AccountStatus.locked ↦ elim account.locked_at [ none ↦ some now | some at ↦ some at ]
  ];
  locked_reason = elim status [
    | AccountStatus.active ↦ ""
    | AccountStatus.disabled ↦ account.locked_reason
    | AccountStatus.locked ↦ "管理员手动锁定"
  ];
  updated_at = now;
}

abbrev pub status_reason : AccountStatus → String
status_reason AccountStatus.locked = "account_locked"
status_reason _ = "account_disabled"

unfoldable pub set_account_status : ℕ → CurrentSession → ℕ → String → AuthService → Outcome Unit
unfolding account_status account_label update_account with_status revoke_sessions_by_account
    record_audit account_status_name
set_account_status now actor account_id status auth = do
  (auth, status) ← (auth, ok_or (account_status status) (invalid_input "账号状态无效"))
  (if account_id == actor.account.id && not (is_active status)
      then (auth, err (invalid_input "不能禁用或锁定当前登录账号"))
      else (do
        (auth, label) ← (auth, account_label account_id auth.db)
        let auth = update_account (with_status now status) account_id auth
        let (auth, revoked_count) =
            if is_active status
            then (auth, 0)
            else revoke_sessions_by_account now (status_reason status) account_id auth
        (
          record_audit
              (audit_of actor "rbac.account_status" "account" account_id (
                lit "更新账号 "
                ∷ (label
                    ++ lit " 状态为"
                      ∷ lit (account_status_name status)
                      ∷ lit "，撤销活跃会话 "
                      ∷ num revoked_count
                      ∷ lit " 个"
                      ∷ [])))
              auth,
          ok tt,
        )))

unfoldable pub with_password : ℕ → String → AccountRow → AccountRow
with_password now password_hash account = record account {
  password_hash = password_hash;
  password_changed_at = now;
  updated_at = now;
}

unfoldable pub reset_account_password :
    Outside → ℕ → CurrentSession → ℕ → String → AuthService → Outcome Unit
unfolding account_label hash_password update_account with_password revoke_sessions_by_account
    record_audit
reset_account_password outside now actor account_id password auth =
    if account_id == actor.account.id
    then (auth, err (invalid_input "不能在账号管理中重置当前登录账号密码，请使用个人中心"))
    else (do
      (auth, label) ← (auth, account_label account_id auth.db)
      (auth, password_hash) ← (auth, hash_password outside password)
      let auth = update_account (with_password now password_hash) account_id auth
      let (auth, revoked_count) = revoke_sessions_by_account now "password_reset" account_id auth
      (
        record_audit
            (audit_of actor "rbac.account_reset_password" "account" account_id
              (lit "重置账号 " ∷ (label ++ lit " 密码，撤销活跃会话 " ∷ num revoked_count ∷ lit " 个" ∷ [])))
            auth,
        ok tt,
      ))

abbrev pub is_other_live : CurrentSession → SessionRow → Bool
is_other_live actor session =
    is_live_of actor.account.id session && not (session_id_is actor.session_id session)

unfoldable pub change_own_password :
    Outside → ℕ → CurrentSession → String → String → AuthService → Outcome Unit
unfolding validate_password find verify_password hash_password update_account with_password
    update_where record_audit
change_own_password outside now actor current_password new_password auth = do
  (auth, _) ← (auth, validate_password new_password)
  -- fetch_one of no row
  (auth, account) ← (
    auth,
    ok_or (find (account_id_is actor.account.id) auth.db.accounts)
        (database_error outside.row_not_found),
  )
  (auth, fits) ← (auth, verify_password outside current_password account.password_hash)
  (if fits
      then (do
        (auth, next_hash) ← (auth, hash_password outside new_password)
        let auth = update_account (with_password now next_hash) actor.account.id auth
        let auth = with_db auth (record (auth.db) {
          sessions =
              update_where (is_other_live actor) (revoke now "password_changed") auth.db.sessions;
        })
        (
          record_audit
              (audit_of actor "profile.password_change" "account" actor.account.id
                (lit "修改个人密码" ∷ []))
              auth,
          ok tt,
        ))
      else (auth, err (unauthorized "当前密码不正确")))
