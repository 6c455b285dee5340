-- ===== src/Auth/Sessions.antt =====
-- Issuing, checking, renewing and revoking sessions (api/src/auth/service.rs: `issue_session`,
-- `authenticate_access_token`, `refresh`, `logout`, `revoke_*`).
use easy_deploy.Prelude.{
  ℕ, String, Option, none, some, List, [], ◌∷◌, ◌++◌, Bool, true, false, ◌&&◌, ◌||◌, any, keep,
  find, count, map, if◌then◌else◌, ltb, ◌==◌, ◌+◌, str_eq, ok, err,
}
use easy_deploy.Prelude.Table.{update_where}
use easy_deploy.Auth.Types.{
  invalid_input, unauthorized, forbidden, SessionStatus, lit, AuthAccount, CurrentSession,
  SessionSnapshot, AuthResult, AccountRow, SessionRow, AuthDb,
}
use easy_deploy.Auth.Store.{
  save, get_by_access_hash, get_by_refresh_hash, delete_session, delete_session_by_id,
  delete_sessions_by_account, current_session,
}
use easy_deploy.Auth.Names.{
  Outside, database_error, hash_token, generate_token, is_active, row_to_account, timestamp_after,
}
use easy_deploy.Auth.Service.{
  AuthService, Outcome, ◌>>=◌, with_db, with_store, account_id_is, session_id_is, role_codes,
  permission_keys, record_audit, audit_of,
}

abbrev pub access_ttl_secs : ℕ
access_ttl_secs = 7200

abbrev pub refresh_ttl_secs : ℕ
refresh_ttl_secs = 1209600

abbrev pub is_live : SessionStatus → Bool
is_live SessionStatus.active = true
is_live _ = false

-- The random bytes of the three tokens of a session.
pub record Draws : Type 0 where
  pub access : Option (List ℕ)
  pub refresh : Option (List ℕ)
  pub csrf : Option (List ℕ)

-- The UNIQUE columns of `admin_sessions`.
abbrev pub takes_hash : String → String → SessionRow → Bool
takes_hash access refresh row =
    str_eq row.access_token_hash access || str_eq row.refresh_token_hash refresh

unfoldable pub new_session : ℕ → ℕ → ℕ → String → String → String → String → SessionRow
new_session now session_id account_id access_hash refresh_hash client_ip user_agent = record {
  id = session_id;
  account_id = account_id;
  session_status = SessionStatus.active;
  access_token_hash = access_hash;
  refresh_token_hash = refresh_hash;
  access_expires_at = now + 7200000;
  refresh_expires_at = now + 1209600000;
  last_ip = client_ip;
  user_agent = user_agent;
  revoked_at = none;
  revoke_reason = "";
  updated_at = now;
}

-- `INSERT INTO admin_sessions .. RETURNING id`.
unfoldable pub insert_session : Outside → (ℕ → SessionRow) → AuthService → Outcome ℕ
insert_session outside row_of auth =
    let row = row_of auth.db.next_session_id in
    if any (takes_hash row.access_token_hash row.refresh_token_hash) auth.db.sessions
    then (auth, err (database_error outside.unique_violation))
    else (
      with_db auth (record (auth.db) {
        sessions = auth.db.sessions ++ row ∷ [];
        next_session_id = auth.db.next_session_id + 1;
      }),
      ok auth.db.next_session_id,
    )

unfoldable pub snapshot_of : AuthDb → AuthAccount → ℕ → String → String → String → SessionSnapshot
unfolding role_codes permission_keys
snapshot_of db account session_id access_hash refresh_hash csrf_token = record {
  session_id = session_id;
  account = account;
  role_codes = role_codes account.id db;
  permission_keys = permission_keys account.id db;
  is_super_admin = account.is_super_admin;
  access_token_hash = access_hash;
  refresh_token_hash = refresh_hash;
  access_expires_at = timestamp_after access_ttl_secs;
  refresh_expires_at = timestamp_after refresh_ttl_secs;
  csrf_token = csrf_token;
}

unfoldable pub issue_session :
    Outside → Draws → ℕ → AuthAccount → String → String → AuthService → Outcome AuthResult
unfolding generate_token hash_token insert_session new_session snapshot_of save current_session
issue_session outside draws now account client_ip user_agent auth = do
  (auth, access_token) ← (auth, generate_token outside draws.access)
  (auth, refresh_token) ← (auth, generate_token outside draws.refresh)
  (auth, csrf_token) ← (auth, generate_token outside draws.csrf)
  let access_hash = hash_token outside access_token
  let refresh_hash = hash_token outside refresh_token
  (auth, session_id) ←
      insert_session outside
        (λ id. new_session now id account.id access_hash refresh_hash client_ip user_agent) auth
  let snapshot = snapshot_of auth.db account session_id access_hash refresh_hash csrf_token
  (
    with_store auth (save snapshot auth.store),
    ok (record {
      session = current_session snapshot;
      tokens = record { access_token = access_token; refresh_token = refresh_token };
    }),
  )

-- The account of a session row, if it is active.
abbrev pub active_account : AuthDb → SessionRow → AccountRow → Bool
active_account db session account = account.id == session.account_id && is_active account.status

-- The rows that the access token of a snapshot may stand on.
abbrev pub admits_access : ℕ → ℕ → String → AuthDb → SessionRow → Bool
admits_access now session_id access_hash db session =
    session_id_is session_id session
    && (is_live session.session_status
        && (any (active_account db session) db.accounts
            && (str_eq session.access_token_hash access_hash && ltb now session.access_expires_at)))

unfoldable pub authenticate_access_token :
    Outside → ℕ → String → AuthService → Outcome CurrentSession
unfolding hash_token get_by_access_hash count any delete_session current_session
authenticate_access_token outside now access_token auth =
    let access_hash = hash_token outside access_token in
    elim (get_by_access_hash access_hash auth.store) [
      | none ↦ (auth, err (unauthorized "登录已过期，请重新登录"))
      | some snapshot ↦
          let active =
            count (admits_access now snapshot.session_id access_hash auth.db) auth.db.sessions in
          if active == 0
          then (
            with_store auth (delete_session snapshot auth.store),
            err (unauthorized "登录已过期，请重新登录"),
          )
          else (auth, ok (current_session snapshot))
    ]

abbrev pub revoke : ℕ → String → SessionRow → SessionRow
revoke now reason session = record session {
  session_status = SessionStatus.revoked;
  revoked_at = some now;
  revoke_reason = reason;
  updated_at = now;
}

unfoldable pub revoke_session_record : ℕ → String → ℕ → AuthService → AuthService
unfolding update_where
revoke_session_record now reason session_id auth = with_db auth (record (auth.db) {
  sessions = update_where (session_id_is session_id) (revoke now reason) auth.db.sessions;
})

abbrev pub is_live_of : ℕ → SessionRow → Bool
is_live_of account_id session = session.account_id == account_id && is_live session.session_status

-- The number of the sessions revoked beside the state.
unfoldable pub revoke_sessions_by_account : ℕ → String → ℕ → AuthService → AuthService × ℕ
unfolding update_where count delete_sessions_by_account
revoke_sessions_by_account now reason account_id auth = (
  record {
    db = record (auth.db) {
      sessions = update_where (is_live_of account_id) (revoke now reason) auth.db.sessions;
    };
    store = delete_sessions_by_account account_id auth.store;
  },
  count (is_live_of account_id) auth.db.sessions,
)

unfoldable pub revoke_sessions_of : ℕ → String → List ℕ → AuthService → AuthService
unfolding revoke_sessions_by_account
revoke_sessions_of now reason [] auth = auth
revoke_sessions_of now reason (account_id ∷ account_ids) auth =
    revoke_sessions_of now reason account_ids
      (revoke_sessions_by_account now reason account_id auth).0

unfoldable pub revoke_sessions_by_role : ℕ → String → ℕ → AuthService → AuthService
unfolding revoke_sessions_of keep
revoke_sessions_by_role now reason role_id auth =
    revoke_sessions_of now reason
      (map (λ pair. pair.0) (keep (λ pair. pair.1 == role_id) auth.db.account_roles)) auth

abbrev pub admits_refresh : ℕ → ℕ → String → SessionRow → Bool
admits_refresh now session_id refresh_hash session =
    str_eq session.refresh_token_hash refresh_hash
    && (session_id_is session_id session
        && (is_live session.session_status && ltb now session.refresh_expires_at))

-- The row of a refresh, joined with its account.
unfoldable pub select_refresh : ℕ → ℕ → String → AuthDb → Option (SessionRow × AccountRow)
unfolding find
select_refresh now session_id refresh_hash db =
    elim (find (admits_refresh now session_id refresh_hash) db.sessions) [
      | none ↦ none
      | some session ↦ elim (find (account_id_is session.account_id) db.accounts) [
        | none ↦ none
        | some account ↦ some (session, account)
      ]
    ]

-- A new session in place of an old one.
unfoldable pub rotate : Outside → Draws → ℕ → ℕ → AccountRow → AuthService → Outcome AuthResult
unfolding issue_session revoke_session_record delete_session_by_id
rotate outside draws now session_id account auth = do
  (auth, result) ← issue_session outside draws now (row_to_account account) "" "" auth
  let auth = revoke_session_record now "refresh_rotated" session_id auth
  (with_store auth (delete_session_by_id session_id auth.store), ok result)

unfoldable pub refresh : Outside → Draws → ℕ → String → AuthService → Outcome AuthResult
unfolding hash_token get_by_refresh_hash select_refresh delete_session rotate
refresh outside draws now refresh_token auth =
    let refresh_hash = hash_token outside refresh_token in
    elim (get_by_refresh_hash refresh_hash auth.store) [
      | none ↦ (auth, err (unauthorized "登录续期失败，请重新登录"))
      | some snapshot ↦ elim (select_refresh now snapshot.session_id refresh_hash auth.db) [
        | none ↦ (
          with_store auth (delete_session snapshot auth.store),
          err (unauthorized "登录续期失败，请重新登录"),
        )
        | some (session, account) ↦
            if is_active account.status
            then rotate outside draws now session.id account auth
            else (with_store auth (delete_session snapshot auth.store), err (forbidden "账号未启用"))
      ]
    ]

unfoldable pub logout : ℕ → CurrentSession → AuthService → AuthService
unfolding revoke_session_record delete_session_by_id record_audit
logout now session auth =
    let auth = revoke_session_record now "logout" session.session_id auth in
    let auth = with_store auth (delete_session_by_id session.session_id auth.store) in
    record_audit (audit_of session "auth.logout" "account" session.account.id (lit "退出登录" ∷ []))
      auth

unfoldable pub revoke_admin_session : ℕ → CurrentSession → ℕ → AuthService → Outcome Unit
unfolding revoke_session_record delete_session_by_id record_audit
revoke_admin_session now actor session_id auth =
    if session_id == actor.session_id
    then (auth, err (invalid_input "不能在这里强制下线当前会话，请使用退出登录"))
    else (let auth = revoke_session_record now "admin_revoked" session_id auth in
        let auth = with_store auth (delete_session_by_id session_id auth.store) in
        (
          record_audit
              (audit_of actor "rbac.session_revoke" "session" session_id (lit "强制下线会话" ∷ [])) auth,
          ok tt,
        ))
