-- ===== src/Auth/Changes.antt =====
-- What the operations of the account service do, one write after another: each is a sequence of
-- seven kinds of change of the database and the session store (api/src/auth/service.rs).
pub mod Operations
use easy_deploy.Prelude.{
  ℕ, String, Option, some, List, [], ◌∷◌, ◌++◌, Bool, false, ◌+◌, ◌<◌, any, str_eq, ◌≡◌, ◌⊎◌,
}
use easy_deploy.Prelude.Table.{update_where}
use easy_deploy.Auth.Types.{
  AuthAccount, SessionSnapshot, SessionRow, AccountRow, AccountStatus, AuditRecord, AuthDb,
}
use easy_deploy.Auth.Store.{
  save, get_by_access_hash, get_by_refresh_hash, delete_session, delete_session_by_id,
  delete_sessions_by_account,
}
use easy_deploy.Auth.Service.{AuthService, with_db, with_store, record_audit}
use easy_deploy.Auth.Sessions.{takes_hash, new_session, snapshot_of, revoke}
use easy_deploy.Auth.Accounts.{update_account, max_failed_login_attempts}

-- An active account has not used up its attempts.
abbrev pub IsOpen : AccountRow → Type 0
IsOpen account =
    account.status ≡ AccountStatus.active
    → account.failed_login_attempts < max_failed_login_attempts

-- The state after a session was inserted and saved.
unfoldable pub issued :
    ℕ → AuthAccount → String → String → String → String → String → AuthService → AuthService
unfolding new_session snapshot_of save
issued now account client_ip user_agent access_hash refresh_hash csrf_token auth =
    let id = auth.db.next_session_id in
    let db = record (auth.db) {
      sessions =
          auth.db.sessions
          ++ new_session now id account.id access_hash refresh_hash client_ip user_agent ∷ [];
      next_session_id = id + 1;
    } in
    record {
      db = db;
      store = save (snapshot_of db account id access_hash refresh_hash csrf_token) auth.store;
    }

unfoldable pub revoked_where : (SessionRow → Bool) → ℕ → String → AuthService → AuthService
unfolding update_where
revoked_where p now reason auth =
    with_db auth
      (record (auth.db) { sessions = update_where p (revoke now reason) auth.db.sessions })

pub data Change (auth : AuthService) : AuthService → Type 0 where
  audits : (audit : AuditRecord) → Change auth (record_audit audit auth)
  updates :
      (change : AccountRow → AccountRow) (account_id : ℕ)
      → ((a : AccountRow) → (change a).id ≡ a.id)
      → ((a : AccountRow) → IsOpen a → IsOpen (change a))
      → Change auth (update_account change account_id auth)
  revokes :
      (p : SessionRow → Bool) (now : ℕ) (reason : String)
      → Change auth (revoked_where p now reason auth)
  issues :
      (now : ℕ) (account : AuthAccount) (ip agent access refresh csrf : String)
      → any (takes_hash access refresh) auth.db.sessions ≡ false
      → Change auth (issued now account ip agent access refresh csrf auth)
  drops :
      (snapshot : SessionSnapshot) (hash : String)
      → (get_by_access_hash hash auth.store ≡ some snapshot)
        ⊎ (get_by_refresh_hash hash auth.store ≡ some snapshot)
      → Change auth (with_store auth (delete_session snapshot auth.store))
  drops_id :
      (session_id : ℕ) → Change auth (with_store auth (delete_session_by_id session_id auth.store))
  drops_account :
      (account_id : ℕ)
      → Change auth (with_store auth (delete_sessions_by_account account_id auth.store))

pub data Changes (auth : AuthService) : AuthService → Type 0 where
  done : Changes auth auth
  next :
      {before after : AuthService} → Changes auth before → Change before after → Changes auth after

pub Changes-append : {a b c : AuthService} → Changes a b → Changes b c → Changes a c
Changes-append p done = p
Changes-append p (next q change) = next (Changes-append p q) change

-- What every change keeps, a sequence of changes keeps.
pub Changes-keep {κ} :
    (P : AuthService → Type κ)
    → ((before after : AuthService) → Change before after → P before → P after)
    → {a b : AuthService} → Changes a b
    → P a
    → P b
Changes-keep P kept done h = h
Changes-keep P kept (next {before} {after} p change) h =
    kept before after change (Changes-keep P kept p h)
