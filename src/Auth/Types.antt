-- ===== src/Auth/Types.antt =====
-- The values that the account service hands out, and the tables that it reads and writes
-- (api/src/auth/service.rs, api/src/auth/session_store.rs; the columns are those of api/migrations).
-- A time stamp is a number of milliseconds. A formatted text is the list of its parts.
use easy_deploy.Prelude.{ℕ, String, Bool, Option, List}

pub data AuthError : Type 0 where
  invalid_input unauthorized forbidden conflict rate_limited internal : String → AuthError

pub data AccountStatus : Type 0 where
  active disabled locked : AccountStatus

pub data SessionStatus : Type 0 where
  active revoked expired : SessionStatus

pub data TokenStatus : Type 0 where
  active revoked : TokenStatus

-- A part of a formatted text.
pub data Part : Type 0 where
  lit : String → Part
  num : ℕ → Part

abbrev pub Message : Type 0
Message = List Part

pub record AuthAccount : Type 0 where
  pub id : ℕ
  pub username : String
  pub display_name : String
  pub status : AccountStatus
  pub is_super_admin : Bool

pub record CurrentSession : Type 0 where
  pub session_id : ℕ
  pub account : AuthAccount
  pub role_codes : List String
  pub permission_keys : List String
  pub is_super_admin : Bool
  pub csrf_token : String
  pub access_token_hash : String

-- The two expiry fields of the source are texts for display ("+7200s"), which no code reads; SQLite
-- owns the expiry.
pub record SessionSnapshot : Type 0 where
  pub session_id : ℕ
  pub account : AuthAccount
  pub role_codes : List String
  pub permission_keys : List String
  pub is_super_admin : Bool
  pub access_token_hash : String
  pub refresh_token_hash : String
  pub access_expires_at : Message
  pub refresh_expires_at : Message
  pub csrf_token : String

pub record LoginInput : Type 0 where
  pub username : String
  pub password : String
  pub display_name : Option String
  pub client_ip : String
  pub user_agent : String

pub record SessionTokens : Type 0 where
  pub access_token : String
  pub refresh_token : String

pub record AuthResult : Type 0 where
  pub session : CurrentSession
  pub tokens : SessionTokens

-- A row of `admin_accounts`.
pub record AccountRow : Type 0 where
  pub id : ℕ
  pub username : String
  pub password_hash : String
  pub display_name : String
  pub status : AccountStatus
  pub is_super_admin : Bool
  pub failed_login_attempts : ℕ
  pub locked_at : Option ℕ
  pub locked_reason : String
  pub last_login_at : Option ℕ
  pub last_login_ip : String
  pub password_changed_at : ℕ
  pub updated_at : ℕ

-- A row of `admin_sessions`.
pub record SessionRow : Type 0 where
  pub id : ℕ
  pub account_id : ℕ
  pub session_status : SessionStatus
  pub access_token_hash : String
  pub refresh_token_hash : String
  pub access_expires_at : ℕ
  pub refresh_expires_at : ℕ
  pub last_ip : String
  pub user_agent : String
  pub revoked_at : Option ℕ
  pub revoke_reason : String
  pub updated_at : ℕ

-- A row of `admin_roles`.
pub record RoleRow : Type 0 where
  pub id : ℕ
  pub role_code : String
  pub role_name : String
  pub is_active : Bool
  pub is_system : Bool
  pub updated_at : ℕ

-- A row of `admin_permissions`.
pub record PermissionRow : Type 0 where
  pub id : ℕ
  pub permission_key : String

-- A row of `api_tokens`. The scopes are JSON texts.
pub record ApiTokenRow : Type 0 where
  pub id : ℕ
  pub account_id : ℕ
  pub token_hash : String
  pub token_prefix : String
  pub source : String
  pub status : TokenStatus
  pub last_used_at : Option ℕ
  pub last_used_ip : String
  pub revoked_at : Option ℕ
  pub app_scope_json : String
  pub unit_scope_json : String
  pub expires_at : Option ℕ
  pub rate_limit_per_minute : ℕ
  pub max_concurrent_requests : ℕ
  pub rate_window_started_at : Option ℕ  -- none for ''
  pub rate_window_count : ℕ
  pub active_request_count : ℕ
  pub updated_at : ℕ

-- A row of `admin_audit_logs`, which is an `AuditRecord` of the source.
pub record AuditRecord : Type 0 where
  pub actor_account_id : Option ℕ
  pub actor_username : String
  pub action : String
  pub target_type : String
  pub target_id : Option ℕ  -- none for ''
  pub message : Message
  pub ip : String
  pub user_agent : String

-- `account_roles` pairs an account with a role, `role_permissions` a role with a permission. The
-- next ids are those that AUTOINCREMENT gives.
pub record AuthDb : Type 0 where
  pub accounts : List AccountRow
  pub roles : List RoleRow
  pub permissions : List PermissionRow
  pub account_roles : List (ℕ × ℕ)
  pub role_permissions : List (ℕ × ℕ)
  pub sessions : List SessionRow
  pub api_tokens : List ApiTokenRow
  pub audits : List AuditRecord
  pub next_session_id : ℕ
  pub next_token_id : ℕ
