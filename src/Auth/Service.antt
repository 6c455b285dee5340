-- ===== src/Auth/Service.antt =====
-- The state of the account service and the queries that its operations share
-- (api/src/auth/service.rs: `role_codes`, `permission_keys`, `record_audit`, `account_label`).
pub mod Steps
use Prim.Native.Nat.{Ordering}
use Prim.Native.String.{compare}
use easy_deploy.Prelude.{
  ℕ, String, Option, none, some, List, [], ◌∷◌, ◌++◌, Bool, true, false, ◌&&◌, ◌||◌, str_eq, any,
  keep, find, map, ◌==◌, Result, ok, err,
}
use easy_deploy.Prelude.Sorting.{sort_by}
use easy_deploy.Auth.Types.{
  AuthError, invalid_input, Message, AccountRow, SessionRow, RoleRow, PermissionRow, AuditRecord,
  AuthDb, CurrentSession, Part,
}
use easy_deploy.Auth.Store.{MemorySessionStore}
use easy_deploy.Auth.Names.{format_account_label}

pub record AuthService : Type 0 where
  pub db : AuthDb
  pub store : MemorySessionStore

-- The state after a call, and its result. An early return keeps what was written before it.
abbrev pub Outcome : Type 0 → Type 0
Outcome A = AuthService × Result A AuthError

infixl 5 ◌>>=◌
abbrev pub ◌>>=◌ : {A B : Type 0} → Outcome A → (AuthService × A → Outcome B) → Outcome B
(auth, ok a) >>= f = f (auth, a)
(auth, err e) >>= f = (auth, err e)

abbrev pub with_db : AuthService → AuthDb → AuthService
with_db auth db = record auth { db = db }

abbrev pub with_store : AuthService → MemorySessionStore → AuthService
with_store auth store = record auth { store = store }

abbrev pub account_id_is : ℕ → AccountRow → Bool
account_id_is account_id account = account.id == account_id

abbrev pub session_id_is : ℕ → SessionRow → Bool
session_id_is session_id session = session.id == session_id

abbrev pub text_le : String → String → Bool
text_le a b = elim (compare a b) [ Ordering.gt ↦ false | _ ↦ true ]

-- The active roles that an account has.
abbrev pub has_role : AuthDb → ℕ → RoleRow → Bool
has_role db account_id role =
    role.is_active && any (λ pair. pair.0 == account_id && pair.1 == role.id) db.account_roles

unfoldable pub role_codes : ℕ → AuthDb → List String
unfolding any keep sort_by
role_codes account_id db =
    sort_by text_le (map (λ role. role.role_code) (keep (has_role db account_id) db.roles))

abbrev pub grants : AuthDb → ℕ → PermissionRow → Bool
grants db account_id permission =
    any
      (λ pair.
        pair.1 == permission.id
        && any (λ role. role.id == pair.0 && has_role db account_id role) db.roles)
      db.role_permissions

unfoldable pub permission_keys : ℕ → AuthDb → List String
unfolding any keep sort_by
permission_keys account_id db =
    sort_by text_le
      (map (λ permission. permission.permission_key) (keep (grants db account_id) db.permissions))

unfoldable pub can : CurrentSession → String → Bool
unfolding any
can session permission_key =
    session.is_super_admin || any (λ held. str_eq held permission_key) session.permission_keys

unfoldable pub record_audit : AuditRecord → AuthService → AuthService
record_audit audit auth = with_db auth (record (auth.db) { audits = auth.db.audits ++ audit ∷ [] })

-- What a session does to something, with no address.
abbrev pub audit_of : CurrentSession → String → String → ℕ → Message → AuditRecord
audit_of actor action target_type target_id message = record {
  actor_account_id = some actor.account.id;
  actor_username = actor.account.username;
  action = action;
  target_type = target_type;
  target_id = some target_id;
  message = message;
  ip = "";
  user_agent = "";
}

unfoldable pub account_label : ℕ → AuthDb → Result Message AuthError
account_label account_id db = elim (find (account_id_is account_id) db.accounts) [
  | none ↦ err (invalid_input "账号不存在")
  | some account ↦ ok (format_account_label account.username account.display_name)
]
