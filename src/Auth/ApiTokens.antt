-- ===== src/Auth/ApiTokens.antt =====
-- API tokens: issuing, revoking, deleting, and the quota of a request (api/src/auth/service.rs:
-- `create_api_token`, `revoke_api_token`, `delete_revoked_api_token`, `authenticate_api_token`, and
-- the release of a request in `Drop for ApiTokenRequestPermit`).
pub mod Permits
pub mod Quotas
pub mod Charges
pub mod Bounds
pub mod Rates
use Prim.Native.Nat.{◌/◌, ◌%◌, ◌-◌}
use Prim.Native.String.{char_at, ◌++◌ as text_append}
use easy_deploy.Prelude.{
  ℕ, zero, suc, String, Option, none, some, List, [], ◌∷◌, ◌++◌, Bool, true, false, not, ◌&&◌, ◌||◌,
  any, keep, find, count, contains, if◌then◌else◌, ltb, leb, ◌==◌, ◌+◌, str_eq, Result, ok, err,
  ok_or,
}
use easy_deploy.Prelude.Table.{update_where}
use easy_deploy.Auth.Types.{
  AuthError, invalid_input, unauthorized, rate_limited, internal, TokenStatus, lit, Message,
  CurrentSession, AccountRow, ApiTokenRow, AuthDb,
}
use easy_deploy.Auth.Names.{
  Outside, database_error, hash_token, generate_token, token_prefix, normalize_api_token_source,
  is_active, row_to_account,
}
use easy_deploy.Auth.Service.{
  AuthService, Outcome, ◌>>=◌, with_db, account_id_is, role_codes, permission_keys, record_audit,
  audit_of,
}

pub record CreatedApiToken : Type 0 where
  pub id : ℕ
  pub token : String
  pub token_prefix : String
  pub source : String

-- The permit that releases the request when it is dropped is the id of its token.
pub record ApiTokenAuthSession : Type 0 where
  pub session : CurrentSession
  pub token_id : ℕ
  pub source : String
  pub app_scope_ids : List ℕ
  pub unit_scope_ids : List ℕ

unfoldable pub allows_app : ApiTokenAuthSession → ℕ → Bool
allows_app session app_id = contains app_id session.app_scope_ids

unfoldable pub allows_unit : ApiTokenAuthSession → ℕ → Bool
allows_unit session unit_id = contains unit_id session.unit_scope_ids

abbrev pub is_usable : TokenStatus → Bool
is_usable TokenStatus.active = true
is_usable TokenStatus.revoked = false

abbrev pub token_id_is : ℕ → ApiTokenRow → Bool
token_id_is token_id token = token.id == token_id

unfoldable pub new_token : ℕ → ℕ → ℕ → String → String → String → ApiTokenRow
new_token now id account_id token_hash token_prefix source = record {
  id = id;
  account_id = account_id;
  token_hash = token_hash;
  token_prefix = token_prefix;
  source = source;
  status = TokenStatus.active;
  last_used_at = none;
  last_used_ip = "";
  revoked_at = none;
  app_scope_json = "[]";
  unit_scope_json = "[]";
  expires_at = none;
  rate_limit_per_minute = 60;
  max_concurrent_requests = 2;
  rate_window_started_at = none;
  rate_window_count = 0;
  active_request_count = 0;
  updated_at = now;
}

abbrev pub token_message : String → String → String → Message
token_message head source prefix =
    lit head ∷ lit " api token source=" ∷ lit source ∷ lit " prefix=" ∷ lit prefix ∷ []

unfoldable pub create_api_token :
    Outside → Option (List ℕ) → ℕ → CurrentSession → String → AuthService → Outcome CreatedApiToken
unfolding normalize_api_token_source generate_token hash_token token_prefix new_token record_audit
create_api_token outside drawn now actor source auth = do
  (auth, source) ← (auth, normalize_api_token_source source)
  (auth, token) ← (auth, generate_token outside drawn)
  let hash = hash_token outside token
  let prefix = token_prefix token
  let id = auth.db.next_token_id
  (if any (λ row. str_eq row.token_hash hash) auth.db.api_tokens
      then (auth, err (database_error outside.unique_violation))
      else (
        record_audit
            (audit_of actor "api_tokens.create" "api_token" id
              (token_message "create" source prefix))
            (with_db auth (record (auth.db) {
              api_tokens =
                  auth.db.api_tokens ++ new_token now id actor.account.id hash prefix source ∷ [];
              next_token_id = id + 1;
            })),
        ok (record { id = id; token = token; token_prefix = prefix; source = source }),
      ))

abbrev pub is_usable_token : ℕ → ApiTokenRow → Bool
is_usable_token token_id token = token_id_is token_id token && is_usable token.status

abbrev pub is_revoked_token : ℕ → ApiTokenRow → Bool
is_revoked_token token_id token = token_id_is token_id token && not (is_usable token.status)

unfoldable pub revoke_token : ℕ → ApiTokenRow → ApiTokenRow
revoke_token now token = record token {
  status = TokenStatus.revoked;
  revoked_at = some now;
  updated_at = now;
}

unfoldable pub revoke_api_token : ℕ → CurrentSession → ℕ → AuthService → Outcome Unit
unfolding find update_where revoke_token record_audit
revoke_api_token now actor token_id auth =
    elim (find (is_usable_token token_id) auth.db.api_tokens) [
      | none ↦ (auth, err (invalid_input "API Token 不存在或已吊销"))
      | some token ↦ (
        record_audit
            (audit_of actor "api_tokens.revoke" "api_token" token_id
              (token_message "revoke" token.source token.token_prefix))
            (with_db auth (record (auth.db) {
              api_tokens =
                  update_where (is_usable_token token_id) (revoke_token now) auth.db.api_tokens;
            })),
        ok tt,
      )
    ]

unfoldable pub delete_revoked_api_token : CurrentSession → ℕ → AuthService → Outcome Unit
unfolding find keep record_audit
delete_revoked_api_token actor token_id auth =
    elim (find (is_revoked_token token_id) auth.db.api_tokens) [
      | none ↦ (auth, err (invalid_input "API Token 不存在或尚未吊销"))
      | some token ↦ (
        record_audit
            (audit_of actor "api_tokens.delete" "api_token" token_id
              (token_message "delete revoked" token.source token.token_prefix))
            (with_db auth (record (auth.db) {
              api_tokens = keep (λ row. not (is_revoked_token token_id row)) auth.db.api_tokens;
            })),
        ok tt,
      )
    ]

-- The window of the rate limit is over, or never began.
abbrev pub window_over : ℕ → ApiTokenRow → Bool
window_over now token = elim token.rate_window_started_at [
  | none ↦ true
  | some started ↦ leb (started + 60000) now
]

abbrev pub has_quota : ℕ → ℕ → ApiTokenRow → Bool
has_quota now token_id token =
    token_id_is token_id token
    && (ltb token.active_request_count token.max_concurrent_requests
        && (window_over now token || ltb token.rate_window_count token.rate_limit_per_minute))

unfoldable pub use_token : ℕ → String → ApiTokenRow → ApiTokenRow
use_token now client_ip token = record token {
  rate_window_count = if window_over now token then 1 else token.rate_window_count + 1;
  rate_window_started_at = if window_over now token then some now else token.rate_window_started_at;
  active_request_count = token.active_request_count + 1;
  last_used_at = some now;
  last_used_ip = client_ip;
  updated_at = now;
}

abbrev pub unexpired : ℕ → Option ℕ → Bool
unexpired now none = true
unexpired now (some expires) = ltb now expires

-- A usable token with the hash.
abbrev pub matches_token : ℕ → String → ApiTokenRow → Bool
matches_token now token_hash token =
    str_eq token.token_hash token_hash && (is_usable token.status && unexpired now token.expires_at)

abbrev pub active_owner : ApiTokenRow → AccountRow → Bool
active_owner token account = account.id == token.account_id && is_active account.status

-- The token of the hash, joined with its account.
unfoldable pub select_token : ℕ → String → AuthDb → Option (ApiTokenRow × AccountRow)
unfolding find
select_token now token_hash db = elim (find (matches_token now token_hash) db.api_tokens) [
  | none ↦ none
  | some token ↦ elim (find (active_owner token) db.accounts) [
    | none ↦ none
    | some account ↦ some (token, account)
  ]
]

-- `{n}` of a number, with as many rounds as the number.
unfoldable pub decimal_from : ℕ → ℕ → String
decimal_from zero n = String.[]
decimal_from (suc fuel) n =
    let digit : String = String.◌∷◌ (char_at "0123456789" (n % 10)) String.[] in
    let head = decimal_from fuel (n / 10) in if ltb n 10 then digit else text_append head digit

unfoldable pub decimal : ℕ → String
unfolding decimal_from
decimal n = decimal_from (suc n) n

unfoldable pub token_session :
    AuthDb → ApiTokenRow → AccountRow → List ℕ → List ℕ → ApiTokenAuthSession
unfolding role_codes permission_keys decimal
token_session db token account app_scope_ids unit_scope_ids = record {
  session = record {
    session_id = 0;
    account = row_to_account account;
    role_codes = role_codes account.id db;
    permission_keys = permission_keys account.id db;
    is_super_admin = account.is_super_admin;
    csrf_token = "";
    access_token_hash =
        text_append "api:" (text_append (decimal token.id) (text_append ":" token.source));
  };
  token_id = token.id;
  source = token.source;
  app_scope_ids = app_scope_ids;
  unit_scope_ids = unit_scope_ids;
}

-- An early return rolls the transaction back. The queries for the roles and the permissions follow
-- its commit; `lost` is the text of the error of the one that fails, if one does.
unfoldable pub authenticate_api_token :
    Outside → Option String → ℕ → String → String → AuthService → Outcome ApiTokenAuthSession
unfolding hash_token select_token count update_where use_token token_session
authenticate_api_token outside lost now token client_ip auth = do
  (auth, (row, account)) ← (
    auth,
    ok_or (select_token now (hash_token outside token) auth.db) (unauthorized "API Token 无效或已吊销"),
  )
  (auth, app_scope_ids) ←
      (auth, ok_or (outside.ids_of_json row.app_scope_json) (internal "API Token 应用范围配置损坏"))
  (auth, unit_scope_ids) ←
      (auth, ok_or (outside.ids_of_json row.unit_scope_json) (internal "API Token 部署单元范围配置损坏"))
  (if count (has_quota now row.id) auth.db.api_tokens == 1
      then (
        with_db auth (record (auth.db) {
          api_tokens =
              update_where (has_quota now row.id) (use_token now client_ip) auth.db.api_tokens;
        }),
        elim lost [
          | none ↦ ok (token_session auth.db row account app_scope_ids unit_scope_ids)
          | some text ↦ err (database_error text)
        ],
      )
      else (auth, err (rate_limited "API Token 请求过于频繁或并发数已达到上限")))

unfoldable pub release : ℕ → ApiTokenRow → ApiTokenRow
release now token = record token {
  active_request_count = token.active_request_count - 1;
  updated_at = now;
}

-- `ApiTokenRequestPermit::drop`.
unfoldable pub drop_permit : ℕ → ℕ → AuthService → AuthService
unfolding update_where release
drop_permit now token_id auth = with_db auth (record (auth.db) {
  api_tokens = update_where (token_id_is token_id) (release now) auth.db.api_tokens;
})
