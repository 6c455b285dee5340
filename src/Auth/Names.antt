-- ===== src/Auth/Names.antt =====
-- The checks on names and passwords, and the texts of labels (api/src/auth/service.rs from
-- `normalize_audit_filter` on, api/src/auth/password.rs, api/src/auth/token.rs).
use Prim.Native.Nat.{◌/◌, ◌%◌, ◌-◌}
use Prim.Native.Char.{Char, code}
use Prim.Native.String.{char_at, ◌++◌ as text_append}
use easy_deploy.Prelude.{
  ℕ, String, Option, none, some, List, [], ◌∷◌, Bool, true, false, ◌&&◌, ◌||◌, if◌then◌else◌, ltb,
  leb, str_eq, Result, ok, err, ◌>>=◌,
}
use easy_deploy.Prelude.Text.{trim, text_is_empty, char_count, take_chars}
use easy_deploy.Auth.Types.{
  AuthError, invalid_input, unauthorized, forbidden, conflict, rate_limited, internal,
  AccountStatus, lit, num, Message, AccountRow, AuthAccount, CurrentSession,
}

-- The packages that the service calls: sha2, base64, argon2, serde_json, and the texts of sqlx's
-- errors for a violated UNIQUE constraint and for a missing row.
pub record Outside : Type 0 where
  pub sha256 : String → List ℕ
  pub base64 : List ℕ → String
  pub hash : String → Option String
  pub verify : String → String → Option Bool  -- none: the stored hash is no hash
  pub ids_of_json : String → Option (List ℕ)
  pub unique_violation : String
  pub row_not_found : String

-- `AuthError::from` of an error of sqlx, whose text follows.
abbrev pub database_error : String → AuthError
database_error text = internal (text_append "数据库操作失败: " text)

abbrev pub message : AuthError → String
message (invalid_input text) = text
message (unauthorized text) = text
message (forbidden text) = text
message (conflict text) = text
message (rate_limited text) = text
message (internal text) = text

abbrev pub status_code : AuthError → ℕ
status_code (invalid_input _) = 400
status_code (unauthorized _) = 401
status_code (forbidden _) = 403
status_code (conflict _) = 409
status_code (rate_limited _) = 429
status_code (internal _) = 500

-- `{byte:02x}` of each byte.
unfoldable pub hex : List ℕ → String
hex [] = String.[]
hex (byte ∷ bytes) =
    let digits : String = "0123456789abcdef" in
    String.◌∷◌ (char_at digits (byte / 16)) (String.◌∷◌ (char_at digits (byte % 16)) (hex bytes))

unfoldable pub hash_token : Outside → String → String
unfolding hex
hash_token outside token = hex (outside.sha256 token)

-- The random bytes are an argument, none where the system gives none.
unfoldable pub generate_token : Outside → Option (List ℕ) → Result String AuthError
generate_token outside none = err (internal "生成登录凭证失败")
generate_token outside (some raw) = ok (outside.base64 raw)

unfoldable pub validate_password : String → Result Unit AuthError
validate_password password =
    if ltb (char_count password) 8 then err (invalid_input "密码至少需要 8 个字符") else ok tt

unfoldable pub hash_password : Outside → String → Result String AuthError
unfolding validate_password
hash_password outside password = do
  _ ← validate_password password
  elim (outside.hash password) [ none ↦ err (internal "密码哈希失败") | some hash ↦ ok hash ]

unfoldable pub verify_password : Outside → String → String → Result Bool AuthError
verify_password outside password hash = elim (outside.verify password hash) [
  | none ↦ err (internal "密码哈希格式无效")
  | some fits ↦ ok fits
]

abbrev pub lower_char : Char → Char
lower_char c =
    if leb 65 (code c) && leb (code c) 90
    then char_at "abcdefghijklmnopqrstuvwxyz" (code c - 65)
    else c

unfoldable pub to_ascii_lowercase : String → String
to_ascii_lowercase String.[] = String.[]
to_ascii_lowercase (String.◌∷◌ c s) = String.◌∷◌ (lower_char c) (to_ascii_lowercase s)

unfoldable pub normalize_username : String → Result String AuthError
unfolding to_ascii_lowercase trim char_count
normalize_username username =
    let username = to_ascii_lowercase (trim username) in
    if text_is_empty username
    then err (invalid_input "请输入用户名")
    else if ltb (char_count username) 3
    then err (invalid_input "用户名至少需要 3 个字符")
    else ok username

unfoldable pub normalize_api_token_source : String → Result String AuthError
unfolding trim char_count
normalize_api_token_source source =
    let source = trim source in
    if text_is_empty source
    then err (invalid_input "请输入 Token 来源")
    else if ltb 80 (char_count source)
    then err (invalid_input "Token 来源不能超过 80 个字符")
    else ok source

unfoldable pub token_prefix : String → String
unfolding take_chars
token_prefix token = take_chars 10 token

unfoldable pub account_status_name : AccountStatus → String
account_status_name AccountStatus.active = "启用"
account_status_name AccountStatus.disabled = "禁用"
account_status_name AccountStatus.locked = "锁定"

-- The texts of the status column.
unfoldable pub account_status : String → Option AccountStatus
account_status status =
    if str_eq status "active"
    then some AccountStatus.active
    else if str_eq status "disabled"
    then some AccountStatus.disabled
    else if str_eq status "locked"
    then some AccountStatus.locked
    else none

abbrev pub is_active : AccountStatus → Bool
is_active AccountStatus.active = true
is_active _ = false

abbrev pub is_locked : AccountStatus → Bool
is_locked AccountStatus.locked = true
is_locked _ = false

unfoldable pub format_account_label : String → String → Message
unfolding trim
format_account_label username display_name =
    let display_name = trim display_name in
    if text_is_empty display_name || str_eq display_name username
    then lit username ∷ []
    else lit display_name ∷ lit " (" ∷ lit username ∷ lit ")" ∷ []

abbrev pub row_to_account : AccountRow → AuthAccount
row_to_account row = record {
  id = row.id;
  username = row.username;
  display_name = row.display_name;
  status = row.status;
  is_super_admin = row.is_super_admin;
}

abbrev pub timestamp_after : ℕ → Message
timestamp_after seconds = lit "+" ∷ num seconds ∷ lit "s" ∷ []

unfoldable pub display_name : CurrentSession → String
unfolding trim
display_name session =
    if text_is_empty (trim session.account.display_name)
    then session.account.username
    else session.account.display_name
