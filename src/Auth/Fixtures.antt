-- ===== src/Auth/Fixtures.antt =====
-- Two accounts and the packages of a small service.
use Prim.Native.Char.{code}
use easy_deploy.Prelude.{
  ℕ, String, none, some, List, [], ◌∷◌, Bool, true, false, str_eq, if◌then◌else◌, ◌==◌,
}
use easy_deploy.Auth.Types.{AccountStatus, AccountRow, LoginInput}
use easy_deploy.Auth.Store.{new}
use easy_deploy.Auth.Names.{Outside}
use easy_deploy.Auth.Service.{AuthService}
use easy_deploy.Auth.Sessions.{Draws}

abbrev pub bytes : String → List ℕ
bytes String.[] = []
bytes (String.◌∷◌ c s) = code c ∷ bytes s

-- A name for each of a few draws.
abbrev pub token_text : List ℕ → String
token_text [] = "none"
token_text (n ∷ _) = if n == 1 then "first" else if n == 2 then "second" else "third"

abbrev pub outside : Outside
outside = record {
  sha256 = bytes;
  base64 = token_text;
  hash = λ password. some password;
  verify = λ password hash. some (str_eq password hash);
  ids_of_json = λ _. some (7 ∷ []);
  unique_violation = "UNIQUE constraint failed";
  row_not_found = "no rows returned";
}

abbrev pub draws : Draws
draws = record { access = some (1 ∷ []); refresh = some (2 ∷ []); csrf = some (3 ∷ []) }

abbrev pub account : ℕ → String → Bool → AccountRow
account id username is_super_admin = record {
  id = id;
  username = username;
  password_hash = "password";
  display_name = "";
  status = AccountStatus.active;
  is_super_admin = is_super_admin;
  failed_login_attempts = 0;
  locked_at = none;
  locked_reason = "";
  last_login_at = none;
  last_login_ip = "";
  password_changed_at = 0;
  updated_at = 0;
}

abbrev pub auth : AuthService
auth = record {
  db = record {
    accounts = account 1 "admin" true ∷ account 2 "viewer" false ∷ [];
    roles = [];
    permissions = [];
    account_roles = [];
    role_permissions = [];
    sessions = [];
    api_tokens = [];
    audits = [];
    next_session_id = 1;
    next_token_id = 1;
  };
  store = new;
}

abbrev pub input : LoginInput
input = record {
  username = " Viewer ";
  password = "password";
  display_name = none;
  client_ip = "10.0.0.1";
  user_agent = "test";
}
