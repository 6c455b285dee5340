-- ===== src/Auth/History.antt =====
-- The operations of the account service, one after another (api/src/auth/service.rs, the methods of
-- `AuthService` that write sessions or accounts).
pub mod Sound
pub mod Agreement
pub mod Standing
pub mod Dead
pub mod Ended
pub mod Final
pub mod Fresh
pub mod Attempts
use easy_deploy.Prelude.{ℕ, String, List, [], ◌∷◌}
use easy_deploy.Auth.Types.{CurrentSession, LoginInput}
use easy_deploy.Auth.Names.{Outside}
use easy_deploy.Auth.Service.{AuthService}
use easy_deploy.Auth.Sessions.{
  Draws, authenticate_access_token, refresh, logout, revoke_admin_session, revoke_sessions_by_role,
}
use easy_deploy.Auth.Accounts.{
  login, set_account_status, reset_account_password, change_own_password,
}
use easy_deploy.Auth.Changes.{Changes, done, Changes-append}
use easy_deploy.Auth.Changes.Operations.{
  login-Changes, authenticate_access_token-Changes, refresh-Changes, logout-Changes,
  revoke_admin_session-Changes, revoke_sessions_by_role-Changes, set_account_status-Changes,
  reset_account_password-Changes, change_own_password-Changes,
}

pub data Operation : Type 0 where
  logs_in : Draws → ℕ → LoginInput → Operation
  authenticates : ℕ → String → Operation
  refreshes : Draws → ℕ → String → Operation
  logs_out : ℕ → CurrentSession → Operation
  revokes_session : ℕ → CurrentSession → ℕ → Operation
  revokes_role : ℕ → String → ℕ → Operation
  sets_status : ℕ → CurrentSession → ℕ → String → Operation
  resets_password : ℕ → CurrentSession → ℕ → String → Operation
  changes_password : ℕ → CurrentSession → String → String → Operation

-- The state after an operation, whether it succeeds or not.
unfoldable pub perform : Outside → Operation → AuthService → AuthService
perform outside (logs_in draws now input) auth = (login outside draws now input auth).0
perform outside (authenticates now token) auth =
    (authenticate_access_token outside now token auth).0
perform outside (refreshes draws now token) auth = (refresh outside draws now token auth).0
perform outside (logs_out now session) auth = logout now session auth
perform outside (revokes_session now actor session_id) auth =
    (revoke_admin_session now actor session_id auth).0
perform outside (revokes_role now reason role_id) auth =
    revoke_sessions_by_role now reason role_id auth
perform outside (sets_status now actor account_id status) auth =
    (set_account_status now actor account_id status auth).0
perform outside (resets_password now actor account_id password) auth =
    (reset_account_password outside now actor account_id password auth).0
perform outside (changes_password now actor current next) auth =
    (change_own_password outside now actor current next auth).0

unfoldable pub perform_all : Outside → List Operation → AuthService → AuthService
unfolding perform
perform_all outside [] auth = auth
perform_all outside (operation ∷ operations) auth =
    perform_all outside operations (perform outside operation auth)

perform-Changes :
    (outside : Outside) (operation : Operation) (auth : AuthService)
    → Changes auth (perform outside operation auth)
unfolding perform
perform-Changes outside (logs_in draws now input) auth = login-Changes outside draws now input auth
perform-Changes outside (authenticates now token) auth =
    authenticate_access_token-Changes outside now token auth
perform-Changes outside (refreshes draws now token) auth =
    refresh-Changes outside draws now token auth
perform-Changes outside (logs_out now session) auth = logout-Changes now session auth
perform-Changes outside (revokes_session now actor session_id) auth =
    revoke_admin_session-Changes now actor session_id auth
perform-Changes outside (revokes_role now reason role_id) auth =
    revoke_sessions_by_role-Changes now reason role_id auth
perform-Changes outside (sets_status now actor account_id status) auth =
    set_account_status-Changes now actor account_id status auth
perform-Changes outside (resets_password now actor account_id password) auth =
    reset_account_password-Changes outside now actor account_id password auth
perform-Changes outside (changes_password now actor current new) auth =
    change_own_password-Changes outside now actor current new auth

pub perform_all-Changes :
    (outside : Outside) (operations : List Operation) (auth : AuthService)
    → Changes auth (perform_all outside operations auth)
unfolding perform_all
perform_all-Changes outside [] auth = done
perform_all-Changes outside (operation ∷ operations) auth =
    Changes-append (perform-Changes outside operation auth)
      (perform_all-Changes outside operations (perform outside operation auth))
