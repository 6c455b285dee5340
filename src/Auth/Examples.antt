-- ===== src/Auth/Examples.antt =====
-- The session store and the service on the accounts of Auth/Fixtures.
use easy_deploy.Auth.Accounts.{login}
use easy_deploy.Auth.ApiTokens.Bounds.{token_calls-AllWithin}
use easy_deploy.Auth.ApiTokens.Quotas.{
  Requests, TokenCall, creates, begins_request, ends_request, AllWithin, token_calls,
}
use easy_deploy.Auth.Fixtures.{outside, draws, auth, input}
use easy_deploy.Auth.History.{Operation, logs_in, logs_out, authenticates, perform, perform_all}
use easy_deploy.Auth.History.Agreement.{perform_all-IsSound}
use easy_deploy.Auth.History.Attempts.{AllOpen, perform_all-AllOpen}
use easy_deploy.Auth.History.Final.{ended_for_good}
use easy_deploy.Auth.History.Fresh.{login-authenticates}
use easy_deploy.Auth.History.Sound.{IsSound}
use easy_deploy.Auth.History.Standing.{stands, authenticate_access_token-stands}
use easy_deploy.Auth.Names.{hash_token}
use easy_deploy.Auth.Sessions.{authenticate_access_token}
use easy_deploy.Auth.Store.Calls.{
  Call, saves, reads_access, reads_refresh, deletes_id, calls, promised, all_promised,
  calls-all_promised,
}
use easy_deploy.Auth.Store.Distinct.{Apart}
use easy_deploy.Auth.Store.Refines.{store_of}
use easy_deploy.Auth.Types.{
  unauthorized, AccountStatus, AuthResult, CurrentSession, SessionSnapshot,
}
use easy_deploy.Prelude.{
  keep, find, none, some, List, [], ◌∷◌, true, false, ◌≡◌, refl, arith, eq_iff, ok, err, any, count,
}
use easy_deploy.Prelude.HashMap.{get, insert}

auth-IsSound : IsSound auth
auth-IsSound =
    ([], record { store = refl; distinct = tt; backed = tt; rows_known = tt; access_unique = tt })

abbrev session : CurrentSession
session = record {
  session_id = 1;
  account = record {
    id = 2;
    username = "viewer";
    display_name = "";
    status = AccountStatus.active;
    is_super_admin = false;
  };
  role_codes = [];
  permission_keys = [];
  is_super_admin = false;
  csrf_token = "third";
  access_token_hash = "6669727374";
}

abbrev result : AuthResult
result = record {
  session = session;
  tokens = record { access_token = "first"; refresh_token = "second" };
}

abbrev snapshot : SessionSnapshot
snapshot = record {
  session_id = 1;
  account = session.account;
  role_codes = [];
  permission_keys = [];
  is_super_admin = false;
  access_token_hash = "a";
  refresh_token_hash = "b";
  access_expires_at = [];
  refresh_expires_at = [];
  csrf_token = "c";
}

abbrev second : SessionSnapshot
second = record snapshot { session_id = 2; access_token_hash = "d"; refresh_token_hash = "e" }

snapshot-Apart : Apart second snapshot
snapshot-Apart = record {
  ids = λ e. ground arith;
  access = λ e. ground (arith, eq_iff "d" "a", e);
  refresh = λ e. ground (arith, eq_iff "e" "b", e);
}

abbrev store_calls : List Call
store_calls = saves second ∷ reads_access "a" ∷ deletes_id 1 ∷ reads_refresh "b" ∷ []

calls-all_promised_example :
    calls store_calls (store_of (snapshot ∷ []))
    ≡ (store_of (second ∷ []), none ∷ some snapshot ∷ none ∷ none ∷ [])
unfolding all_promised promised keep find
calls-all_promised_example =
    calls-all_promised store_calls (snapshot ∷ []) (tt, tt)
      ((snapshot-Apart, tt), (tt, (tt, (tt, tt))))

abbrev operations : List Operation
operations = logs_in draws 1000 input ∷ authenticates 2000 "first" ∷ []

perform_all-IsSound_example : IsSound (perform_all outside operations auth)
perform_all-IsSound_example = perform_all-IsSound outside operations auth auth-IsSound

perform_all-AllOpen_example : AllOpen (perform_all outside operations auth)
perform_all-AllOpen_example =
    perform_all-AllOpen outside operations auth (λ _. omega arith, (λ _. omega arith, tt))

login_test : (login outside draws 1000 input auth).1 ≡ ok result
unfolding login
login_test = refl

login-authenticates_example :
    authenticate_access_token outside 5000 "first" (login outside draws 1000 input auth).0
    ≡ ((login outside draws 1000 input auth).0, ok session)
login-authenticates_example =
    login-authenticates outside draws 1000 5000 input auth result auth-IsSound (omega arith)
      login_test

after_login-IsSound : IsSound (login outside draws 1000 input auth).0
unfolding perform_all perform
after_login-IsSound = perform_all-IsSound outside (logs_in draws 1000 input ∷ []) auth auth-IsSound

authenticated :
    (authenticate_access_token outside 5000 "first" (login outside draws 1000 input auth).0).1
    ≡ ok session
unfolding authenticate_access_token login get insert
authenticated = refl

authenticate_access_token-stands_example :
    any
      (stands 5000 (hash_token outside "first") session (login outside draws 1000 input auth).0.db)
      (login outside draws 1000 input auth).0.db.sessions
    ≡ true
authenticate_access_token-stands_example =
    authenticate_access_token-stands outside 5000 "first" (login outside draws 1000 input auth).0
      session after_login-IsSound authenticated

ended_for_good_example :
    (authenticate_access_token outside 7000 "first" (
      perform_all outside
        (logs_in draws 6500 input ∷ [])
        (perform outside (logs_out 6000 session) (login outside draws 1000 input auth).0))).1
    ≡ err (unauthorized "登录已过期，请重新登录")
ended_for_good_example =
    ended_for_good outside 5000 "first" session (logs_out 6000 session)
      (login outside draws 1000 input auth).0 after_login-IsSound authenticated refl
      (logs_in draws 6500 input ∷ []) 7000

abbrev token_calls_made : List TokenCall
token_calls_made =
    creates (some (1 ∷ [])) 1000 session "ci"
    ∷ begins_request none 2000 "first" "10.0.0.1"
    ∷ begins_request (some "disk I/O error") 2500 "first" "10.0.0.1"
    ∷ ends_request 3000 1
    ∷ []

abbrev at_rest : Requests
at_rest = record { auth = auth; permits = []; arrivals = [] }

at_rest-AllWithin : AllWithin at_rest
unfolding count
at_rest-AllWithin = record {
  within = tt;
  ordered = record {
    known = tt;
    permits_known = tt;
    arrivals_known = tt;
    unique = λ id. omega arith;
  };
}

token_calls-AllWithin_example : AllWithin (token_calls outside token_calls_made at_rest)
token_calls-AllWithin_example =
    token_calls-AllWithin outside token_calls_made at_rest at_rest-AllWithin
