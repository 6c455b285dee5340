-- ===== src/Auth/Store.antt =====
-- The session store in memory (api/src/auth/session_store.rs): the sessions by id, and two indices
-- from token hashes to ids. Each method takes its locks one after another; the calls follow one
-- another, as if each method were atomic.
pub mod Distinct
pub mod Refines
pub mod Calls
use easy_deploy.Prelude.{ℕ, String, Option, none, some, List, [], Bool, keep, ◌==◌, str_eq, map}
use easy_deploy.Prelude.HashMap.{get, insert, remove, remove_all}
use easy_deploy.Auth.Types.{SessionSnapshot, CurrentSession}

unfoldable pub current_session : SessionSnapshot → CurrentSession
current_session session = record {
  session_id = session.session_id;
  account = session.account;
  role_codes = session.role_codes;
  permission_keys = session.permission_keys;
  is_super_admin = session.is_super_admin;
  csrf_token = session.csrf_token;
  access_token_hash = session.access_token_hash;
}

pub record MemorySessionStore : Type 0 where
  pub access_index : List (String × ℕ)
  pub refresh_index : List (String × ℕ)
  pub sessions : List (ℕ × SessionSnapshot)

abbrev pub new : MemorySessionStore
new = record { access_index = []; refresh_index = []; sessions = [] }

abbrev pub same_id : ℕ → ℕ → Bool
same_id a b = a == b

unfoldable pub save : SessionSnapshot → MemorySessionStore → MemorySessionStore
save session store = record store {
  access_index = insert str_eq session.access_token_hash session.session_id store.access_index;
  refresh_index = insert str_eq session.refresh_token_hash session.session_id store.refresh_index;
  sessions = insert same_id session.session_id session store.sessions;
}

unfoldable pub get_by_access_hash : String → MemorySessionStore → Option SessionSnapshot
get_by_access_hash hash store = elim (get str_eq hash store.access_index) [
  | none ↦ none
  | some session_id ↦ get same_id session_id store.sessions
]

unfoldable pub get_by_refresh_hash : String → MemorySessionStore → Option SessionSnapshot
get_by_refresh_hash hash store = elim (get str_eq hash store.refresh_index) [
  | none ↦ none
  | some session_id ↦ get same_id session_id store.sessions
]

unfoldable pub delete_session : SessionSnapshot → MemorySessionStore → MemorySessionStore
delete_session session store = record {
  access_index = remove str_eq session.access_token_hash store.access_index;
  refresh_index = remove str_eq session.refresh_token_hash store.refresh_index;
  sessions = remove same_id session.session_id store.sessions;
}

unfoldable pub delete_session_by_id : ℕ → MemorySessionStore → MemorySessionStore
delete_session_by_id session_id store = elim (get same_id session_id store.sessions) [
  | none ↦ store
  | some session ↦ record {
    access_index = remove str_eq session.access_token_hash store.access_index;
    refresh_index = remove str_eq session.refresh_token_hash store.refresh_index;
    sessions = remove same_id session_id store.sessions;
  }
]

abbrev pub of_account : ℕ → SessionSnapshot → Bool
of_account account_id session = session.account.id == account_id

-- The sessions to remove are collected first, then each index is cleaned of their hashes.
unfoldable pub delete_sessions_by_account : ℕ → MemorySessionStore → MemorySessionStore
delete_sessions_by_account account_id store =
    let removed = keep (of_account account_id) (map (λ held. held.1) store.sessions) in
    record {
      access_index = remove_all str_eq (map (λ s. s.access_token_hash) removed) store.access_index;
      refresh_index =
          remove_all str_eq (map (λ s. s.refresh_token_hash) removed) store.refresh_index;
      sessions = remove_all same_id (map (λ s. s.session_id) removed) store.sessions;
    }
