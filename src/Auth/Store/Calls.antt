-- ===== src/Auth/Store/Calls.antt =====
-- Sequences of calls of the session store, and of the list of sessions that it stands for
-- (api/src/auth/session_store.rs, the trait `SessionStore`).
use easy_deploy.Prelude.{ℕ, String, Option, none, some, List, [], ◌∷◌, All, find, ◌≡◌, refl}
use easy_deploy.Auth.Types.{SessionSnapshot}
use easy_deploy.Auth.Store.{
  MemorySessionStore, of_account, save, get_by_access_hash, get_by_refresh_hash, delete_session,
  delete_session_by_id, delete_sessions_by_account,
}
use easy_deploy.Auth.Store.Distinct.{Apart, Distinct, Distinct-keep}
use easy_deploy.Auth.Store.Refines.{
  store_of, id_is, access_is, refresh_is, without, save-store_of, get_by_access_hash-store_of,
  get_by_refresh_hash-store_of, delete_session-store_of, delete_session_by_id-store_of,
  delete_sessions_by_account-store_of,
}

pub data Call : Type 0 where
  saves : SessionSnapshot → Call
  reads_access reads_refresh : String → Call
  deletes : SessionSnapshot → Call
  deletes_id deletes_account : ℕ → Call

-- The store after a call, and the answer of a read.
unfoldable pub call : Call → MemorySessionStore → MemorySessionStore × Option SessionSnapshot
call (saves s) store = (save s store, none)
call (reads_access hash) store = (store, get_by_access_hash hash store)
call (reads_refresh hash) store = (store, get_by_refresh_hash hash store)
call (deletes s) store = (delete_session s store, none)
call (deletes_id session_id) store = (delete_session_by_id session_id store, none)
call (deletes_account account_id) store = (delete_sessions_by_account account_id store, none)

unfoldable pub calls :
    List Call → MemorySessionStore → MemorySessionStore × List (Option SessionSnapshot)
unfolding call
calls [] store = (store, [])
calls (c ∷ cs) store =
    let (store', answer) = call c store in
    let (last, answers) = calls cs store' in (last, answer ∷ answers)

-- The same calls on a list of sessions.
unfoldable pub promised :
    Call → List SessionSnapshot → List SessionSnapshot × Option SessionSnapshot
promised (saves s) held = (s ∷ held, none)
promised (reads_access hash) held = (held, find (access_is hash) held)
promised (reads_refresh hash) held = (held, find (refresh_is hash) held)
promised (deletes s) held = (without (id_is s.session_id) held, none)
promised (deletes_id session_id) held = (without (id_is session_id) held, none)
promised (deletes_account account_id) held = (without (of_account account_id) held, none)

unfoldable pub all_promised :
    List Call → List SessionSnapshot → List SessionSnapshot × List (Option SessionSnapshot)
unfolding promised
all_promised [] held = (held, [])
all_promised (c ∷ cs) held =
    let (held', answer) = promised c held in
    let (last, answers) = all_promised cs held' in (last, answer ∷ answers)

-- What the caller owes: a session that is saved is new, and one that is deleted is held.
abbrev pub Owed : Call → List SessionSnapshot → Type 0
Owed (saves s) held = All (Apart s) held
Owed (deletes s) held = find (id_is s.session_id) held ≡ some s
Owed _ held = Unit

abbrev pub AllOwed : List Call → List SessionSnapshot → Type 0
AllOwed [] held = Unit
AllOwed (c ∷ cs) held = Owed c held × AllOwed cs (promised c held).0

promised-Distinct :
    (c : Call) (held : List SessionSnapshot)
    → Distinct held
    → Owed c held
    → Distinct (promised c held).0
unfolding promised
promised-Distinct (saves s) held d h = (h, d)
promised-Distinct (reads_access hash) held d h = d
promised-Distinct (reads_refresh hash) held d h = d
promised-Distinct (deletes s) held d h = Distinct-keep _ held d
promised-Distinct (deletes_id session_id) held d h = Distinct-keep _ held d
promised-Distinct (deletes_account account_id) held d h = Distinct-keep _ held d

call-promised :
    (c : Call) (held : List SessionSnapshot)
    → Distinct held
    → Owed c held
    → call c (store_of held) ≡ (store_of (promised c held).0, (promised c held).1)
unfolding call promised
call-promised (saves s) held d h = rw (save-store_of s held h) refl
call-promised (reads_access hash) held d h = rw (get_by_access_hash-store_of hash held d) refl
call-promised (reads_refresh hash) held d h = rw (get_by_refresh_hash-store_of hash held d) refl
call-promised (deletes s) held d h = rw (delete_session-store_of s held d h) refl
call-promised (deletes_id session_id) held d h =
    rw (delete_session_by_id-store_of session_id held d) refl
call-promised (deletes_account account_id) held d h =
    rw (delete_sessions_by_account-store_of account_id held d) refl

-- Under any sequence of calls in which each session that is saved shares neither its id nor a token
-- hash with one that is held, and each session that is deleted by value is held, the store answers
-- every read as a list of the sessions would, and ends as the store of that list.
pub calls-all_promised :
    (cs : List Call) (held : List SessionSnapshot)
    → Distinct held
    → AllOwed cs held
    → calls cs (store_of held) ≡ (store_of (all_promised cs held).0, (all_promised cs held).1)
unfolding calls all_promised
calls-all_promised [] held d h = refl
calls-all_promised (c ∷ cs) held d h =
    let rest = calls-all_promised cs (promised c held).0 (promised-Distinct c held d h.0) h.1 in
    rw (call-promised c held d h.0, rest) refl
