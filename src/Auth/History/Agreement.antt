-- ===== src/Auth/History/Agreement.antt =====
-- Each change keeps the session store and the table of sessions in agreement
-- (api/src/auth/service.rs).
use easy_deploy.Prelude.{
  ℕ, String, some, List, [], ◌∷◌, ◌++◌, Bool, false, ◌+◌, ◌<◌, any, find, All, All-imp, All-append,
  ◌≡◌, refl, ap, sym, ◌∙◌, arith, eq_iff, inl, inr, ◌⊎◌,
}
use easy_deploy.Prelude.Table.{All-update_where}
use easy_deploy.Prelude.Searches.{All-keep, any_weaken, any_last}
use easy_deploy.Auth.Types.{AuthAccount, SessionSnapshot, SessionRow, AuthDb}
use easy_deploy.Auth.Store.{
  MemorySessionStore, of_account, save, delete_session, delete_session_by_id,
  delete_sessions_by_account, get_by_access_hash, get_by_refresh_hash,
}
use easy_deploy.Auth.Store.Distinct.{Apart, Distinct-keep, str_eq_self}
use easy_deploy.Auth.Store.Refines.{
  store_of, id_is, access_is, refresh_is, without, find-id, save-store_of,
  get_by_access_hash-store_of, get_by_refresh_hash-store_of, delete_session-store_of,
  delete_session_by_id-store_of, delete_sessions_by_account-store_of,
}
use easy_deploy.Auth.Names.{Outside}
use easy_deploy.Auth.Service.{AuthService, record_audit, with_store}
use easy_deploy.Auth.Sessions.{takes_hash, new_session, snapshot_of, revoke}
use easy_deploy.Auth.Accounts.{update_account}
use easy_deploy.Auth.Changes.{
  Change, audits, updates, revokes, issues, drops, drops_id, drops_account, issued, revoked_where,
  Changes-keep,
}
use easy_deploy.Auth.History.{Operation, perform_all, perform_all-Changes}
use easy_deploy.Auth.History.Sound.{
  has_access, has_refresh, BelongsTo, Backed, Agrees, IsSound, revoke-Backed, insert-Backed,
  revoke-AccessUnique, append-AccessUnique,
}

module _ (now : ℕ) (account : AuthAccount) (ip agent access refresh csrf : String)
    (db : AuthDb) where
  abbrev pub new_row : SessionRow
  new_row = new_session now db.next_session_id account.id access refresh ip agent

  abbrev pub inserted : AuthDb
  inserted = record db {
    sessions = db.sessions ++ new_row ∷ [];
    next_session_id = db.next_session_id + 1;
  }

  abbrev pub snapshot : SessionSnapshot
  snapshot = snapshot_of inserted account db.next_session_id access refresh csrf

  snapshot-Apart :
      any (takes_hash access refresh) db.sessions ≡ false
      → (s : SessionSnapshot) → Backed db.next_session_id db.sessions s
      → Apart snapshot s
  unfolding snapshot_of
  snapshot-Apart unused s b = record {
    ids = λ e. absurd (omega (arith, b.known, e));
    access = λ e.
        let taken =
          any_weaken (has_access s.access_token_hash) (takes_hash access refresh)
            (λ row h. ground (
              arith,
              eq_iff row.access_token_hash s.access_token_hash,
              eq_iff row.access_token_hash access,
            ))
            db.sessions b.access_taken in
        absurd (ground (arith, taken, unused));
    refresh = λ e.
        let taken =
          any_weaken (has_refresh s.refresh_token_hash) (takes_hash access refresh)
            (λ row h. ground (
              arith,
              eq_iff row.refresh_token_hash s.refresh_token_hash,
              eq_iff row.refresh_token_hash refresh,
            ))
            db.sessions b.refresh_taken in
        absurd (ground (arith, taken, unused));
  }

  snapshot-Backed :
      All (λ row. row.id < db.next_session_id) db.sessions
      → Backed inserted.next_session_id inserted.sessions snapshot
  unfolding snapshot_of new_session
  snapshot-Backed known = record {
    known = omega arith;
    own_row =
        any_last _ db.sessions new_row (ground (arith, str_eq_self access, str_eq_self refresh));
    agrees =
        All-append (BelongsTo snapshot) db.sessions (new_row ∷ [])
          (All-imp _ _ (λ row below same. absurd (omega (arith, below, same))) db.sessions known)
          ((λ _. refl), tt);
    access_taken = any_last _ db.sessions new_row (str_eq_self access);
    refresh_taken = any_last _ db.sessions new_row (str_eq_self refresh);
  }

-- A smaller store.
fewer :
    (auth : AuthService) (held : List SessionSnapshot) (p : SessionSnapshot → Bool)
    (store : MemorySessionStore)
    → Agrees auth held
    → store ≡ store_of (without p held)
    → IsSound (with_store auth store)
fewer auth held p store h e = (
  without p held,
  record {
    store = e;
    distinct = Distinct-keep _ held h.distinct;
    backed = All-keep _ _ held h.backed;
    rows_known = h.rows_known;
    access_unique = h.access_unique;
  },
)

found_in_store :
    (auth : AuthService) (held : List SessionSnapshot) (s : SessionSnapshot) (hash : String)
    → Agrees auth held
    → (get_by_access_hash hash auth.store ≡ some s) ⊎ (get_by_refresh_hash hash auth.store ≡ some s)
    → find (id_is s.session_id) held ≡ some s
found_in_store auth held s hash h (inl e) =
    find-id held (access_is hash) h.distinct s
      (sym (get_by_access_hash-store_of hash held h.distinct) ∙ (rw (← h.store) e))
found_in_store auth held s hash h (inr e) =
    find-id held (refresh_is hash) h.distinct s
      (sym (get_by_refresh_hash-store_of hash held h.distinct) ∙ (rw (← h.store) e))

revoke-Agrees :
    (p : SessionRow → Bool) (now : ℕ) (reason : String) (auth : AuthService)
    (held : List SessionSnapshot)
    → Agrees auth held
    → Agrees (revoked_where p now reason auth) held
unfolding revoked_where
revoke-Agrees p now reason auth held h = record {
  store = h.store;
  distinct = h.distinct;
  backed =
      All-imp _ _ (revoke-Backed p now reason auth.db.next_session_id auth.db.sessions) held
        h.backed;
  rows_known =
      All-update_where (λ row. row.id < auth.db.next_session_id)
        (λ row. row.id < auth.db.next_session_id) p (revoke now reason) (λ row _ k. k)
        (λ row _ k. k) auth.db.sessions h.rows_known;
  access_unique = revoke-AccessUnique p now reason auth.db.sessions h.access_unique;
}

pub issue-Agrees :
    (now : ℕ) (account : AuthAccount) (ip agent access refresh csrf : String) (auth : AuthService)
    (held : List SessionSnapshot)
    → any (takes_hash access refresh) auth.db.sessions ≡ false
    → Agrees auth held
    → Agrees
        (issued now account ip agent access refresh csrf auth)
        (snapshot now account ip agent access refresh csrf auth.db ∷ held)
unfolding issued new_session
issue-Agrees now account ip agent access refresh csrf auth held unused h =
    let s = snapshot now account ip agent access refresh csrf auth.db in
    let row = new_row now account ip agent access refresh csrf auth.db in
    let apart =
      All-imp _ _ (snapshot-Apart now account ip agent access refresh csrf auth.db unused) held
        h.backed in
    record {
      store = ap (save s) h.store ∙ save-store_of s held apart;
      distinct = (apart, h.distinct);
      backed = (
        snapshot-Backed now account ip agent access refresh csrf auth.db h.rows_known,
        All-imp _ _ (insert-Backed auth.db.next_session_id auth.db.sessions row refl) held h.backed,
      );
      rows_known =
          All-append _ auth.db.sessions (row ∷ [])
            (All-imp _ _ (λ r k. omega (arith, k)) auth.db.sessions h.rows_known) (omega arith, tt);
      access_unique = append-AccessUnique auth.db.sessions row unused h.access_unique;
    }

pub Change-IsSound :
    (before after : AuthService) → Change before after → IsSound before → IsSound after
unfolding record_audit update_account
Change-IsSound before after (audits audit) (held, h) = (
  held,
  record {
    store = h.store;
    distinct = h.distinct;
    backed = h.backed;
    rows_known = h.rows_known;
    access_unique = h.access_unique;
  },
)
Change-IsSound before after (updates change account_id ids attempts) (held, h) = (
  held,
  record {
    store = h.store;
    distinct = h.distinct;
    backed = h.backed;
    rows_known = h.rows_known;
    access_unique = h.access_unique;
  },
)
Change-IsSound before after (revokes p now reason) (held, h) =
    (held, revoke-Agrees p now reason before held h)
Change-IsSound before after (issues now account ip agent access refresh csrf unused) (held, h) = (
  snapshot now account ip agent access refresh csrf before.db ∷ held,
  issue-Agrees now account ip agent access refresh csrf before held unused h,
)
Change-IsSound before after (drops s hash e) (held, h) =
    fewer before held (id_is s.session_id) _ h (
      ap (delete_session s) h.store
      ∙ delete_session-store_of s held h.distinct (found_in_store before held s hash h e))
Change-IsSound before after (drops_id session_id) (held, h) =
    fewer before held (id_is session_id) _ h (
      ap (delete_session_by_id session_id) h.store
      ∙ delete_session_by_id-store_of session_id held h.distinct)
Change-IsSound before after (drops_account account_id) (held, h) =
    fewer before held (of_account account_id) _ h (
      ap (delete_sessions_by_account account_id) h.store
      ∙ delete_sessions_by_account-store_of account_id held h.distinct)

-- However logins, refreshes, logouts, checks, revocations and changes of accounts follow one another,
-- the session store holds sessions no two of which share an id or a hash, each with a row of its own
-- account that has its hashes, if it did so at first and the ids and access hashes of the rows were in
-- order.
pub perform_all-IsSound :
    (outside : Outside) (operations : List Operation) (auth : AuthService)
    → IsSound auth
    → IsSound (perform_all outside operations auth)
perform_all-IsSound outside operations auth =
    Changes-keep IsSound Change-IsSound (perform_all-Changes outside operations auth)
