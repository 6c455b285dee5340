-- ===== src/Auth/History/Sound.antt =====
-- The session store and the table of sessions agree, whatever the operations before
-- (api/src/auth/service.rs, api/src/auth/session_store.rs).
use easy_deploy.Prelude.{
  ℕ, String, List, [], ◌∷◌, ◌++◌, Bool, true, false, ◌+◌, ◌<◌, ◌==◌, ◌&&◌, any, All, All-append,
  str_eq, ◌≡◌, ◌≢◌, refl, ◌∙◌, arith, eq_iff, Bool-cases, inl, inr,
}
use easy_deploy.Prelude.Table.{update_where, All-update_where}
use easy_deploy.Prelude.Searches.{any-update_where, any_before}
use easy_deploy.Auth.Types.{SessionSnapshot, SessionRow}
use easy_deploy.Auth.Store.Distinct.{Distinct}
use easy_deploy.Auth.Store.Refines.{store_of}
use easy_deploy.Auth.Service.{AuthService}
use easy_deploy.Auth.Sessions.{takes_hash, revoke}

abbrev pub has_access : String → SessionRow → Bool
has_access hash row = str_eq row.access_token_hash hash

abbrev pub has_refresh : String → SessionRow → Bool
has_refresh hash row = str_eq row.refresh_token_hash hash

abbrev pub BelongsTo : SessionSnapshot → SessionRow → Type 0
BelongsTo s row = row.id ≡ s.session_id → row.account_id ≡ s.account.id

-- The session's row: its id, its account and both of its hashes.
abbrev pub is_row_of : SessionSnapshot → SessionRow → Bool
is_row_of s row =
    row.id == s.session_id
    && (row.account_id == s.account.id
        && (has_access s.access_token_hash row && has_refresh s.refresh_token_hash row))

-- A session that is held has a row of its account, with its hashes.
pub record Backed (next_id : ℕ) (rows : List SessionRow) (s : SessionSnapshot) : Type 0 where
  pub known : s.session_id < next_id
  pub own_row : any (is_row_of s) rows ≡ true
  pub agrees : All (BelongsTo s) rows
  pub access_taken : any (has_access s.access_token_hash) rows ≡ true
  pub refresh_taken : any (has_refresh s.refresh_token_hash) rows ≡ true

abbrev pub AccessUnique : List SessionRow → Type 0
AccessUnique [] = Unit
AccessUnique (row ∷ rows) =
    All (λ other. row.access_token_hash ≢ other.access_token_hash) rows × AccessUnique rows

pub record Agrees (auth : AuthService) (held : List SessionSnapshot) : Type 0 where
  pub store : auth.store ≡ store_of held
  pub distinct : Distinct held
  pub backed : All (Backed auth.db.next_session_id auth.db.sessions) held
  pub rows_known : All (λ row. row.id < auth.db.next_session_id) auth.db.sessions
  pub access_unique : AccessUnique auth.db.sessions

-- The store holds some sessions, none sharing an id or a hash, each with a row of its account.
abbrev pub IsSound : AuthService → Type 0
IsSound auth = (held : List SessionSnapshot) × Agrees auth held

pub revoke-AccessUnique :
    (p : SessionRow → Bool) (now : ℕ) (reason : String) (rows : List SessionRow)
    → AccessUnique rows
    → AccessUnique (update_where p (revoke now reason) rows)
unfolding update_where
revoke-AccessUnique p now reason [] u = tt
revoke-AccessUnique p now reason (row ∷ rows) u =
    let others =
      All-update_where (λ other. row.access_token_hash ≢ other.access_token_hash)
        (λ other. row.access_token_hash ≢ other.access_token_hash) p (revoke now reason)
        (λ other _ h. h) (λ other _ h. h) rows u.0 in
    let rest = revoke-AccessUnique p now reason rows u.1 in
    elim (Bool-cases (p row)) [ inl e ↦ rw e (others, rest) | inr e ↦ rw e (others, rest) ]

pub append-AccessUnique :
    (rows : List SessionRow) (new : SessionRow)
    → any (takes_hash new.access_token_hash new.refresh_token_hash) rows ≡ false
    → AccessUnique rows
    → AccessUnique (rows ++ new ∷ [])
unfolding any
append-AccessUnique [] new h u = (tt, tt)
append-AccessUnique (row ∷ rows) new h u = (
  All-append _ rows (new ∷ []) u.0
      (ground (arith, eq_iff row.access_token_hash new.access_token_hash), tt),
  append-AccessUnique rows new (ground arith) u.1,
)

pub revoke-Backed :
    (p : SessionRow → Bool) (now : ℕ) (reason : String) (next_id : ℕ) (rows : List SessionRow)
    (s : SessionSnapshot)
    → Backed next_id rows s
    → Backed next_id (update_where p (revoke now reason) rows) s
revoke-Backed p now reason next_id rows s b = record {
  known = b.known;
  own_row = any-update_where (is_row_of s) p (revoke now reason) (λ row. refl) rows ∙ b.own_row;
  agrees =
      All-update_where (BelongsTo s) (BelongsTo s) p (revoke now reason) (λ row _ h. h)
        (λ row _ h. h) rows b.agrees;
  access_taken =
      any-update_where (has_access s.access_token_hash) p (revoke now reason) (λ row. refl) rows
      ∙ b.access_taken;
  refresh_taken =
      any-update_where (has_refresh s.refresh_token_hash) p (revoke now reason) (λ row. refl) rows
      ∙ b.refresh_taken;
}

pub insert-Backed :
    (next_id : ℕ) (rows : List SessionRow) (new : SessionRow)
    → new.id ≡ next_id
    → (s : SessionSnapshot) → Backed next_id rows s
    → Backed (next_id + 1) (rows ++ new ∷ []) s
insert-Backed next_id rows new fresh s b = record {
  known = omega (arith, b.known);
  own_row = any_before _ rows (new ∷ []) b.own_row;
  agrees =
      All-append (BelongsTo s) rows (new ∷ []) b.agrees
        ((λ same. absurd (omega (arith, b.known, fresh, same))), tt);
  access_taken = any_before _ rows (new ∷ []) b.access_taken;
  refresh_taken = any_before _ rows (new ∷ []) b.refresh_taken;
}
