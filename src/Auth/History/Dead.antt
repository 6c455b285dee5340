-- ===== src/Auth/History/Dead.antt =====
-- A token whose row is revoked authenticates nothing, now or later (api/src/auth/service.rs).
use easy_deploy.Prelude.{
  ℕ, String, List, [], ◌∷◌, Bool, true, false, ◌&&◌, ◌==◌, any, count, All, All-imp, All-append,
  ◌≡◌, ◌≢◌, refl, ◌∙◌, arith, eq_iff, Bool-cases, Option-cases, inl, inr, err,
}
use easy_deploy.Prelude.Table.{All-update_where}
use easy_deploy.Prelude.Searches.{any-update_where, any_before, any_weaken, any_none, count-any}
use easy_deploy.Auth.Types.{CurrentSession, SessionRow, unauthorized}
use easy_deploy.Auth.Store.{get_by_access_hash}
use easy_deploy.Auth.Names.{Outside, hash_token}
use easy_deploy.Auth.Service.{AuthService, record_audit, session_id_is}
use easy_deploy.Auth.Sessions.{
  is_live, admits_access, authenticate_access_token, takes_hash, revoke, new_session,
}
use easy_deploy.Auth.Accounts.{update_account}
use easy_deploy.Auth.Changes.{
  Change, audits, updates, revokes, issues, drops, drops_id, drops_account, issued, revoked_where,
  Changes, Changes-keep,
}
use easy_deploy.Auth.History.Sound.{has_access, AccessUnique}

abbrev pub DeadRow : String → SessionRow → Type 0
DeadRow hash row = has_access hash row ≡ true → is_live row.session_status ≡ false

-- The hash has a row, and no row with it is live.
pub record IsDead (hash : String) (auth : AuthService) : Type 0 where
  pub known : any (has_access hash) auth.db.sessions ≡ true
  pub rows : All (DeadRow hash) auth.db.sessions

pub authenticate_dead :
    (outside : Outside) (now : ℕ) (token : String) (auth : AuthService)
    → IsDead (hash_token outside token) auth
    → (authenticate_access_token outside now token auth).1 ≡ err (unauthorized "登录已过期，请重新登录")
unfolding authenticate_access_token
authenticate_dead outside now token auth dead =
    let hash = hash_token outside token in
    elim (Option-cases (get_by_access_hash hash auth.store)) [
      | inl f ↦ rw (authenticate_access_token, f) refl
      | inr (s, f) ↦
          elim (Bool-cases
            (count (admits_access now s.session_id hash auth.db) auth.db.sessions == 0)) [
              | inl z ↦ rw (authenticate_access_token, f, z) refl
              | inr z ↦
                  let refused =
                    any_none (admits_access now s.session_id hash auth.db) auth.db.sessions
                      (All-imp _ _ (λ row h. ground (arith, h)) auth.db.sessions dead.rows) in
                  absurd (ground (arith, refused, count-any _ auth.db.sessions z))
            ]
    ]

update-IsDead :
    (hash : String) (p : SessionRow → Bool) (now : ℕ) (reason : String) (auth : AuthService)
    → IsDead hash auth
    → IsDead hash (revoked_where p now reason auth)
unfolding revoked_where
update-IsDead hash p now reason auth h = record {
  known =
      any-update_where (has_access hash) p (revoke now reason) (λ row. refl) auth.db.sessions
      ∙ h.known;
  rows =
      All-update_where (DeadRow hash) (DeadRow hash) p (revoke now reason) (λ row _ _ _. refl)
        (λ row _ k. k) auth.db.sessions h.rows;
}

issue-IsDead :
    (hash access refresh : String) (rows : List SessionRow) (new : SessionRow)
    → new.access_token_hash ≡ access
    → any (takes_hash access refresh) rows ≡ false
    → any (has_access hash) rows ≡ true
    → DeadRow hash new
unfolding any
issue-IsDead hash access refresh rows new own unused known same = absurd (
    ground (
      arith,
      eq_iff new.access_token_hash hash,
      unused,
      any_weaken (has_access hash) (takes_hash access refresh)
          (λ row h. ground (
            arith,
            eq_iff row.access_token_hash hash,
            eq_iff row.access_token_hash access,
            eq_iff new.access_token_hash hash,
            own,
          ))
          rows known,
    ))

Change-IsDead :
    (hash : String) (before after : AuthService)
    → Change before after
    → IsDead hash before
    → IsDead hash after
unfolding record_audit update_account issued new_session
Change-IsDead hash before after (audits audit) h = record { known = h.known; rows = h.rows }
Change-IsDead hash before after (updates change account_id ids attempts) h = record {
  known = h.known;
  rows = h.rows;
}
Change-IsDead hash before after (revokes p now reason) h = update-IsDead hash p now reason before h
Change-IsDead hash before after (issues now account ip agent access refresh csrf unused) h =
    let new = new_session now before.db.next_session_id account.id access refresh ip agent in
    record {
      known = any_before (has_access hash) before.db.sessions (new ∷ []) h.known;
      rows =
          All-append (DeadRow hash) before.db.sessions (new ∷ []) h.rows
            (issue-IsDead hash access refresh before.db.sessions new refl unused h.known, tt);
    }
Change-IsDead hash before after (drops s read found) h = record { known = h.known; rows = h.rows }
Change-IsDead hash before after (drops_id session_id) h = record { known = h.known; rows = h.rows }
Change-IsDead hash before after (drops_account account_id) h = record {
  known = h.known;
  rows = h.rows;
}

pub Changes-IsDead :
    (hash : String) {before after : AuthService}
    → Changes before after
    → IsDead hash before
    → IsDead hash after
Changes-IsDead hash = Changes-keep (IsDead hash) (Change-IsDead hash)

other_fails :
    (hash : String) (q : SessionRow → Bool)
    → ((row : SessionRow) → q row ≡ true → has_access hash row ≡ true)
    → (row other : SessionRow) → has_access hash row ≡ true
    → row.access_token_hash ≢ other.access_token_hash
    → q other ≡ false
other_fails hash q owns row other same apart = elim (Bool-cases (q other)) [
  | inl y ↦ absurd (
      ground (
        arith,
        apart,
        same,
        owns other y,
        eq_iff row.access_token_hash hash,
        eq_iff other.access_token_hash hash,
      ))
  | inr n ↦ n
]

-- Of rows with distinct access hashes, one that has a property under a hash is the only one with it.
unique_has :
    (hash : String) (q : SessionRow → Bool)
    → ((row : SessionRow) → q row ≡ true → has_access hash row ≡ true)
    → (rows : List SessionRow) → AccessUnique rows
    → any q rows ≡ true
    → All (λ row. has_access hash row ≡ true → q row ≡ true) rows
unfolding any
unique_has hash q owns [] u e = tt
unique_has hash q owns (row ∷ rows) u e = elim (Bool-cases (q row)) [
  | inl y ↦ (
    λ _. y,
    All-imp _ _
        (λ other apart same. absurd (
          ground (
            arith,
            apart,
            same,
            owns row y,
            eq_iff row.access_token_hash hash,
            eq_iff other.access_token_hash hash,
          )))
        rows u.0,
  )
  | inr n ↦
      let later = rw n at e in
      (
        λ same. absurd (
            ground (
              arith,
              later,
              any_none q rows (
                  All-imp _ _ (λ other apart. other_fails hash q owns row other same apart) rows
                    u.0),
            )),
        unique_has hash q owns rows u.1 later,
      )
]

-- The live row of a session, under a hash.
abbrev pub pinned : String → CurrentSession → SessionRow → Bool
pinned hash c row =
    session_id_is c.session_id row
    && (row.account_id == c.account.id && (is_live row.session_status && has_access hash row))

-- Revoking the live row of a session.
pub revoke-IsDead :
    (now : ℕ) (hash reason : String) (c : CurrentSession) (p : SessionRow → Bool)
    (auth : AuthService)
    → ((row : SessionRow) → pinned hash c row ≡ true → p row ≡ true)
    → AccessUnique auth.db.sessions
    → any (pinned hash c) auth.db.sessions ≡ true
    → IsDead hash (revoked_where p now reason auth)
unfolding revoked_where
revoke-IsDead now hash reason c p auth hits unique e =
    let owns =
      unique_has hash (pinned hash c) (λ row h. ground (arith, h)) auth.db.sessions unique e in
    record {
      known =
          any-update_where (has_access hash) p (revoke now reason) (λ row. refl) auth.db.sessions
          ∙ any_weaken _ (has_access hash) (λ row h. ground (arith, h)) auth.db.sessions e;
      rows =
          All-update_where (λ row. has_access hash row ≡ true → pinned hash c row ≡ true)
            (DeadRow hash) p (revoke now reason) (λ row _ _ _. refl)
            (λ row missed own same. absurd (ground (arith, missed, hits row (own same))))
            auth.db.sessions owns;
    }
