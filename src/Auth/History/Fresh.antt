-- ===== src/Auth/History/Fresh.antt =====
-- The token of a new session authenticates (api/src/auth/service.rs, `login`, `issue_session`,
-- `authenticate_access_token`).
use easy_deploy.Prelude.{
  ℕ, String, some, List, [], ◌∷◌, ◌++◌, Bool, true, false, ◌&&◌, ◌==◌, ◌+◌, ◌<◌, any, find, str_eq,
  ltb, ==_refl, ◌≡◌, refl, ap, subst, ◌∙◌, arith, Bool-cases, Option-cases, inl, inr, Result, ok,
}
use easy_deploy.Prelude.Text.{trim, text_is_empty}
use easy_deploy.Prelude.Searches.{any_last, any-count, any-update_where}
use easy_deploy.Auth.Types.{AuthAccount, SessionSnapshot, AccountRow, AuthResult, LoginInput}
use easy_deploy.Auth.Store.{get_by_access_hash, current_session}
use easy_deploy.Auth.Store.Distinct.{str_eq_self}
use easy_deploy.Auth.Store.Refines.{get_by_access_hash-store_of}
use easy_deploy.Auth.Names.{
  Outside, hash_token, is_active, generate_token, row_to_account, verify_password,
  normalize_username,
}
use easy_deploy.Auth.Service.{AuthService, account_id_is, record_audit}
use easy_deploy.Auth.Service.Steps.{pure-ok, guard-ok, bind-ok}
use easy_deploy.Auth.Sessions.{
  Draws, authenticate_access_token, issue_session, insert_session, new_session, snapshot_of,
  takes_hash, admits_access,
}
use easy_deploy.Auth.Accounts.{
  update_account, logged_in, accept_login, reject_password, login_as, login,
}
use easy_deploy.Auth.Changes.{issued}
use easy_deploy.Auth.History.Sound.{IsSound}
use easy_deploy.Auth.History.Agreement.{new_row, snapshot, issue-Agrees}

-- What a success of `issue_session` did.
pub record Issue (outside : Outside) (now : ℕ) (account : AuthAccount) (ip agent : String)
    (auth after : AuthService) (result : AuthResult) : Type 0 where
  pub refresh_hash : String
  pub csrf : String
  pub unused :
      any (takes_hash (hash_token outside result.tokens.access_token) refresh_hash) auth.db.sessions
      ≡ false
  pub state :
      after
      ≡ issued now account ip agent
          (hash_token outside result.tokens.access_token)
          refresh_hash
          csrf
          auth
  pub session :
      result.session
      ≡ current_session (
          snapshot now account ip agent
            (hash_token outside result.tokens.access_token)
            refresh_hash
            csrf
            auth.db)

ok_eq : {A E : Type 0} {x y : A} → ◌≡◌ {A = Result A E} (ok x) (ok y) → x ≡ y
ok_eq e = cc

issue_session-Issue :
    (outside : Outside) (draws : Draws) (now : ℕ) (account : AuthAccount) (ip agent : String)
    (auth : AuthService) (result : AuthResult)
    → (issue_session outside draws now account ip agent auth).1 ≡ ok result
    → Issue outside now account ip agent auth
        (issue_session outside draws now account ip agent auth).0
        result
unfolding issue_session insert_session issued
issue_session-Issue outside draws now account ip agent auth result e =
    let Done : AuthService → Type 0 =
      λ after. Issue outside now account ip agent auth after result in
    pure-ok Done auth (generate_token outside draws.access) _
      (λ access _. pure-ok Done auth (generate_token outside draws.refresh) _ (λ refresh _.
        pure-ok Done auth (generate_token outside draws.csrf) _ (λ csrf _ e₁.
          elim (Bool-cases (
            any (takes_hash (hash_token outside access) (hash_token outside refresh))
              auth.db.sessions)) [
                | inl taken ↦ absurd (ground (arith, rw taken at e₁))
                | inr unused ↦ rw unused (
                    subst
                      (Issue outside now account ip agent auth (
                        issued now account ip agent (hash_token outside access)
                          (hash_token outside refresh) csrf auth))
                      (ok_eq (rw unused at e₁))
                      (record {
                        refresh_hash = hash_token outside refresh;
                        csrf = csrf;
                        unused = unused;
                        state = refl;
                        session = refl;
                      }))
              ])))
      e

ltb-true : (a b : ℕ) → a < b → ltb a b ≡ true
ltb-true a b h = ground (arith, h)

-- A token of a session in the store whose row is admitted.
admitted-authenticates :
    (outside : Outside) (at : ℕ) (token : String) (auth : AuthService) (s : SessionSnapshot)
    → get_by_access_hash (hash_token outside token) auth.store ≡ some s
    → any (admits_access at s.session_id (hash_token outside token) auth.db) auth.db.sessions ≡ true
    → authenticate_access_token outside at token auth ≡ (auth, ok (current_session s))
unfolding authenticate_access_token
admitted-authenticates outside at token auth s e row =
    rw (authenticate_access_token, e, any-count _ auth.db.sessions row) refl

find-any {ℓ} :
    {A : Type ℓ} (p q : A → Bool) (xs : List A) {a : A}
    → find p xs ≡ some a
    → q a ≡ true
    → any q xs ≡ true
unfolding find any
find-any p q [] e h = cc
find-any p q (x ∷ xs) e h = elim (Bool-cases (p x)) [
  | inl y ↦ ground (arith, rw y at e, h)
  | inr n ↦ ground (arith, find-any p q xs (rw n at e) h)
]

abbrev is_active_as : ℕ → AccountRow → Bool
is_active_as account_id account = account.id == account_id && is_active account.status

-- A later state with the store and the sessions as they were issued.
Issue-authenticates :
    (outside : Outside) (now at : ℕ) (account : AuthAccount) (ip agent : String)
    (auth after final : AuthService) (result : AuthResult)
    → IsSound auth
    → Issue outside now account ip agent auth after result
    → final.store ≡ after.store
    → final.db.sessions ≡ after.db.sessions
    → any (is_active_as account.id) final.db.accounts ≡ true
    → at < now + 7200000
    → authenticate_access_token outside at result.tokens.access_token final
      ≡ (final, ok result.session)
unfolding issued new_session snapshot_of find current_session
Issue-authenticates outside now at account ip agent auth after final result (held, h) i store
      sessions active early =
    let hash = hash_token outside result.tokens.access_token in
    let s = snapshot now account ip agent hash i.refresh_hash i.csrf auth.db in
    let row = new_row now account ip agent hash i.refresh_hash i.csrf auth.db in
    let agrees =
      issue-Agrees now account ip agent hash i.refresh_hash i.csrf auth held i.unused h in
    let found : get_by_access_hash hash final.store ≡ some s =
      ap (get_by_access_hash hash) (store ∙ ap (λ a. a.store) i.state ∙ agrees.store)
      ∙ get_by_access_hash-store_of hash (s ∷ held) agrees.distinct
      ∙ (rw (str_eq_self hash) refl) in
    let admitted : any (admits_access at s.session_id hash final.db) (auth.db.sessions ++ row ∷ [])
        ≡ true =
      any_last _ auth.db.sessions row (
        rw (==_refl auth.db.next_session_id, active, str_eq_self hash, ltb-true at _ early) refl) in
    rw i.session (
      admitted-authenticates outside at result.tokens.access_token final s found
        (rw (sessions ∙ ap (λ a. a.db.sessions) i.state) admitted))

accept_login-authenticates :
    (outside : Outside) (draws : Draws) (now at : ℕ) (input : LoginInput) (account : AccountRow)
    (auth : AuthService) (result : AuthResult)
    → IsSound auth
    → any (is_active_as account.id) auth.db.accounts ≡ true
    → at < now + 7200000
    → (accept_login outside draws now input account auth).1 ≡ ok result
    → authenticate_access_token outside at result.tokens.access_token
        (accept_login outside draws now input account auth).0
      ≡ ((accept_login outside draws now input account auth).0, ok result.session)
unfolding accept_login update_account logged_in record_audit issued
accept_login-authenticates outside draws now at input account auth result sound active early e =
    let owner = row_to_account account in
    let issue = issue_session outside draws now owner input.client_ip input.user_agent auth in
    bind-ok
      (λ final.
        authenticate_access_token outside at result.tokens.access_token final
        ≡ (final, ok result.session))
      issue _
      (λ r succeeds e₁.
        let same : r ≡ result = ok_eq e₁ in
        let i =
          issue_session-Issue outside draws now owner input.client_ip input.user_agent auth result
            (succeeds ∙ ap ok same) in
        Issue-authenticates outside now at owner input.client_ip input.user_agent auth issue.0 _
          result sound i refl refl
          (any-update_where (is_active_as account.id) (account_id_is r.session.account.id)
              (logged_in now input.client_ip) (λ a. refl) issue.0.db.accounts
            ∙ (rw i.state active))
          early)
      e

-- If the store and the tables agree, a login that succeeds hands out an access token that
-- authenticates as the session of the login for the next two hours, as long as nothing else happens.
pub login-authenticates :
    (outside : Outside) (draws : Draws) (now at : ℕ) (input : LoginInput) (auth : AuthService)
    (result : AuthResult)
    → IsSound auth
    → at < now + 7200000
    → (login outside draws now input auth).1 ≡ ok result
    → authenticate_access_token outside at result.tokens.access_token
        (login outside draws now input auth).0
      ≡ ((login outside draws now input auth).0, ok result.session)
unfolding login login_as reject_password
login-authenticates outside draws now at input auth result sound early e =
    let Works : AuthService → Type 0 = λ final.
      authenticate_access_token outside at result.tokens.access_token final
      ≡ (final, ok result.session) in
    pure-ok Works auth (normalize_username input.username) _
      (λ username _. guard-ok Works auth (text_is_empty (trim input.password)) _ _ (λ e₁.
        elim (Option-cases (find (λ account. str_eq account.username username) auth.db.accounts)) [
          | inl f ↦ absurd (ground (arith, rw f at e₁))
          | inr (account, f) ↦ elim (Bool-cases (is_active account.status)) [
            | inl a ↦
                let active =
                  find-any _ (is_active_as account.id) auth.db.accounts f
                    (rw (==_refl account.id, a) refl) in
                rw (f, a)
                  (pure-ok Works auth (verify_password outside input.password account.password_hash)
                    _
                    (λ fits _ e₂. elim (Bool-cases fits) [
                      | inl y ↦ rw y (
                          accept_login-authenticates outside draws now at input account auth result
                            sound active early (rw y at e₂))
                      | inr n ↦ absurd (ground (arith, rw n at e₂))
                    ])
                    (rw (f, a) at e₁))
            | inr n ↦ absurd (ground (arith, rw (f, n) at e₁))
          ]
        ]))
      e
