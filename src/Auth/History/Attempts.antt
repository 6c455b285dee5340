-- ===== src/Auth/History/Attempts.antt =====
-- Failed logins lock an account in time (api/src/auth/service.rs, `MAX_FAILED_LOGIN_ATTEMPTS`).
use easy_deploy.Prelude.{List, All}
use easy_deploy.Prelude.Table.{All-update_where}
use easy_deploy.Auth.Names.{Outside}
use easy_deploy.Auth.Service.{AuthService, record_audit, account_id_is}
use easy_deploy.Auth.Accounts.{update_account}
use easy_deploy.Auth.Changes.{
  IsOpen, Change, audits, updates, revokes, issues, drops, drops_id, drops_account, issued,
  revoked_where, Changes-keep,
}
use easy_deploy.Auth.History.{Operation, perform_all, perform_all-Changes}

abbrev pub AllOpen : AuthService → Type 0
AllOpen auth = All IsOpen auth.db.accounts

Change-AllOpen : (before after : AuthService) → Change before after → AllOpen before → AllOpen after
unfolding record_audit update_account revoked_where issued
Change-AllOpen before after (audits audit) h = h
Change-AllOpen before after (updates change account_id ids attempts) h =
    All-update_where IsOpen IsOpen (account_id_is account_id) change (λ a _ k. attempts a k)
      (λ a _ k. k) before.db.accounts h
Change-AllOpen before after (revokes p now reason) h = h
Change-AllOpen before after (issues now account ip agent access refresh csrf unused) h = h
Change-AllOpen before after (drops s hash found) h = h
Change-AllOpen before after (drops_id session_id) h = h
Change-AllOpen before after (drops_account account_id) h = h

-- However logins, refreshes, logouts, checks, revocations and changes of accounts follow one another,
-- every active account has fewer than five failed logins on record, if this is so at first.
pub perform_all-AllOpen :
    (outside : Outside) (operations : List Operation) (auth : AuthService)
    → AllOpen auth
    → AllOpen (perform_all outside operations auth)
perform_all-AllOpen outside operations auth =
    Changes-keep AllOpen Change-AllOpen (perform_all-Changes outside operations auth)
