-- ===== src/Auth/ApiTokens/Bounds.antt =====
-- No token is used beyond its quota (api/src/auth/service.rs, `authenticate_api_token`).
use easy_deploy.Prelude.{
  ℕ, String, Option, List, [], ◌∷◌, true, ◌==◌, any, find, count, contains, str_eq, ◌≡◌, refl,
  arith, Bool-cases, Option-cases, inl, inr, ok_or,
}
use easy_deploy.Prelude.Table.{All-update_where}
use easy_deploy.Prelude.Searches.{All-keep}
use easy_deploy.Auth.Types.{unauthorized, internal, CurrentSession}
use easy_deploy.Auth.Names.{
  Outside, hash_token, generate_token, normalize_api_token_source, token_prefix,
}
use easy_deploy.Auth.Service.{AuthService, Outcome, record_audit}
use easy_deploy.Auth.Service.Steps.{pure-keep, pure-holds}
use easy_deploy.Auth.ApiTokens.Permits.{give_back, All-give_back, count-keep_le}
use easy_deploy.Auth.ApiTokens.{
  ApiTokenAuthSession, token_session, token_id_is, create_api_token, is_usable_token,
  is_revoked_token, revoke_token, revoke_api_token, delete_revoked_api_token, has_quota,
  select_token, authenticate_api_token, release, drop_permit,
}
use easy_deploy.Auth.ApiTokens.Rates.{Arrival}
use easy_deploy.Auth.ApiTokens.Quotas.{
  Keeps, Requests, Old, AllWithin, TokenCall, creates, revokes_token, deletes_token, begins_request,
  ends_request, granted, token_call, token_calls, release-IsWithin, give_back-IsWithin,
}
use easy_deploy.Prelude.{not}
use easy_deploy.Auth.ApiTokens.Charges.{
  Bounded, updated-Bounded, inserted-Bounded, same_tables, ok_or-some, select_token-known,
  charged-Bounded,
}

create-AllWithin :
    (outside : Outside) (drawn : Option (List ℕ)) (now : ℕ) (actor : CurrentSession)
    (source : String) (auth : AuthService) (permits : List ℕ) (arrivals : List Arrival)
    → Bounded permits arrivals auth
    → Bounded permits arrivals (create_api_token outside drawn now actor source auth).0
unfolding create_api_token record_audit
create-AllWithin outside drawn now actor source auth permits arrivals b =
    pure-keep (Bounded permits arrivals) auth (normalize_api_token_source source) _ b (λ source.
      pure-keep (Bounded permits arrivals) auth (generate_token outside drawn) _ b (λ token.
        elim (Bool-cases
          (any (λ row. str_eq row.token_hash (hash_token outside token)) auth.db.api_tokens)) [
            | inl e ↦ rw e b
            | inr e ↦
                let i =
                  inserted-Bounded now actor.account.id (hash_token outside token)
                    (token_prefix token) source auth permits arrivals b in
                rw e (record {
                  within = i.within;
                  ordered = same_tables _ _ permits arrivals refl refl i.ordered;
                })
          ]))

revoke-AllWithin :
    (now : ℕ) (actor : CurrentSession) (token_id : ℕ) (auth : AuthService) (permits : List ℕ)
    (arrivals : List Arrival)
    → Bounded permits arrivals auth
    → Bounded permits arrivals (revoke_api_token now actor token_id auth).0
unfolding revoke_api_token record_audit revoke_token
revoke-AllWithin now actor token_id auth permits arrivals b =
    elim (Option-cases (find (is_usable_token token_id) auth.db.api_tokens)) [
      | inl e ↦ rw (revoke_api_token, e) b
      | inr (token, e) ↦
          let u =
            updated-Bounded (is_usable_token token_id) (revoke_token now) auth permits permits
              arrivals arrivals (λ t. refl) b
              (All-update_where (Keeps permits arrivals) (Keeps permits arrivals)
                (is_usable_token token_id) (revoke_token now)
                (λ t _ h. (
                  record { requests = h.0.requests; concurrent = h.0.concurrent },
                  record {
                    timely = h.1.timely;
                    counted = h.1.counted;
                    limit = h.1.limit;
                    rate = h.1.rate;
                  },
                ))
                (λ t _ h. h) auth.db.api_tokens b.within)
              b.ordered.permits_known b.ordered.arrivals_known in
          rw (revoke_api_token, e)
            (record {
              within = u.within;
              ordered = same_tables _ _ permits arrivals refl refl u.ordered;
            })
    ]

delete-AllWithin :
    (actor : CurrentSession) (token_id : ℕ) (auth : AuthService) (permits : List ℕ)
    (arrivals : List Arrival)
    → Bounded permits arrivals auth
    → Bounded permits arrivals (delete_revoked_api_token actor token_id auth).0
unfolding delete_revoked_api_token record_audit
delete-AllWithin actor token_id auth permits arrivals b =
    elim (Option-cases (find (is_revoked_token token_id) auth.db.api_tokens)) [
      | inl e ↦ rw (delete_revoked_api_token, e) b
      | inr (token, e) ↦
          rw (delete_revoked_api_token, e)
            (record {
              within =
                  All-keep (Keeps permits arrivals) (λ row. not (is_revoked_token token_id row))
                    auth.db.api_tokens b.within;
              ordered = record {
                known =
                    All-keep (Old auth.db.next_token_id)
                      (λ row. not (is_revoked_token token_id row)) auth.db.api_tokens
                      b.ordered.known;
                permits_known = b.ordered.permits_known;
                arrivals_known = b.ordered.arrivals_known;
                unique = λ id.
                    let fewer =
                      count-keep_le (token_id_is id) (λ row. not (is_revoked_token token_id row))
                        auth.db.api_tokens in
                    omega (arith, fewer, b.ordered.unique id);
              };
            })
    ]

end-AllWithin :
    (now token_id : ℕ) (auth : AuthService) (permits : List ℕ) (arrivals : List Arrival)
    → contains token_id permits ≡ true
    → Bounded permits arrivals auth
    → Bounded (give_back token_id permits) arrivals (drop_permit now token_id auth)
unfolding drop_permit release
end-AllWithin now token_id auth permits arrivals held b =
    updated-Bounded (token_id_is token_id) (release now) auth permits (give_back token_id permits)
      arrivals arrivals (λ t. refl) b
      (All-update_where (Keeps permits arrivals) (Keeps (give_back token_id permits) arrivals)
        (token_id_is token_id) (release now)
        (λ t own h. (
          release-IsWithin now token_id permits t held own h.0,
          record { timely = h.1.timely; counted = h.1.counted; limit = h.1.limit; rate = h.1.rate },
        ))
        (λ t _ h. (give_back-IsWithin token_id permits t h.0, h.1)) auth.db.api_tokens b.within)
      (All-give_back _ token_id permits b.ordered.permits_known) b.ordered.arrivals_known

begin-AllWithin :
    (outside : Outside) (lost : Option String) (now : ℕ) (token ip : String) (auth : AuthService)
    (permits : List ℕ) (arrivals : List Arrival)
    → Bounded permits arrivals auth
    → AllWithin
        (granted now (authenticate_api_token outside lost now token ip auth) permits arrivals)
unfolding authenticate_api_token token_session
begin-AllWithin outside lost now token ip auth permits arrivals b =
    let H = λ (r : Outcome ApiTokenAuthSession). AllWithin (granted now r permits arrivals) in
    pure-holds H auth
      (ok_or (select_token now (hash_token outside token) auth.db)
        (unauthorized "API Token 无效或已吊销"))
      _ (λ _. b)
      (λ (row, account) selected.
        let known =
          select_token-known now (hash_token outside token) auth.db row account
            (ok_or-some _ _ _ selected) b.ordered.known in
        pure-holds H auth
          (ok_or (outside.ids_of_json row.app_scope_json) (internal "API Token 应用范围配置损坏")) _
          (λ _. b)
          (λ apps _.
            pure-holds H auth
              (ok_or (outside.ids_of_json row.unit_scope_json) (internal "API Token 部署单元范围配置损坏")) _
              (λ _. b)
              (λ units _. elim (Bool-cases (count (has_quota now row.id) auth.db.api_tokens == 1)) [
                | inl e ↦
                    let charged = charged-Bounded now row.id ip auth permits arrivals e known b in
                    elim (Option-cases lost) [
                      | inl answered ↦ rw (e, answered) charged.1
                      | inr (text, failed) ↦ rw (e, failed) charged.0
                    ]
                | inr e ↦ rw e b
              ])))

token_call-AllWithin :
    (outside : Outside) (call : TokenCall) (requests : Requests)
    → AllWithin requests
    → AllWithin (token_call outside call requests)
unfolding token_call
token_call-AllWithin outside (creates drawn now actor source) requests b =
    create-AllWithin outside drawn now actor source requests.auth requests.permits requests.arrivals
      b
token_call-AllWithin outside (revokes_token now actor token_id) requests b =
    revoke-AllWithin now actor token_id requests.auth requests.permits requests.arrivals b
token_call-AllWithin outside (deletes_token actor token_id) requests b =
    delete-AllWithin actor token_id requests.auth requests.permits requests.arrivals b
token_call-AllWithin outside (begins_request lost now token ip) requests b =
    begin-AllWithin outside lost now token ip requests.auth requests.permits requests.arrivals b
token_call-AllWithin outside (ends_request now token_id) requests b =
    elim (Bool-cases (contains token_id requests.permits)) [
      | inl e ↦
          rw e (end-AllWithin now token_id requests.auth requests.permits requests.arrivals e b)
      | inr e ↦ rw e b
    ]

-- However tokens are created, revoked and deleted, and requests begin and end, each token's counter
-- covers the requests that it has open and stays within the number that it may have at once, and no
-- more requests were let in since its window began than its rate allows, if this is so at first, each
-- rate allows at least one, and the ids of the tokens are in order. A request that is let in is open
-- until it ends.
pub token_calls-AllWithin :
    (outside : Outside) (calls : List TokenCall) (requests : Requests)
    → AllWithin requests
    → AllWithin (token_calls outside calls requests)
unfolding token_calls
token_calls-AllWithin outside [] requests b = b
token_calls-AllWithin outside (call ∷ calls) requests b =
    token_calls-AllWithin outside calls (token_call outside call requests)
      (token_call-AllWithin outside call requests b)
