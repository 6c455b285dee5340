-- ===== src/Auth/ApiTokens/Quotas.antt =====
-- The open requests and the quotas of tokens, row by row (api/src/auth/service.rs).
use easy_deploy.Prelude.{
  ℕ, String, Option, List, [], ◌∷◌, Bool, true, false, ◌≤◌, ◌<◌, ◌==◌, count, contains, All, ◌≡◌,
  refl, arith, ok, err, if◌then◌else◌,
}
use easy_deploy.Prelude.Table.{update_where, All-update_where, count-update_where}
use easy_deploy.Auth.Types.{CurrentSession, ApiTokenRow}
use easy_deploy.Auth.Names.{Outside}
use easy_deploy.Auth.Service.{AuthService, Outcome}
use easy_deploy.Auth.ApiTokens.Permits.{
  open_requests, give_back, give_back-open_requests, give_back-count,
}
use easy_deploy.Auth.ApiTokens.Rates.{Arrival, IsCounted}
use easy_deploy.Auth.ApiTokens.{
  ApiTokenAuthSession, new_token, token_id_is, create_api_token, revoke_api_token,
  delete_revoked_api_token, has_quota, use_token, authenticate_api_token, release, drop_permit,
}

-- The service, the tokens of the requests that are open, one entry for each request, and all requests
-- that were let in.
pub record Requests : Type 0 where
  pub auth : AuthService
  pub permits : List ℕ
  pub arrivals : List Arrival

-- The counter of a token covers its open requests, and stays within the limit.
pub record IsWithin (permits : List ℕ) (token : ApiTokenRow) : Type 0 where
  pub requests : open_requests token.id permits ≤ token.active_request_count
  pub concurrent : token.active_request_count ≤ token.max_concurrent_requests

abbrev pub Keeps : List ℕ → List Arrival → ApiTokenRow → Type 0
Keeps permits arrivals token = IsWithin permits token × IsCounted arrivals token

abbrev pub Old : ℕ → ApiTokenRow → Type 0
Old next token = token.id < next

-- The ids of tokens were handed out in order and each once.
pub record IsOrdered (requests : Requests) : Type 0 where
  pub known : All (λ t. t.id < requests.auth.db.next_token_id) requests.auth.db.api_tokens
  pub permits_known : All (λ id. id < requests.auth.db.next_token_id) requests.permits
  pub arrivals_known : All (λ a. a.token_id < requests.auth.db.next_token_id) requests.arrivals
  pub unique : (id : ℕ) → count (token_id_is id) requests.auth.db.api_tokens ≤ 1

pub record AllWithin (requests : Requests) : Type 0 where
  pub within : All (Keeps requests.permits requests.arrivals) requests.auth.db.api_tokens
  pub ordered : IsOrdered requests

pub data TokenCall : Type 0 where
  creates : Option (List ℕ) → ℕ → CurrentSession → String → TokenCall
  revokes_token : ℕ → CurrentSession → ℕ → TokenCall
  deletes_token : CurrentSession → ℕ → TokenCall
  begins_request : Option String → ℕ → String → String → TokenCall
  ends_request : ℕ → ℕ → TokenCall

-- A request that is let in holds a permit.
abbrev pub granted : ℕ → Outcome ApiTokenAuthSession → List ℕ → List Arrival → Requests
granted now (auth, ok session) permits arrivals = record {
  auth = auth;
  permits = session.token_id ∷ permits;
  arrivals = record { token_id = session.token_id; at = now } ∷ arrivals;
}
granted now (auth, err _) permits arrivals = record {
  auth = auth;
  permits = permits;
  arrivals = arrivals;
}

-- The state after a call, whether it succeeds or not. Only a request that is open ends.
unfoldable pub token_call : Outside → TokenCall → Requests → Requests
unfolding create_api_token revoke_api_token delete_revoked_api_token authenticate_api_token
    drop_permit contains give_back
token_call outside (creates drawn now actor source) requests = record requests {
  auth = (create_api_token outside drawn now actor source requests.auth).0;
}
token_call outside (revokes_token now actor token_id) requests = record requests {
  auth = (revoke_api_token now actor token_id requests.auth).0;
}
token_call outside (deletes_token actor token_id) requests = record requests {
  auth = (delete_revoked_api_token actor token_id requests.auth).0;
}
token_call outside (begins_request lost now token client_ip) requests =
    granted now (authenticate_api_token outside lost now token client_ip requests.auth)
      requests.permits requests.arrivals
token_call outside (ends_request now token_id) requests =
    if contains token_id requests.permits
    then record requests {
      auth = drop_permit now token_id requests.auth;
      permits = give_back token_id requests.permits;
    }
    else requests

unfoldable pub token_calls : Outside → List TokenCall → Requests → Requests
unfolding token_call
token_calls outside [] requests = requests
token_calls outside (call ∷ calls) requests =
    token_calls outside calls (token_call outside call requests)

-- A change of rows that keeps their ids.
module _ (p : ApiTokenRow → Bool) (f : ApiTokenRow → ApiTokenRow)
    (same : (t : ApiTokenRow) → (f t).id ≡ t.id) where
  pub Old-update_where :
      (next : ℕ) (tokens : List ApiTokenRow)
      → All (Old next) tokens
      → All (Old next) (update_where p f tokens)
  Old-update_where next tokens h =
      All-update_where (Old next) (Old next) p f (λ t _ k. rw (same t) k) (λ t _ k. k) tokens h

  pub unique-update_where :
      (tokens : List ApiTokenRow)
      → ((id : ℕ) → count (token_id_is id) tokens ≤ 1)
      → (id : ℕ) → count (token_id_is id) (update_where p f tokens) ≤ 1
  unique-update_where tokens h id =
      rw (count-update_where (token_id_is id) p f (λ t _. rw (same t) refl) tokens) (h id)

pub use_token-IsWithin :
    (now token_id : ℕ) (ip : String) (permits : List ℕ) (token : ApiTokenRow)
    → has_quota now token_id token ≡ true
    → IsWithin permits token
    → IsWithin permits (use_token now ip token)
      × IsWithin (token_id ∷ permits) (use_token now ip token)
unfolding use_token count
use_token-IsWithin now token_id ip permits token h w = (
  record { requests = omega (arith, w.requests); concurrent = ground (arith, h, w.concurrent) },
  record { requests = ground (arith, h, w.requests); concurrent = ground (arith, h, w.concurrent) },
)

pub other_request-IsWithin :
    (token_id : ℕ) (permits : List ℕ) (token : ApiTokenRow)
    → token_id_is token_id token ≡ false
    → IsWithin permits token
    → IsWithin (token_id ∷ permits) token
unfolding count
other_request-IsWithin token_id permits token other w = record {
  requests = ground (arith, other, w.requests);
  concurrent = w.concurrent;
}

-- The request that ends gives its count back.
pub release-IsWithin :
    (now token_id : ℕ) (permits : List ℕ) (token : ApiTokenRow)
    → contains token_id permits ≡ true
    → token_id_is token_id token ≡ true
    → IsWithin permits token
    → IsWithin (give_back token_id permits) (release now token)
unfolding release
release-IsWithin now token_id permits token held own w =
    let same : token.id ≡ token_id = ground (arith, own) in
    let fewer = give_back-open_requests token_id permits held in
    let covered : open_requests token_id permits ≤ token.active_request_count =
      rw same at w.requests in
    record {
      requests = rw same (omega (arith, fewer, covered));
      concurrent = omega (arith, w.concurrent);
    }

pub give_back-IsWithin :
    (token_id : ℕ) (permits : List ℕ) (token : ApiTokenRow)
    → IsWithin permits token
    → IsWithin (give_back token_id permits) token
give_back-IsWithin token_id permits token w =
    let fewer = give_back-count token_id (λ id. id == token.id) permits in
    record { requests = omega (arith, fewer, w.requests); concurrent = w.concurrent }

pub new_token-IsWithin :
    (now id account_id : ℕ) (hash prefix source : String) (permits : List ℕ)
    → open_requests id permits ≡ 0
    → IsWithin permits (new_token now id account_id hash prefix source)
unfolding new_token
new_token-IsWithin now id account_id hash prefix source permits fresh = record {
  requests = omega (arith, fresh);
  concurrent = omega arith;
}
