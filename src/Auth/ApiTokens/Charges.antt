-- ===== src/Auth/ApiTokens/Charges.antt =====
-- The writes to the table of tokens keep its bounds (api/src/auth/service.rs).
use easy_deploy.Prelude.{
  ℕ, String, Option, some, none, List, [], ◌∷◌, ◌++◌, Bool, true, ◌+◌, ◌<◌, ◌==◌, find, count, All,
  All-append, All-imp, ◌≡◌, refl, arith, Bool-cases, Option-cases, inl, inr, ok, ok_or,
}
use easy_deploy.Prelude.Table.{update_where, All-update_where}
use easy_deploy.Prelude.Searches.{All-find, All-zip}
use easy_deploy.Auth.Types.{AuthError, ApiTokenRow, AccountRow, AuthDb}
use easy_deploy.Auth.Service.{AuthService, with_db}
use easy_deploy.Auth.ApiTokens.Permits.{
  open_requests_fresh, count_last_le, count_last_other, count_none, count-All,
}
use easy_deploy.Auth.ApiTokens.{
  matches_token, active_owner, new_token, token_id_is, has_quota, use_token, select_token,
}
use easy_deploy.Auth.ApiTokens.Rates.{
  Arrival, use_token-IsCounted, other_arrival-IsCounted, new_token-IsCounted,
}
use easy_deploy.Auth.ApiTokens.Quotas.{
  Keeps, Old, IsOrdered, AllWithin, Old-update_where, unique-update_where, use_token-IsWithin,
  other_request-IsWithin, new_token-IsWithin,
}
use easy_deploy.Prelude.{subst}

-- The bounds hold for the rows of a service and a list of permits.
abbrev pub Bounded : List ℕ → List Arrival → AuthService → Type 0
Bounded permits arrivals auth =
    AllWithin (record { auth = auth; permits = permits; arrivals = arrivals })

-- A change of rows that keeps their ids, and each of them within its limits, for these permits.
pub updated-Bounded :
    (p : ApiTokenRow → Bool) (f : ApiTokenRow → ApiTokenRow) (auth : AuthService)
    (permits permits' : List ℕ) (arrivals arrivals' : List Arrival)
    → ((t : ApiTokenRow) → (f t).id ≡ t.id)
    → Bounded permits arrivals auth
    → All (Keeps permits' arrivals') (update_where p f auth.db.api_tokens)
    → All (λ id. id < auth.db.next_token_id) permits'
    → All (λ a. a.token_id < auth.db.next_token_id) arrivals'
    → Bounded permits' arrivals'
        (with_db auth (record (auth.db) { api_tokens = update_where p f auth.db.api_tokens }))
updated-Bounded p f auth permits permits' arrivals arrivals' same b within known came = record {
  within = within;
  ordered = record {
    known = Old-update_where p f same auth.db.next_token_id auth.db.api_tokens b.ordered.known;
    permits_known = known;
    arrivals_known = came;
    unique = unique-update_where p f same auth.db.api_tokens b.ordered.unique;
  };
}

pub inserted-Bounded :
    (now account_id : ℕ) (hash prefix source : String) (auth : AuthService) (permits : List ℕ)
    (arrivals : List Arrival) (b : Bounded permits arrivals auth)
    → Bounded permits arrivals (
        with_db auth (record (auth.db) {
          api_tokens =
              auth.db.api_tokens
              ++ new_token now auth.db.next_token_id account_id hash prefix source ∷ [];
          next_token_id = auth.db.next_token_id + 1;
        }))
unfolding new_token
inserted-Bounded now account_id hash prefix source auth permits arrivals b =
    let next = auth.db.next_token_id in
    let tokens = auth.db.api_tokens in
    let row = new_token now next account_id hash prefix source in
    record {
      within = All-append (Keeps permits arrivals) tokens (row ∷ []) b.within (
        (
          new_token-IsWithin now next account_id hash prefix source permits
              (open_requests_fresh next permits b.ordered.permits_known),
          new_token-IsCounted now next account_id hash prefix source arrivals
              b.ordered.arrivals_known,
        ),
        tt,
      );
      ordered = record {
        known =
            All-append (Old (next + 1)) tokens (row ∷ [])
              (All-imp (Old next) (Old (next + 1)) (λ t k. omega (arith, k)) tokens b.ordered.known)
              (omega arith, tt);
        permits_known = All-imp _ _ (λ id k. omega (arith, k)) permits b.ordered.permits_known;
        arrivals_known = All-imp _ _ (λ a k. omega (arith, k)) arrivals b.ordered.arrivals_known;
        unique = λ id. elim (Bool-cases (next == id)) [
          | inl e ↦
              let absent =
                count_none (token_id_is id) tokens
                  (All-imp (Old next) _ (λ t k. ground (arith, e, k)) tokens b.ordered.known) in
              let more = count_last_le (token_id_is id) tokens row in omega (arith, absent, more)
          | inr e ↦ rw (count_last_other (token_id_is id) tokens row e) (b.ordered.unique id)
        ];
      };
    }

pub same_tables :
    (auth auth' : AuthService) (permits : List ℕ) (arrivals : List Arrival)
    → auth'.db.api_tokens ≡ auth.db.api_tokens
    → auth'.db.next_token_id ≡ auth.db.next_token_id
    → IsOrdered (record { auth = auth; permits = permits; arrivals = arrivals })
    → IsOrdered (record { auth = auth'; permits = permits; arrivals = arrivals })
same_tables auth auth' permits arrivals e f o = record {
  known = rw (e, f) o.known;
  permits_known = rw f o.permits_known;
  arrivals_known = rw f o.arrivals_known;
  unique = rw e o.unique;
}

pub ok_or-some : {A : Type 0} (o : Option A) (e : AuthError) (x : A) → ok_or o e ≡ ok x → o ≡ some x
ok_or-some none e x h = cc
ok_or-some (some y) e x h = cc

pub select_token-known :
    (now : ℕ) (hash : String) (db : AuthDb) (row : ApiTokenRow) (account : AccountRow)
    → select_token now hash db ≡ some (row, account)
    → All (Old db.next_token_id) db.api_tokens
    → row.id < db.next_token_id
unfolding select_token
select_token-known now hash db row account e known =
    elim (Option-cases (find (matches_token now hash) db.api_tokens)) [
      | inl missing ↦ absurd (ground (arith, rw (select_token, missing) at e))
      | inr (token, found) ↦ elim (Option-cases (find (active_owner token) db.accounts)) [
        | inl missing ↦ absurd (ground (arith, rw (select_token, found, missing) at e))
        | inr (owner, owned) ↦
            let same : token ≡ row = ground (arith, rw (select_token, found, owned) at e) in
            subst (λ (t : ApiTokenRow). t.id < db.next_token_id) same
              (All-find (Old db.next_token_id) (matches_token now hash) db.api_tokens token known
                found)
      ]
    ]

-- The only row of the token passes the test of the quota.
pub charged-Bounded :
    (now token_id : ℕ) (ip : String) (auth : AuthService) (permits : List ℕ)
    (arrivals : List Arrival)
    → (count (has_quota now token_id) auth.db.api_tokens == 1) ≡ true
    → token_id < auth.db.next_token_id
    → Bounded permits arrivals auth
    → (let charged = with_db auth (record (auth.db) {
      api_tokens = update_where (has_quota now token_id) (use_token now ip) auth.db.api_tokens;
    }) in
        Bounded permits arrivals charged
        × Bounded
            (token_id ∷ permits)
            (record { token_id = token_id; at = now } ∷ arrivals)
            charged)
unfolding use_token
charged-Bounded now token_id ip auth permits arrivals one known b =
    let tokens = auth.db.api_tokens in
    let arrivals' = record { token_id = token_id; at = now } ∷ arrivals in
    let unique = b.ordered.unique token_id in
    let only =
      count-All (token_id_is token_id) (has_quota now token_id) (λ t h. ground (arith, h)) tokens
        (ground (arith, one, unique)) in
    let all =
      All-zip (Keeps permits arrivals) _
        (λ t.
          Keeps permits arrivals t
          × (token_id_is token_id t ≡ true → has_quota now token_id t ≡ true))
        (λ t w o. (w, o)) tokens b.within only in
    (
      updated-Bounded (has_quota now token_id) (use_token now ip) auth permits permits arrivals
          arrivals (λ t. refl) b
          (All-update_where (Keeps permits arrivals) (Keeps permits arrivals)
            (has_quota now token_id) (use_token now ip)
            (λ t h w. (
              (use_token-IsWithin now token_id ip permits t h w.0).0,
              (use_token-IsCounted now token_id ip t h arrivals w.1).0,
            ))
            (λ t _ w. w) tokens b.within)
          b.ordered.permits_known b.ordered.arrivals_known,
      updated-Bounded (has_quota now token_id) (use_token now ip) auth permits (token_id ∷ permits)
          arrivals arrivals' (λ t. refl) b
          (All-update_where _ (Keeps (token_id ∷ permits) arrivals') (has_quota now token_id)
            (use_token now ip)
            (λ t h k. (
              (use_token-IsWithin now token_id ip permits t h k.0.0).1,
              (use_token-IsCounted now token_id ip t h arrivals k.0.1).1,
            ))
            (λ t h k. (
              other_request-IsWithin token_id permits t (ground (arith, h, k.1)) k.0.0,
              other_arrival-IsCounted now token_id arrivals t (ground (arith, h, k.1)) k.0.1,
            ))
            tokens all)
          (known, b.ordered.permits_known) (known, b.ordered.arrivals_known),
    )
