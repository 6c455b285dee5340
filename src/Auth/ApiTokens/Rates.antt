-- ===== src/Auth/ApiTokens/Rates.antt =====
-- The requests of a token's window (api/src/auth/service.rs, `authenticate_api_token`).
use easy_deploy.Prelude.{
  ℕ, String, some, none, List, ◌∷◌, Bool, true, false, not, ◌&&◌, ◌||◌, ◌+◌, ◌≤◌, ◌<◌, ◌==◌, ltb,
  leb, count, All, All-imp, ◌≡◌, arith, Bool-cases, Option-cases, inl, inr,
}
use easy_deploy.Auth.Types.{ApiTokenRow}
use easy_deploy.Auth.ApiTokens.Permits.{count_none}
use easy_deploy.Auth.ApiTokens.{new_token, token_id_is, has_quota, window_over, use_token}

-- A request that was let in.
pub record Arrival : Type 0 where
  pub token_id : ℕ
  pub at : ℕ

-- It came in the token's window, as far as that has begun.
abbrev pub in_window : ApiTokenRow → Arrival → Bool
in_window token arrival =
    arrival.token_id == token.id
    && elim token.rate_window_started_at [ none ↦ false | some start ↦ leb start arrival.at ]

-- If it is the token's, it came before the window's end.
abbrev before_end : ApiTokenRow → Arrival → Bool
before_end token arrival = not (arrival.token_id == token.id) || elim token.rate_window_started_at [
  | none ↦ false
  | some start ↦ ltb arrival.at (start + 60000)
]

pub record IsCounted (arrivals : List Arrival) (token : ApiTokenRow) : Type 0 where
  pub timely : All (λ a. before_end token a ≡ true) arrivals
  pub counted : count (in_window token) arrivals ≤ token.rate_window_count
  pub limit : token.rate_window_count ≤ token.rate_limit_per_minute
  pub rate : 1 ≤ token.rate_limit_per_minute

module _ (now token_id : ℕ) (ip : String) (token : ApiTokenRow)
    (quota : has_quota now token_id token ≡ true) where
  still_timely :
      (a : Arrival) → before_end token a ≡ true → before_end (use_token now ip token) a ≡ true
  unfolding use_token
  still_timely a h = elim (Bool-cases (window_over now token)) [
    | inl over ↦ elim (Option-cases token.rate_window_started_at) [
      | inl e ↦ rw over (ground (arith, rw e at h))
      | inr (start, e) ↦ rw over (ground (arith, rw e at h, rw e at over))
    ]
    | inr going ↦ rw going h
  ]

  old_arrival :
      window_over now token ≡ true
      → (a : Arrival) → before_end token a ≡ true
      → in_window (use_token now ip token) a ≡ false
  unfolding use_token
  old_arrival over a h = elim (Option-cases token.rate_window_started_at) [
    | inl e ↦ rw over (ground (arith, rw e at h))
    | inr (start, e) ↦ rw over (ground (arith, rw e at h, rw e at over))
  ]

  one_more :
      (arrivals : List Arrival)
      → IsCounted arrivals token
      → count (in_window (use_token now ip token)) arrivals + 1
        ≤ (use_token now ip token).rate_window_count
  unfolding use_token
  one_more arrivals c = elim (Bool-cases (window_over now token)) [
    | inl over ↦
        let gone =
          count_none (in_window (use_token now ip token)) arrivals
            (All-imp _ _ (old_arrival over) arrivals c.timely) in
        rw over (omega (arith, rw over at gone))
    | inr going ↦ rw going (omega (arith, c.counted))
  ]

  begins_in_time :
      before_end (use_token now ip token) (record { token_id = token_id; at = now }) ≡ true
  unfolding use_token
  begins_in_time = elim (Bool-cases (window_over now token)) [
    | inl over ↦ rw over (ground arith)
    | inr going ↦ elim (Option-cases token.rate_window_started_at) [
      | inl e ↦ absurd (ground (arith, rw e at going))
      | inr (start, e) ↦ rw (going, e) (ground (arith, rw e at going))
    ]
  ]

  within_limit :
      (arrivals : List Arrival)
      → IsCounted arrivals token
      → (use_token now ip token).rate_window_count ≤ token.rate_limit_per_minute
  unfolding use_token
  within_limit arrivals c = ground (arith, quota, c.limit, c.rate)

  pub use_token-IsCounted :
      (arrivals : List Arrival)
      → IsCounted arrivals token
      → IsCounted arrivals (use_token now ip token)
        × IsCounted (record { token_id = token_id; at = now } ∷ arrivals) (use_token now ip token)
  unfolding use_token count
  use_token-IsCounted arrivals c =
      let more = one_more arrivals c in
      let timely = All-imp _ _ still_timely arrivals c.timely in
      (
        record {
          timely = timely;
          counted = omega (arith, more);
          limit = within_limit arrivals c;
          rate = c.rate;
        },
        record {
          timely = (begins_in_time, timely);
          counted =
              elim (Bool-cases
                (in_window (use_token now ip token) (record { token_id = token_id; at = now }))) [
                  | inl e ↦ rw e (omega (arith, more))
                  | inr e ↦ rw e (omega (arith, more))
                ];
          limit = within_limit arrivals c;
          rate = c.rate;
        },
      )

pub other_arrival-IsCounted :
    (now token_id : ℕ) (arrivals : List Arrival) (token : ApiTokenRow)
    → token_id_is token_id token ≡ false
    → IsCounted arrivals token
    → IsCounted (record { token_id = token_id; at = now } ∷ arrivals) token
unfolding count
other_arrival-IsCounted now token_id arrivals token other c = record {
  timely = (ground (arith, other), c.timely);
  counted = ground (arith, other, c.counted);
  limit = c.limit;
  rate = c.rate;
}

pub new_token-IsCounted :
    (now id account_id : ℕ) (hash prefix source : String) (arrivals : List Arrival)
    → All (λ a. a.token_id < id) arrivals
    → IsCounted arrivals (new_token now id account_id hash prefix source)
unfolding new_token
new_token-IsCounted now id account_id hash prefix source arrivals known =
    let token = new_token now id account_id hash prefix source in
    let none_counted =
      count_none (in_window token) arrivals
        (All-imp _ _ (λ a k. ground (arith, k)) arrivals known) in
    record {
      timely = All-imp _ _ (λ a k. ground (arith, k)) arrivals known;
      counted = omega (arith, none_counted);
      limit = omega arith;
      rate = omega arith;
    }
