-- ===== src/Auth/Renewal/Cache.antt =====
-- The token that one call saves is the token that later calls find (app/services/kis/auth_service.py).
use autotrading.Prelude.{
  ℕ, ◌+◌, ◌*◌, ◌≤◌, ◌<◌, ◌≡◌, refl, some, true, false, codes_eq_refl, arith, truthy,
}
use autotrading.Worker.Effects.{next}
use autotrading.Redis.{access_token_key, Redis}
use autotrading.Auth.{
  AuthEnv, TokenPayload, TokenResponse, loaded, second, microseconds, expiry_buffer, ttl_seconds,
  validate_fingerprint, credential_fingerprint, is_expired_or_expiring, is_valid,
  get_cached_token_payload, save_token_payload,
}
use autotrading.Auth.Renewal.{payload_of, cached_token}

-- what JSON gives back, and what the broker's answer must have
pub record GoodJson (env : AuthEnv) (p : TokenPayload) : Type 0 where
  pub loads-dumps : env.loads (env.dumps p) ≡ loaded p
  pub dumps-truthy : truthy (some (env.dumps p)) ≡ true

pub record GoodAnswer (env : AuthEnv) (r : TokenResponse) (expires_at : ℕ) : Type 0 where
  pub has_token : truthy (some r.access_token) ≡ true
  pub has_time : truthy (some r.access_token_token_expired) ≡ true
  pub time : env.strptime r.access_token_token_expired ≡ some expires_at

-- from `saved` on until the buffer before the expiry
abbrev pub Early : ℕ → ℕ → ℕ → Type 0
Early saved expires_at now =
    (saved ≤ now) × (now + expiry_buffer * microseconds < expires_at * microseconds)

Early-ttl_seconds :
    (saved expires_at now : ℕ)
    → Early saved expires_at now
    → second now < second saved + ttl_seconds saved expires_at
Early-ttl_seconds saved expires_at now early = omega (arith, early)

module _ (env : AuthEnv) (r : TokenResponse)
    (json : (saved : ℕ) → GoodJson env (payload_of env saved r)) (expires_at : ℕ)
    (good : GoodAnswer env r expires_at) where
  payload_of-valid :
      (saved now : ℕ)
      → Early saved expires_at now
      → is_valid env now (payload_of env saved r) ≡ true
  unfolding is_valid validate_fingerprint is_expired_or_expiring
  payload_of-valid saved now early =
      rw (codes_eq_refl (credential_fingerprint env))
        (rw (is_expired_or_expiring, good.has_time, good.time) (ground (arith, early)))

  module _ {S : Type 0} (redis : Redis S) where
    -- A store that has the saved payload gives its token, and stays.
    pub cached_token-saved :
        (saved now : ℕ) (s : S)
        → Early saved expires_at now
        → redis.get (second now) access_token_key s ≡ some (env.dumps (payload_of env saved r))
        → cached_token redis env false now s ≡ (next (some r.access_token), s)
    unfolding get_cached_token_payload
    cached_token-saved saved now s early found = rw found (
        rw ((json saved).dumps-truthy) (
          rw ((json saved).loads-dumps)
            (rw good.has_token (rw (payload_of-valid saved now early) refl))))

    -- The store after the token was saved and the lock was released, or its release has failed.
    pub saved_store : ℕ → S → S
    saved_store saved s =
        redis.set_ex (second saved) access_token_key (env.dumps (payload_of env saved r))
          (ttl_seconds saved expires_at) s

    pub saved_store-get :
        (saved now : ℕ) (s : S)
        → Early saved expires_at now
        → redis.get (second now) access_token_key (saved_store saved s)
          ≡ some (env.dumps (payload_of env saved r))
    unfolding saved_store
    saved_store-get saved now s early =
        redis.get-set_ex access_token_key (env.dumps (payload_of env saved r))
          (ttl_seconds saved expires_at) s (second saved) (second now) (omega (arith, early))
          (Early-ttl_seconds saved expires_at now early)

    pub save-saved_store :
        (saved : ℕ) (s : S)
        → save_token_payload redis env saved (payload_of env saved r) s
          ≡ (next tt, saved_store saved s)
    unfolding save_token_payload saved_store
    save-saved_store saved s = rw good.time refl
