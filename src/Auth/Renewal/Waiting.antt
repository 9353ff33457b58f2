-- ===== src/Auth/Renewal/Waiting.antt =====
-- The wait for a token that another worker renews (app/services/kis/auth_service.py).
use autotrading.Prelude.{ℕ, ◌≡◌, refl, String, some, true, false, truthy}
use autotrading.Worker.Effects.{next}
use autotrading.Redis.{access_token_key, access_token_lock, Redis}
use autotrading.Redis.Lock.{distributed_lock, acquire_lock}
use autotrading.Auth.{
  AuthEnv, TokenPayload, second, lock_ttl, validate_fingerprint, is_valid, get_cached_token_payload,
}
use autotrading.Auth.Renewal.{
  Visit, get_valid_access_token, renew_under_lock, wait_for_refreshed_token,
}
use autotrading.Auth.Renewal.Cache.{GoodJson}

module _ {S : Type 0} (redis : Redis S) (env : AuthEnv) (p : TokenPayload) (json : GoodJson env p)
    (token : String) where
  get_cached-holding :
      (now : ℕ) (s : S)
      → p.access_token ≡ some token
      → truthy (some token) ≡ true
      → redis.get (second now) access_token_key s ≡ some (env.dumps p)
      → get_cached_token_payload redis env now s ≡ (next (some p), s)
  unfolding get_cached_token_payload
  get_cached-holding now s has there found =
      rw found (rw (json.dumps-truthy) (rw (json.loads-dumps) (rw has (rw there refl))))

  -- If another worker has the lock and the cache still holds a token that was issued for other
  -- credentials, the call refuses that token at first and then, in the wait, returns it, expired or not.
  pub foreign_token_returned :
      (b : Visit S) (s : S) (n : ℕ) (v : String)
      → p.access_token ≡ some token
      → truthy (some token) ≡ true
      → validate_fingerprint env p ≡ false
      → b.force_refresh ≡ false
      → redis.get (second b.read_at) access_token_key s ≡ some (env.dumps p)
      → redis.get (second b.lock_at) access_token_lock (b.before_lock s) ≡ some v
      → redis.get (second (b.looks 4).0) access_token_key ((b.looks 4).1 (b.before_lock s))
        ≡ some (env.dumps p)
      → (get_valid_access_token redis env b (s, n)).0 ≡ next token
  unfolding get_valid_access_token is_valid renew_under_lock distributed_lock acquire_lock
      wait_for_refreshed_token
  foreign_token_returned b s n v has there foreign plain read taken look = rw plain (
      rw (get_cached-holding b.read_at s has there read) (
        rw (is_valid, foreign)
          (rw
            (redis.set_nx_ex_taken access_token_lock "1" v lock_ttl (b.before_lock s)
              (second b.lock_at) taken)
            (rw (get_cached-holding (b.looks 4).0 ((b.looks 4).1 (b.before_lock s)) has there look)
              (rw (foreign, has) refl)))))
