-- ===== src/Auth/Renewal.antt =====
-- The renewal of the access token (app/services/kis/auth_service.py): one call of the service, among
-- other workers that change the store meanwhile.
pub mod Cache
pub mod Workers
pub mod Waiting
use autotrading.Prelude.{
  ℕ, zero, suc, not, ◌+◌, String, Option, none, some, Bool, true, false, if◌then◌else◌, codes,
  codes_eq, truthy,
}
use autotrading.Worker.Effects.{Exn, exception, Outcome, next, stop, raised, Reply, reply, error}
use autotrading.Redis.{access_token_lock, Redis}
use autotrading.Redis.Lock.{distributed_lock, lock_acquisition_error}
use autotrading.Auth.{
  TokenPayload, TokenResponse, AuthEnv, second, lock_ttl, lock_retry_count, credential_fingerprint,
  validate_fingerprint, is_expired_or_expiring, is_valid, get_cached_token_payload,
  save_token_payload,
}

-- One call: its flag, its instants, the broker's answer, whether the release works, what others do to the
-- store before the lock is tried, and the instants of the looks while another worker has the lock, with
-- what others do before each.
pub record Visit (S : Type 0) : Type 0 where
  pub force_refresh : Bool
  pub read_at : ℕ
  pub before_lock : S → S
  pub lock_at : ℕ
  pub token_response : Reply TokenResponse
  pub save_at : ℕ
  pub released : Reply (Unit {0})
  pub looks : ℕ → ℕ × (S → S)

-- the fingerprint is checked, and the time as well
abbrev pub usable : AuthEnv → ℕ → Option TokenPayload → Option String
usable env now none = none
usable env now (some payload) = if is_valid env now payload then payload.access_token else none

-- the wait looks at the fingerprint and at the time apart
abbrev pub acceptable : AuthEnv → ℕ → Option TokenPayload → Option String
acceptable env now none = none
acceptable env now (some payload) =
    if not (validate_fingerprint env payload)
    then payload.access_token
    else if not (is_expired_or_expiring env now payload)
    then payload.access_token
    else none

abbrev pub token_refresh_timeout : Exn
token_refresh_timeout = exception "TOKEN_REFRESH_TIMEOUT"

abbrev pub payload_of : AuthEnv → ℕ → TokenResponse → TokenPayload
payload_of env now r = record {
  access_token = some r.access_token;
  fingerprint = some (credential_fingerprint env);
  token_type = some r.token_type;
  expires_in = some r.expires_in;
  access_token_token_expired = some r.access_token_token_expired;
  issued_at = some (env.isoformat now);
}

-- the outcome of a look at the cache, the token that may be taken being chosen by `choose`
abbrev pub chosen :
    {S : Type 0}
    → (Option TokenPayload → Option String)
    → Outcome (Option TokenPayload) × S
    → Outcome (Option String) × S
chosen choose (next cached, s) = (next (choose cached), s)
chosen choose (stop, s) = (stop, s)
chosen choose (raised e, s) = (raised e, s)

-- `except LockAcquisitionError`
abbrev pub is_lock_error : Exn → Bool
is_lock_error (exception text) = codes_eq (codes text) (codes "LockAcquisitionError")
is_lock_error _ = false

module _ {S : Type 0} (redis : Redis S) (env : AuthEnv) where
  abbrev pub cached_token : Bool → ℕ → S → Outcome (Option String) × S
  cached_token true now s = (next none, s)
  cached_token false now s = chosen (usable env now) (get_cached_token_payload redis env now s)

  abbrev pub waited : (S → Outcome String × S) → Outcome (Option String) × S → Outcome String × S
  waited again (next (some token), s) = (next token, s)
  waited again (next none, s) = again s
  waited again (stop, s) = (stop, s)
  waited again (raised e, s) = (raised e, s)

  -- `_wait_for_refreshed_token`, with the retries that are left
  unfoldable pub wait_for_refreshed_token : ℕ → (ℕ → ℕ × (S → S)) → S → Outcome String × S
  wait_for_refreshed_token zero looks s = (raised token_refresh_timeout, s)
  wait_for_refreshed_token (suc left) looks s =
      let (now, others) = looks left in
      waited (wait_for_refreshed_token left looks)
        (chosen (acceptable env now) (get_cached_token_payload redis env now (others s)))

  abbrev pub stored : String → Outcome (Unit {0}) × S → ℕ → Outcome String × (S × ℕ)
  stored token (next u, s) issued = (next token, (s, issued))
  stored token (stop, s) issued = (stop, (s, issued))
  stored token (raised e, s) issued = (raised e, (s, issued))

  -- a new token is asked for and saved; the second part of the state counts the requests
  abbrev pub issue : Visit S → S × ℕ → Outcome String × (S × ℕ)
  issue visit (s, issued) = elim visit.token_response [
    | reply r ↦
        stored r.access_token
          (save_token_payload redis env visit.save_at (payload_of env visit.save_at r) s)
          (suc issued)
    | error e ↦ (raised e, (s, suc issued))
  ]

  abbrev pub recheck : Visit S → ℕ → Outcome (Option String) × S → Outcome String × (S × ℕ)
  recheck visit issued (next (some token), s) = (next token, (s, issued))
  recheck visit issued (next none, s) = issue visit (s, issued)
  recheck visit issued (stop, s) = (stop, (s, issued))
  recheck visit issued (raised e, s) = (raised e, (s, issued))

  -- the body under the lock
  abbrev pub renew : Visit S → S × ℕ → Outcome String × (S × ℕ) × ℕ
  renew visit (s, issued) =
      let (r, site) = recheck visit issued (cached_token visit.force_refresh visit.lock_at s) in
      (r, site, second visit.save_at)

  abbrev pub with_count : ℕ → Outcome String × S → Outcome String × (S × ℕ)
  with_count issued (r, s) = (r, (s, issued))

  abbrev pub caught : Visit S → Outcome String × (S × ℕ) → Outcome String × (S × ℕ)
  caught visit (raised e, (s, issued)) =
      if is_lock_error e
      then with_count issued (wait_for_refreshed_token lock_retry_count visit.looks s)
      else (raised e, (s, issued))
  caught visit (next token, site) = (next token, site)
  caught visit (stop, site) = (stop, site)

  unfoldable pub renew_under_lock : Visit S → S × ℕ → Outcome String × (S × ℕ)
  renew_under_lock visit site = caught visit (
      distributed_lock redis access_token_lock lock_ttl visit.released (second visit.lock_at)
        (renew visit) site)

  abbrev pub served : Visit S → ℕ → Outcome (Option String) × S → Outcome String × (S × ℕ)
  served visit issued (next (some token), s) = (next token, (s, issued))
  served visit issued (next none, s) = renew_under_lock visit (visit.before_lock s, issued)
  served visit issued (stop, s) = (stop, (s, issued))
  served visit issued (raised e, s) = (raised e, (s, issued))

  unfoldable pub get_valid_access_token : Visit S → S × ℕ → Outcome String × (S × ℕ)
  get_valid_access_token visit (s, issued) =
      served visit issued (cached_token visit.force_refresh visit.read_at s)

  unfoldable pub refresh_access_token : Visit S → S × ℕ → Outcome String × (S × ℕ)
  unfolding get_valid_access_token
  refresh_access_token visit = get_valid_access_token (record visit { force_refresh = true })
