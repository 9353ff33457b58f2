-- ===== src/Auth.antt =====
-- app/services/kis/auth_service.py: the access token for the broker is cached in Redis and renewed under
-- the lock. Instants are in microseconds; a command reaches Redis at the whole second.
pub mod Renewal
use autotrading.Prelude.{
  ℕ, suc, ◌+◌, ◌-◌, ◌*◌, ◌/◌, max, String, Option, none, some, Bool, true, false, not, ◌&&◌, ◌||◌,
  List, [], take, ◌∷◌, ◌++◌, leb, zero, ltb, ◌==◌, if◌then◌else◌, truthy, codes, codes_eq, or_empty,
  str,
}
use autotrading.Worker.Effects.{Exn, exception, Outcome, next, stop, raised, Reply, reply, error}
use autotrading.Redis.{Key, access_token_key, access_token_lock, Redis}
use autotrading.Redis.Lock.{acquire_lock, try_release}

-- what the JSON of the cache has under its keys; a text is its code points where it is compared
pub record TokenPayload : Type 0 where
  pub access_token : Option String
  pub fingerprint : Option (List ℕ)
  pub token_type : Option String
  pub expires_in : Option ℕ
  pub access_token_token_expired : Option String
  pub issued_at : Option String

-- `json.loads`: a text that is no JSON, or JSON that is no object, or an object
pub data Loaded : Type 0 where
  json_decode_error no_object : Loaded
  loaded : TokenPayload → Loaded

pub record TokenResponse : Type 0 where
  pub access_token : String
  pub token_type : String
  pub expires_in : ℕ
  pub access_token_token_expired : String

-- What the service takes from Python and from its settings: JSON, the hash, the reading of a time (in
-- seconds, `none` for a ValueError), the text of a time, and the credentials.
pub record AuthEnv : Type 0 where
  pub dumps : TokenPayload → String
  pub loads : String → Loaded
  pub hexdigest : List ℕ → List ℕ
  pub strptime : String → Option ℕ
  pub isoformat : ℕ → String
  pub appkey : String
  pub appsecret : String

abbrev pub microseconds : ℕ
microseconds = 1000000

abbrev pub second : ℕ → ℕ
second now = now / microseconds

-- EXPIRY_BUFFER_SECONDS, LOCK_TTL_SECONDS and LOCK_RETRY_COUNT
abbrev pub expiry_buffer : ℕ
expiry_buffer = 300

abbrev pub lock_ttl : ℕ
lock_ttl = 55

abbrev pub lock_retry_count : ℕ
lock_retry_count = 5

-- `_credential_fingerprint` of the current credentials
unfoldable pub credential_fingerprint : AuthEnv → List ℕ
credential_fingerprint env =
    take 16 (env.hexdigest (codes env.appkey ++ codes ":" ++ codes env.appsecret))

abbrev same_text : Option (List ℕ) → List ℕ → Bool
same_text none t = false
same_text (some s) t = codes_eq s t

unfoldable pub validate_fingerprint : AuthEnv → TokenPayload → Bool
unfolding credential_fingerprint
validate_fingerprint env payload = same_text payload.fingerprint (credential_fingerprint env)

-- `_now() >= expired_at - 300 s`; a time that cannot be read counts as over
abbrev over : ℕ → Option ℕ → Bool
over now none = true
over now (some expired_at) = leb (expired_at * microseconds) (now + expiry_buffer * microseconds)

unfoldable pub is_expired_or_expiring : AuthEnv → ℕ → TokenPayload → Bool
is_expired_or_expiring env now payload =
    if truthy payload.access_token_token_expired
    then over now (env.strptime (or_empty payload.access_token_token_expired))
    else true

-- the token of a payload that may be used as it is
unfoldable pub is_valid : AuthEnv → ℕ → TokenPayload → Bool
unfolding validate_fingerprint is_expired_or_expiring
is_valid env now payload =
    validate_fingerprint env payload && not (is_expired_or_expiring env now payload)

-- `max(int((expires_at - now).total_seconds()), 1)`
abbrev pub ttl_seconds : ℕ → ℕ → ℕ
ttl_seconds now expires_at = max ((expires_at * microseconds - now) / microseconds) 1

module _ {S : Type 0} (redis : Redis S) (env : AuthEnv) where
  -- A payload without a token is as good as none; a text that is no JSON is deleted.
  abbrev parsed : ℕ → Loaded → S → Outcome (Option TokenPayload) × S
  parsed now json_decode_error s = (next none, redis.delete (second now) access_token_key s)
  parsed now no_object s = (raised (exception "AttributeError"), s)
  parsed now (loaded payload) s =
      (next (if truthy payload.access_token then some payload else none), s)

  unfoldable pub get_cached_token_payload : ℕ → S → Outcome (Option TokenPayload) × S
  get_cached_token_payload now s =
      let raw = redis.get (second now) access_token_key s in
      if truthy raw then parsed now (env.loads (or_empty raw)) s else (next none, s)

  abbrev saved : ℕ → TokenPayload → Option ℕ → S → Outcome (Unit {0}) × S
  saved now payload none s = (raised (exception "ValueError"), s)
  saved now payload (some expires_at) s = (
    next tt,
    redis.set_ex (second now) access_token_key (env.dumps payload) (ttl_seconds now expires_at) s,
  )

  unfoldable pub save_token_payload : ℕ → TokenPayload → S → Outcome (Unit {0}) × S
  save_token_payload now payload =
      saved now payload (env.strptime (or_empty payload.access_token_token_expired))

  unfoldable pub invalidate_access_token : ℕ → S → S
  invalidate_access_token now = redis.delete (second now) access_token_key
