-- ===== src/Scenarios/Tokens.antt =====
-- Workers that need the access token (app/services/kis/auth_service.py).
use autotrading.Prelude.{ℕ, ◌+◌, ◌≡◌, refl, arith, false, List, [], ◌∷◌, some, none}
use autotrading.Worker.Effects.{next, reply}
use autotrading.Redis.{access_token_key, access_token_lock}
use autotrading.Auth.{
  AuthEnv, TokenPayload, TokenResponse, loaded, credential_fingerprint, get_cached_token_payload,
  validate_fingerprint,
}
use autotrading.Auth.Renewal.{Visit, get_valid_access_token, refresh_access_token, payload_of}
use autotrading.Auth.Renewal.Cache.{GoodJson, GoodAnswer}
use autotrading.Auth.Renewal.Workers.{refresh-get_valid, get_valid-renewed}
use autotrading.Auth.Renewal.Waiting.{foreign_token_returned}
use autotrading.Scenarios.Store.{Store, redis, empty_store}

-- a token that lives for a day from the second 0
abbrev answer : TokenResponse
answer = record {
  access_token = "fresh";
  token_type = "Bearer";
  expires_in = 86400;
  access_token_token_expired = "2026-03-25 00:00:00";
}

abbrev cached : List ℕ → TokenPayload
cached fingerprint = record {
  access_token = some "fresh";
  fingerprint = some fingerprint;
  token_type = some "Bearer";
  expires_in = some 86400;
  access_token_token_expired = some "2026-03-25 00:00:00";
  issued_at = some "2026-03-24T00:00:00";
}

-- JSON that knows one payload, and a hash that is the same for all
abbrev env : List ℕ → AuthEnv
env fingerprint = record {
  dumps = λ p. "{}";
  loads = λ s. loaded (cached fingerprint);
  hexdigest = λ s. 97 ∷ [];
  strptime = λ s. some 86400;
  isoformat = λ now. "2026-03-24T00:00:00";
  appkey = "key";
  appsecret = "secret";
}

abbrev own : List ℕ
own = 97 ∷ []

abbrev foreign : List ℕ
foreign = 98 ∷ []

json : (saved : ℕ) → GoodJson (env own) (payload_of (env own) saved answer)
json saved = record { loads-dumps = unfold credential_fingerprint in refl; dumps-truthy = refl }

good : GoodAnswer (env own) answer 86400
good = record { has_token = refl; has_time = refl; time = refl }

abbrev visit : ℕ → (Store → Store) → Visit Store
visit at before_lock = record {
  force_refresh = false;
  read_at = at;
  before_lock = before_lock;
  lock_at = at + 1000;
  token_response = reply answer;
  save_at = at + 500000;
  released = reply tt;
  looks = λ k. (at + 1000000, λ s. s);
}

refresh-get_valid_example :
    let after = refresh_access_token redis (env own) (visit 1000000 (λ s. s)) (empty_store, 0) in
    (after.0 ≡ next "fresh")
    × (after.1.1 ≡ 1)
    × (get_valid_access_token redis (env own) (visit 7000000 (λ s. s)) after.1 ≡ after)
refresh-get_valid_example =
    refresh-get_valid redis (env own) answer json 86400 good (visit 1000000 (λ s. s))
      (visit 7000000 (λ s. s)) empty_store 0 refl (unfold redis in refl) refl
      (omega arith, omega arith)

-- the second worker looks before the first one's renewal, and gets the lock after it
abbrev meanwhile : Store → Store
meanwhile s = (get_valid_access_token redis (env own) (visit 1000000 (λ s. s)) (empty_store, 0)).1.0

get_valid-renewed_example :
    let first_call =
      get_valid_access_token redis (env own) (visit 1000000 (λ s. s)) (empty_store, 0) in
    let second_call =
      get_valid_access_token redis
        (env own)
        (visit 2000000 meanwhile)
        (empty_store, first_call.1.1) in
    (first_call.0 ≡ next "fresh")
    × (second_call.0 ≡ next "fresh")
    × (first_call.1.1 ≡ 1)
    × (second_call.1.1 ≡ 1)
get_valid-renewed_example =
    get_valid-renewed redis (env own) answer json 86400 good (visit 1000000 (λ s. s))
      (visit 2000000 meanwhile) empty_store empty_store 0 refl refl refl
      (unfold get_cached_token_payload redis in refl)
      (unfold get_cached_token_payload redis in refl) (unfold redis in refl)
      (unfold get_cached_token_payload redis in refl) refl refl (omega arith, omega arith)

-- another worker has the lock, and the cache has the token of other credentials
abbrev contended : Store
contended access_token_key = some (record { value = "{}"; ends = none })
contended access_token_lock = some (record { value = "1"; ends = some 56 })
contended _ = none

foreign_token_returned_example :
    (get_valid_access_token redis (env foreign) (visit 1000000 (λ s. s)) (contended, 0)).0
    ≡ next "fresh"
foreign_token_returned_example =
    foreign_token_returned redis (env foreign) (cached foreign)
      (record { loads-dumps = refl; dumps-truthy = refl }) "fresh" (visit 1000000 (λ s. s))
      contended 0 "1" refl refl (unfold validate_fingerprint in refl) refl (unfold redis in refl)
      (unfold redis in refl) (unfold redis in refl)
