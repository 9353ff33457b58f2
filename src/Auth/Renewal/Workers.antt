-- ===== src/Auth/Renewal/Workers.antt =====
-- Calls of the token service by several workers (app/services/kis/auth_service.py): how often the broker is
-- asked, and which token they get.
use autotrading.Prelude.{
  ℕ, suc, ◌+◌, ◌≤◌, ◌≡◌, refl, ◌∙◌, ap, String, Option, none, some, Bool, true, false, arith, inl,
  inr, Option-cases, Bool-cases, if◌then◌else◌, is_some,
}
use autotrading.Worker.Effects.{Outcome, next, stop, raised, Reply, reply, error}
use autotrading.Redis.{access_token_key, access_token_lock, Redis}
use autotrading.Redis.Lock.{distributed_lock, acquire_lock, release_lock, try_release, under_lock}
use autotrading.Auth.{AuthEnv, TokenResponse, second, lock_ttl}
use autotrading.Auth.Renewal.{
  payload_of, Visit, get_valid_access_token, refresh_access_token, renew_under_lock, caught, served,
  renew, recheck, stored, issue, cached_token, is_lock_error,
}
use autotrading.Auth.Renewal.Cache.{
  GoodJson, GoodAnswer, Early, cached_token-saved, saved_store, saved_store-get, save-saved_store,
}

module _ {S : Type 0} (redis : Redis S) (env : AuthEnv) where
  caught-count :
      (visit : Visit S) (p : Outcome String × (S × ℕ)) → (caught redis env visit p).1.1 ≡ p.1.1
  caught-count visit (next token, site) = refl
  caught-count visit (stop, site) = refl
  caught-count visit (raised e, (s, n)) = elim (Bool-cases (is_lock_error e)) [
    | inl b ↦ rw b refl
    | inr b ↦ rw b refl
  ]

  stored-count :
      (token : String) (p : Outcome (Unit {0}) × S) (n : ℕ) → (stored redis env token p n).1.1 ≡ n
  stored-count token (next u, s) n = refl
  stored-count token (stop, s) n = refl
  stored-count token (raised e, s) n = refl

  issue-count : (visit : Visit S) (s : S) (n : ℕ) → (issue redis env visit (s, n)).1.1 ≡ suc n
  issue-count visit s n = go visit.token_response
    where
      go :
          (a : Reply TokenResponse)
          → (issue redis env (record visit { token_response = a }) (s, n)).1.1 ≡ suc n
      go (reply r) = stored-count r.access_token _ (suc n)
      go (error e) = refl

  recheck-count :
      (visit : Visit S) (n : ℕ) (p : Outcome (Option String) × S)
      → (recheck redis env visit n p).1.1 ≤ suc n
  recheck-count visit n (next (some token), s) = omega arith
  recheck-count visit n (next none, s) = omega (arith, issue-count visit s n)
  recheck-count visit n (stop, s) = omega arith
  recheck-count visit n (raised e, s) = omega arith

  renew_under_lock-taken :
      (visit : Visit S) (s : S) (n : ℕ) (v : String)
      → redis.get (second visit.lock_at) access_token_lock s ≡ some v
      → (renew_under_lock redis env visit (s, n)).1.1 ≡ n
  unfolding renew_under_lock distributed_lock acquire_lock
  renew_under_lock-taken visit s n v taken =
      rw (redis.set_nx_ex_taken access_token_lock "1" v lock_ttl s (second visit.lock_at) taken)
        refl

  renew_under_lock-free :
      (visit : Visit S) (s : S) (n : ℕ)
      → redis.get (second visit.lock_at) access_token_lock s ≡ none
      → (renew_under_lock redis env visit (s, n)).1.1 ≤ suc n
  unfolding renew_under_lock distributed_lock acquire_lock
  renew_under_lock-free visit s n free =
      rw (redis.set_nx_ex_free access_token_lock "1" lock_ttl s (second visit.lock_at) free) (
        rw
          (caught-count visit (
            under_lock redis access_token_lock visit.released (renew redis env visit) n
              (true, redis.set_ex (second visit.lock_at) access_token_lock "1" lock_ttl s)))
          (recheck-count visit n _))

  -- whether another worker has the lock when a call that finds no token in the cache tries it
  abbrev pub locked_out : Visit S → S → Bool
  locked_out visit s = is_some (
      redis.get (second visit.lock_at) access_token_lock
        (visit.before_lock (cached_token redis env visit.force_refresh visit.read_at s).1))

  -- One call asks the broker once at most, and not at all if another worker has the lock when it tries,
  -- whatever the cache holds, the broker answers and the other workers do to the store.
  pub get_valid_access_token-count :
      (visit : Visit S) (s : S) (n : ℕ)
      → (get_valid_access_token redis env visit (s, n)).1.1
        ≤ n + (if locked_out visit s then 0 else 1)
  unfolding get_valid_access_token
  get_valid_access_token-count visit s n =
      go (cached_token redis env visit.force_refresh visit.read_at s)
    where
      go :
          (p : Outcome (Option String) × S)
          → (served redis env visit n p).1.1
            ≤ n
              + (if is_some
                    (redis.get (second visit.lock_at) access_token_lock (visit.before_lock p.1))
                  then 0
                  else 1)
      go (next (some token), s) = omega arith
      go (next none, s) =
          elim (Option-cases
            (redis.get (second visit.lock_at) access_token_lock (visit.before_lock s))) [
              | inr (v, taken) ↦
                  rw taken
                    (omega (arith, renew_under_lock-taken visit (visit.before_lock s) n v taken))
              | inl free ↦
                  rw free (omega (arith, renew_under_lock-free visit (visit.before_lock s) n free))
            ]
      go (stop, s) = omega arith
      go (raised e, s) = omega arith

  module _ (r : TokenResponse) (json : (saved : ℕ) → GoodJson env (payload_of env saved r))
      (expires_at : ℕ) (good : GoodAnswer env r expires_at) where
    -- the store after a forced renewal
    renewed : Visit S → S → S
    renewed a s = try_release redis a.released (second a.save_at) access_token_lock (
        saved_store env r json expires_at good redis a.save_at
          (redis.set_ex (second a.lock_at) access_token_lock "1" lock_ttl (a.before_lock s)))

    refresh-renewed :
        (a : Visit S) (s : S) (n : ℕ)
        → a.token_response ≡ reply r
        → redis.get (second a.lock_at) access_token_lock (a.before_lock s) ≡ none
        → refresh_access_token redis env a (s, n) ≡ (next r.access_token, (renewed a s, suc n))
    unfolding refresh_access_token get_valid_access_token renew_under_lock distributed_lock
        acquire_lock renewed
    refresh-renewed a s n answered free =
        rw
          (redis.set_nx_ex_free access_token_lock "1" lock_ttl (a.before_lock s) (second a.lock_at)
            free)
          (rw answered (
            rw
              (save-saved_store env r json expires_at good redis a.save_at
                (redis.set_ex (second a.lock_at) access_token_lock "1" lock_ttl (a.before_lock s)))
              refl))

    renewed-get :
        (a : Visit S) (s : S) (now : ℕ)
        → Early a.save_at expires_at now
        → redis.get (second now) access_token_key (renewed a s)
          ≡ some (env.dumps (payload_of env a.save_at r))
    unfolding renewed release_lock
    renewed-get a s now early = go a.released
      where
        store : S
        store = redis.set_ex (second a.lock_at) access_token_lock "1" lock_ttl (a.before_lock s)

        go :
            (released : Reply (Unit {0}))
            → redis.get (second now) access_token_key (
                try_release redis released
                  (second a.save_at)
                  access_token_lock
                  (saved_store env r json expires_at good redis a.save_at store))
              ≡ some (env.dumps (payload_of env a.save_at r))
        go (reply u) =
            redis.get-delete_other access_token_lock access_token_key _ (second a.save_at)
              (second now) refl (omega (arith, early))
            ∙ saved_store-get env r json expires_at good redis a.save_at now store early
        go (error e) = saved_store-get env r json expires_at good redis a.save_at now store early

    -- If a forced refresh finds the lock free and the broker answers with a token and a time that can be read,
    -- it returns that token after one request, and every later call until five minutes before the expiry
    -- returns the same token, asks for none and leaves the store as it is, even if the release failed.
    pub refresh-get_valid :
        (a b : Visit S) (s : S) (n : ℕ)
        → a.token_response ≡ reply r
        → redis.get (second a.lock_at) access_token_lock (a.before_lock s) ≡ none
        → b.force_refresh ≡ false
        → Early a.save_at expires_at b.read_at
        → let after = refresh_access_token redis env a (s, n) in
          (after.0 ≡ next r.access_token)
          × (after.1.1 ≡ suc n)
          × (get_valid_access_token redis env b after.1 ≡ after)
    unfolding get_valid_access_token
    refresh-get_valid a b s n answered free plain early = rw (refresh-renewed a s n answered free) (
      refl,
      refl,
      rw plain (
          rw
            (cached_token-saved env r json expires_at good redis a.save_at b.read_at (renewed a s)
              early (renewed-get a s b.read_at early))
            refl),
    )

    -- a call that gets the lock on a store that has the token
    renew_under_lock-found :
        (b : Visit S) (saved : ℕ) (s : S) (n : ℕ)
        → b.force_refresh ≡ false
        → Early saved expires_at b.lock_at
        → redis.get (second b.lock_at) access_token_lock s ≡ none
        → redis.get (second b.lock_at) access_token_key s
          ≡ some (env.dumps (payload_of env saved r))
        → let after = renew_under_lock redis env b (s, n) in
          (after.0 ≡ next r.access_token) × (after.1.1 ≡ n)
    unfolding renew_under_lock distributed_lock acquire_lock
    renew_under_lock-found b saved s n plain early free found =
        let t = second b.lock_at in
        let locked = redis.set_ex t access_token_lock "1" lock_ttl s in
        let kept =
          redis.get-set_ex_other access_token_lock access_token_key "1" lock_ttl s t t refl
            (omega arith) in
        rw (redis.set_nx_ex_free access_token_lock "1" lock_ttl s t free) (
          rw plain (
            rw
              (cached_token-saved env r json expires_at good redis saved b.lock_at locked early
                (kept ∙ found))
              (refl, refl)))

    get_valid-found :
        (b : Visit S) (saved : ℕ) (s s' : S) (n : ℕ)
        → b.force_refresh ≡ false
        → cached_token redis env false b.read_at s' ≡ (next none, s')
        → b.before_lock s' ≡ s
        → Early saved expires_at b.lock_at
        → redis.get (second b.lock_at) access_token_lock s ≡ none
        → redis.get (second b.lock_at) access_token_key s
          ≡ some (env.dumps (payload_of env saved r))
        → let after = get_valid_access_token redis env b (s', n) in
          (after.0 ≡ next r.access_token) × (after.1.1 ≡ n)
    unfolding get_valid_access_token
    get_valid-found b saved s s' n plain missed meanwhile early free found =
        rw (plain, missed, meanwhile)
          (renew_under_lock-found (record b { force_refresh = false }) saved s n refl early free
            found)

    renewed-free :
        (a : Visit S) (s : S) (now : ℕ)
        → a.released ≡ reply tt
        → a.save_at ≤ now
        → redis.get (second now) access_token_lock (renewed a s) ≡ none
    unfolding renewed release_lock
    renewed-free a s now released late =
        rw released (
          redis.get-delete access_token_lock _ (second a.save_at) (second now)
            (omega (arith, late)))

    -- a call that finds no token, neither before it has the lock nor under it
    get_valid-issued :
        (a : Visit S) (s : S) (n : ℕ)
        → a.token_response ≡ reply r
        → a.force_refresh ≡ false
        → redis.get (second a.lock_at) access_token_lock (a.before_lock s) ≡ none
        → cached_token redis env false a.read_at s ≡ (next none, s)
        → let held =
            redis.set_ex (second a.lock_at) access_token_lock "1" lock_ttl (a.before_lock s) in
          cached_token redis env false a.lock_at held ≡ (next none, held)
          → get_valid_access_token redis env a (s, n) ≡ (next r.access_token, (renewed a s, suc n))
    unfolding get_valid_access_token renew_under_lock distributed_lock acquire_lock renewed
    get_valid-issued a s n answered plain free missed missed_again =
        let held =
          redis.set_ex (second a.lock_at) access_token_lock "1" lock_ttl (a.before_lock s) in
        rw (plain, missed)
          (rw
            (redis.set_nx_ex_free access_token_lock "1" lock_ttl (a.before_lock s)
              (second a.lock_at) free)
            (rw missed_again (
              rw answered
                (rw (save-saved_store env r json expires_at good redis a.save_at held) refl))))

    -- Two workers find no token. One gets the lock, finds none there either, and has it issued and
    -- saved before the other gets the lock: both get that token, and the broker was asked once, since
    -- the second looks again under the lock and sends no request of its own.
    pub get_valid-renewed :
        (a b : Visit S) (s s' : S) (n : ℕ)
        → a.token_response ≡ reply r
        → a.force_refresh ≡ false
        → b.force_refresh ≡ false
        → cached_token redis env false a.read_at s ≡ (next none, s)
        → cached_token redis env false b.read_at s' ≡ (next none, s')
        → redis.get (second a.lock_at) access_token_lock (a.before_lock s) ≡ none
        → (let held =
              redis.set_ex (second a.lock_at) access_token_lock "1" lock_ttl (a.before_lock s) in
            cached_token redis env false a.lock_at held ≡ (next none, held))
        → a.released ≡ reply tt
        → b.before_lock s' ≡ (get_valid_access_token redis env a (s, n)).1.0
        → Early a.save_at expires_at b.lock_at
        → let first_call = get_valid_access_token redis env a (s, n) in
          let second_call = get_valid_access_token redis env b (s', first_call.1.1) in
          (first_call.0 ≡ next r.access_token)
          × (second_call.0 ≡ next r.access_token)
          × (first_call.1.1 ≡ suc n)
          × (second_call.1.1 ≡ suc n)
    get_valid-renewed a b s s' n answered plain_a plain missed_a missed free held_missed released
          meanwhile early =
        let issued = get_valid-issued a s n answered plain_a free missed_a held_missed in
        let found =
          get_valid-found b a.save_at (renewed a s) s' (suc n) plain missed
            (meanwhile ∙ ap (λ p. p.1.0) issued) early
            (renewed-free a s b.lock_at released (omega (arith, early)))
            (renewed-get a s b.lock_at early) in
        rw issued (refl, found.0, refl, found.1)
