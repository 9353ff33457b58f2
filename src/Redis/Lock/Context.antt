-- ===== src/Redis/Lock/Context.antt =====
-- The context manager of app/utils/distributed_lock.py.
use autotrading.Prelude.{ℕ, ◌≡◌, ◌≤◌, ◌+◌, ◌∙◌, refl, ap, true, String, some, none}
use autotrading.Worker.Effects.{Outcome, raised, Reply, reply, error}
use autotrading.Redis.{Key, Redis}
use autotrading.Redis.Lock.{
  under_lock, distributed_lock, lock_acquisition_error, acquire_lock, release_lock,
}

module _ {S A R : Type 0} (redis : Redis S) (key : Key) (ttl t : ℕ)
    (body : S × R → Outcome A × (S × R) × ℕ) (s : S) (r : R) where
  -- If the key is there, the body does not run, the store stays, and the caller gets the error.
  pub distributed_lock-taken :
      (released : Reply (Unit {0})) (v : String)
      → redis.get t key s ≡ some v
      → distributed_lock redis key ttl released t body (s, r)
        ≡ (raised lock_acquisition_error, (s, r))
  unfolding distributed_lock acquire_lock
  distributed_lock-taken released v taken =
      ap (under_lock redis key released body r) (redis.set_nx_ex_taken key "1" v ttl s t taken)

  entering :
      (released : Reply (Unit {0}))
      → redis.get t key s ≡ none
      → distributed_lock redis key ttl released t body (s, r)
        ≡ under_lock redis key released body r (true, redis.set_ex t key "1" ttl s)
  unfolding distributed_lock acquire_lock
  entering released free =
      ap (under_lock redis key released body r) (redis.set_nx_ex_free key "1" ttl s t free)

  -- If the key is free, the body runs on the store with the key in it, and the caller gets the body's own
  -- outcome, an exception included and whether or not the release fails. If the body leaves the key
  -- alone, it is free once both the body has ended and the time to live has passed, even if the release
  -- has failed.
  pub distributed_lock-outcome :
      (released : Reply (Unit {0})) (after : ℕ)
      → redis.get t key s ≡ none
      → (body (redis.set_ex t key "1" ttl s, r)).2 ≤ after
      → redis.get after key (body (redis.set_ex t key "1" ttl s, r)).1.0
        ≡ redis.get after key (redis.set_ex t key "1" ttl s)
      → t + ttl ≤ after
      → ((distributed_lock redis key ttl released t body (s, r)).0
          ≡ (body (redis.set_ex t key "1" ttl s, r)).0)
        × (redis.get after key (distributed_lock redis key ttl released t body (s, r)).1.0 ≡ none)
  unfolding release_lock
  distributed_lock-outcome (reply u) after free late kept expired =
      rw (entering (reply u) free) (refl, redis.get-delete key _ _ after late)
  distributed_lock-outcome (error e) after free late kept expired =
      rw (entering (error e) free)
        (refl, kept ∙ redis.get-set_ex_expired key "1" ttl s t after expired)
