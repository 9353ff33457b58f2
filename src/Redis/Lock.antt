-- ===== src/Redis/Lock.antt =====
-- app/utils/distributed_lock.py: a lock is a key of Redis that is set with a time to live.
pub mod Exclusion
pub mod Context
use autotrading.Prelude.{
  ℕ, ◌+◌, ◌≤◌, ◌<◌, ◌≡◌, String, Option, none, some, Bool, true, false, List, [], ◌∷◌,
}
use autotrading.Worker.Effects.{Exn, exception, Outcome, next, stop, raised, Reply, reply, error}
use autotrading.Redis.{Key, Redis}

abbrev pub lock_acquisition_error : Exn
lock_acquisition_error = exception "LockAcquisitionError"

module _ {S : Type 0} (redis : Redis S) where
  unfoldable pub acquire_lock : ℕ → Key → ℕ → S → Bool × S
  acquire_lock t key ttl_seconds = redis.set_nx_ex t key "1" ttl_seconds

  unfoldable pub release_lock : ℕ → Key → S → S
  release_lock = redis.delete

  -- An error of the release is logged and swallowed.
  abbrev pub try_release : Reply (Unit {0}) → ℕ → Key → S → S
  unfolding release_lock
  try_release (reply tt) t key s = release_lock t key s
  try_release (error e) t key s = s

  -- What `acquire_lock` answers decides whether the body runs; `R` is what else the body may change.
  abbrev pub under_lock :
      {A R : Type 0}
      → Key
      → Reply (Unit {0})
      → (S × R → Outcome A × (S × R) × ℕ)
      → R
      → Bool × S
      → Outcome A × (S × R)
  under_lock key released body r (false, s) = (raised lock_acquisition_error, (s, r))
  under_lock key released body r (true, s) =
      let (outcome, (s', r'), t) = body (s, r) in (outcome, (try_release released t key s', r'))

  -- `async with distributed_lock(…): body`, entered at the second `t`: the body gives its outcome, the
  -- state that it leaves and the second at which it ends.
  unfoldable pub distributed_lock :
      {A R : Type 0}
      → Key
      → ℕ
      → Reply (Unit {0})
      → ℕ
      → (S × R → Outcome A × (S × R) × ℕ)
      → S × R
      → Outcome A × (S × R)
  unfolding acquire_lock
  distributed_lock key ttl_seconds released t body (s, r) =
      under_lock key released body r (acquire_lock t key ttl_seconds s)
