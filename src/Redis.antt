-- ===== src/Redis.antt =====
-- The server Redis, which the lock, the kill switch and the token cache share. It is no code of the
-- repository: a record of the commands that the code sends, each with the second at which the server
-- runs it, and of what the documentation of Redis says of them.
pub mod Lock
pub mod KillSwitch
use autotrading.Prelude.{ℕ, ◌+◌, ◌≤◌, ◌<◌, ◌≡◌, String, Option, none, some, Bool, true, false}

-- The keys that the code uses.
pub data Key : Type 0 where
  kill_switch_key access_token_key access_token_lock rebalance_lock recovery_lock : Key

abbrev pub key_eq : Key → Key → Bool
key_eq kill_switch_key kill_switch_key = true
key_eq access_token_key access_token_key = true
key_eq access_token_lock access_token_lock = true
key_eq rebalance_lock rebalance_lock = true
key_eq recovery_lock recovery_lock = true
key_eq _ _ = false

pub record Redis (S : Type 0) : Type 0 where
  pub get : ℕ → Key → S → Option String
  pub set : ℕ → Key → String → S → S
  pub set_ex : ℕ → Key → String → ℕ → S → S
  pub set_nx_ex : ℕ → Key → String → ℕ → S → Bool × S
  pub delete : ℕ → Key → S → S
  -- a value without a time to live stays, one with it lives that many seconds
  pub get-set : (k : Key) (v : String) (s : S) (t t' : ℕ) → t ≤ t' → get t' k (set t k v s) ≡ some v
  pub get-set_ex :
      (k : Key) (v : String) (ttl : ℕ) (s : S) (t t' : ℕ)
      → t ≤ t'
      → t' < t + ttl
      → get t' k (set_ex t k v ttl s) ≡ some v
  pub get-set_ex_expired :
      (k : Key) (v : String) (ttl : ℕ) (s : S) (t t' : ℕ)
      → t + ttl ≤ t'
      → get t' k (set_ex t k v ttl s) ≡ none
  pub get-delete : (k : Key) (s : S) (t t' : ℕ) → t ≤ t' → get t' k (delete t k s) ≡ none
  -- a key that is free stays free until a command sets it
  pub get_later : (k : Key) (s : S) (t t' : ℕ) → t ≤ t' → get t k s ≡ none → get t' k s ≡ none
  -- SET with NX and EX sets a key that is free, and no other
  pub set_nx_ex_free :
      (k : Key) (v : String) (ttl : ℕ) (s : S) (t : ℕ)
      → get t k s ≡ none
      → set_nx_ex t k v ttl s ≡ (true, set_ex t k v ttl s)
  pub set_nx_ex_taken :
      (k : Key) (v u : String) (ttl : ℕ) (s : S) (t : ℕ)
      → get t k s ≡ some u
      → set_nx_ex t k v ttl s ≡ (false, s)
  -- a command leaves the other keys alone
  pub get-set_other :
      (k k' : Key) (v : String) (s : S) (t t' : ℕ)
      → key_eq k k' ≡ false
      → t ≤ t'
      → get t' k' (set t k v s) ≡ get t' k' s
  pub get-set_ex_other :
      (k k' : Key) (v : String) (ttl : ℕ) (s : S) (t t' : ℕ)
      → key_eq k k' ≡ false
      → t ≤ t'
      → get t' k' (set_ex t k v ttl s) ≡ get t' k' s
  pub get-delete_other :
      (k k' : Key) (s : S) (t t' : ℕ)
      → key_eq k k' ≡ false
      → t ≤ t'
      → get t' k' (delete t k s) ≡ get t' k' s
