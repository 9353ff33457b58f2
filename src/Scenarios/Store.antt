-- ===== src/Scenarios/Store.antt =====
-- A small Redis: each key has at most one value, and the second at which it ends if it has one.
use autotrading.Prelude.{
  ℕ, ◌+◌, ◌≤◌, ◌≡◌, refl, String, Option, none, some, Bool, true, false, ltb, if◌then◌else◌, arith,
}
use autotrading.Redis.{
  Key, key_eq, Redis, kill_switch_key, access_token_key, access_token_lock, rebalance_lock,
  recovery_lock,
}

pub record Entry : Type 0 where
  pub value : String
  pub ends : Option ℕ

abbrev pub Store : Type 0
Store = Key → Option Entry

abbrev alive : ℕ → Option ℕ → Bool
alive t none = true
alive t (some e) = ltb t e

abbrev read : ℕ → Option Entry → Option String
read t none = none
read t (some e) = if alive t e.ends then some e.value else none

abbrev put : Key → Option Entry → Store → Store
put k e s k' = if key_eq k k' then e else s k'

abbrev set_if : ℕ → Key → String → ℕ → Store → Option String → Bool × Store
set_if t k v ttl s none = (true, put k (some (record { value = v; ends = some (t + ttl) })) s)
set_if t k v ttl s (some u) = (false, s)

abbrev key_eq_refl : (k : Key) → key_eq k k ≡ true
key_eq_refl kill_switch_key = refl
key_eq_refl access_token_key = refl
key_eq_refl access_token_lock = refl
key_eq_refl rebalance_lock = refl
key_eq_refl recovery_lock = refl

abbrev entry_later :
    (v : String) (ends : Option ℕ) (t t' : ℕ)
    → t ≤ t'
    → read t (some (record { value = v; ends = ends })) ≡ none
    → read t' (some (record { value = v; ends = ends })) ≡ none
entry_later v none t t' late free = free
entry_later v (some d) t t' late free = ground (arith, late, free)

abbrev read_later : (e : Option Entry) (t t' : ℕ) → t ≤ t' → read t e ≡ none → read t' e ≡ none
read_later none t t' late free = refl
read_later (some e) t t' late free = entry_later e.value e.ends t t' late free

abbrev pub empty_store : Store
empty_store k = none

unfoldable pub redis : Redis Store
redis = record {
  get = λ t k s. read t (s k);
  set = λ t k v. put k (some (record { value = v; ends = none }));
  set_ex = λ t k v ttl. put k (some (record { value = v; ends = some (t + ttl) }));
  set_nx_ex = λ t k v ttl s. set_if t k v ttl s (read t (s k));
  delete = λ t k. put k none;
  get-set = λ k v s t t' late. rw (key_eq_refl k) refl;
  get-set_ex = λ k v ttl s t t' late early. rw (key_eq_refl k) (ground (arith, early));
  get-set_ex_expired = λ k v ttl s t t' late. rw (key_eq_refl k) (ground (arith, late));
  get-delete = λ k s t t' late. rw (key_eq_refl k) refl;
  get_later = λ k s t t' late free. read_later (s k) t t' late free;
  set_nx_ex_free = λ k v ttl s t free. rw free refl;
  set_nx_ex_taken = λ k v u ttl s t taken. rw taken refl;
  get-set_other = λ k k' v s t t' other late. rw other refl;
  get-set_ex_other = λ k k' v ttl s t t' other late. rw other refl;
  get-delete_other = λ k k' s t t' other late. rw other refl;
}
