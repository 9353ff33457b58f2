-- ===== src/Redis/KillSwitch.antt =====
-- app/services/safety/kill_switch_service.py and app/api/router_safety.py: the switch that blocks all
-- trading is one key of Redis.
pub mod Refines
use autotrading.Prelude.{
  ℕ, ◌≤◌, ◌+◌, ◌≡◌, String, Option, none, some, Bool, true, false, List, [], ◌∷◌, if◌then◌else◌,
  codes, codes_eq,
}
use autotrading.Redis.{Key, kill_switch_key, key_eq, Redis}

pub record SwitchState : Type 0 where
  pub enabled : Bool
  pub message : String

abbrev pub is_one : Option String → Bool
is_one none = false
is_one (some value) = codes_eq (codes value) (codes "1")

module _ {S : Type 0} (redis : Redis S) where
  -- Redis gives the bytes of the text, which are decoded.
  unfoldable pub is_on : ℕ → S → Bool
  is_on t s = is_one (redis.get t kill_switch_key s)

  unfoldable pub turn_on : ℕ → S → S
  turn_on t = redis.set t kill_switch_key "1"

  unfoldable pub turn_off : ℕ → S → S
  turn_off t = redis.set t kill_switch_key "0"

  unfoldable pub set_state : ℕ → Bool → S → S
  set_state t enabled = redis.set t kill_switch_key (if enabled then "1" else "0")

  unfoldable pub get_state : ℕ → S → SwitchState
  unfolding is_on
  get_state t s =
      let enabled = is_on t s in
      record {
        enabled = enabled;
        message = if enabled then "trading is blocked" else "trading is allowed";
      }

  -- the route, whose two commands run at the seconds `t` and `t'`
  unfoldable pub update_kill_switch : ℕ → ℕ → Bool → S → SwitchState × S
  unfolding set_state get_state
  update_kill_switch t t' enabled s = let s' = set_state t enabled s in (get_state t' s', s')
