-- ===== src/Redis/KillSwitch/Refines.antt =====
-- The kill switch (app/services/safety/kill_switch_service.py) against a switch that is a Boolean.
use autotrading.Prelude.{
  ℕ, ◌≡◌, ◌≤◌, ◌+◌, ap, ◌∙◌, String, none, Bool, true, false, List, [], ◌∷◌, arith, Option-cases,
  inl, inr,
}
use autotrading.Redis.{Key, key_eq, kill_switch_key, Redis}
use autotrading.Redis.KillSwitch.{
  is_on, is_one, turn_on, turn_off, set_state, get_state, update_kill_switch,
}

-- what happens to the switch and around it: a command on another key, or time that passes
pub data SwitchEvent : Type 0 where
  on off : SwitchEvent
  set_to : Bool → SwitchEvent
  set_other : (k : Key) → key_eq k kill_switch_key ≡ false → String → SwitchEvent
  delete_other : (k : Key) → key_eq k kill_switch_key ≡ false → SwitchEvent
  set_ex_other : (k : Key) → key_eq k kill_switch_key ≡ false → String → ℕ → SwitchEvent
  set_nx_ex_other : (k : Key) → key_eq k kill_switch_key ≡ false → String → ℕ → SwitchEvent
  pass : ℕ → SwitchEvent

-- the switch as its users see it
abbrev pub flip : SwitchEvent → Bool → Bool
flip on b = true
flip off b = false
flip (set_to c) b = c
flip _ b = b

abbrev pub flips : List SwitchEvent → Bool → Bool
flips [] b = b
flips (e ∷ events) b = flips events (flip e b)

module _ {S : Type 0} (redis : Redis S) where
  unfoldable pub happen : SwitchEvent → ℕ × S → ℕ × S
  unfolding turn_on turn_off set_state
  happen on (t, s) = (t, turn_on redis t s)
  happen off (t, s) = (t, turn_off redis t s)
  happen (set_to b) (t, s) = (t, set_state redis t b s)
  happen (set_other k other v) (t, s) = (t, redis.set t k v s)
  happen (delete_other k other) (t, s) = (t, redis.delete t k s)
  happen (set_ex_other k other v ttl) (t, s) = (t, redis.set_ex t k v ttl s)
  happen (set_nx_ex_other k other v ttl) (t, s) = (t, (redis.set_nx_ex t k v ttl s).1)
  happen (pass d) (t, s) = (t + d, s)

  unfoldable pub happens : List SwitchEvent → ℕ × S → ℕ × S
  unfolding happen
  happens [] site = site
  happens (e ∷ events) site = happens events (happen e site)

  -- From now on, until a command on its key, the switch reads `b`.
  unfoldable pub Shows : Bool → ℕ × S → Type 0
  Shows b (t, s) = (t' : ℕ) → t ≤ t' → is_on redis t' s ≡ b

  set_state-Shows : (b : Bool) (t : ℕ) (s : S) → Shows b (t, set_state redis t b s)
  unfolding Shows is_on set_state
  set_state-Shows true t s = λ t' late. ap is_one (redis.get-set kill_switch_key "1" s t t' late)
  set_state-Shows false t s = λ t' late. ap is_one (redis.get-set kill_switch_key "0" s t t' late)

  happen-Shows :
      (e : SwitchEvent) (b : Bool) (t : ℕ) (s : S)
      → Shows b (t, s)
      → Shows (flip e b) (happen e (t, s))
  unfolding Shows happen is_on turn_on turn_off set_state
  happen-Shows on b t s shows = λ t' late. ap is_one (redis.get-set kill_switch_key "1" s t t' late)
  happen-Shows off b t s shows =
      λ t' late. ap is_one (redis.get-set kill_switch_key "0" s t t' late)
  happen-Shows (set_to c) b t s shows = set_state-Shows c t s
  happen-Shows (set_other k other v) b t s shows = λ t' late.
      ap is_one (redis.get-set_other k kill_switch_key v s t t' other late) ∙ shows t' late
  happen-Shows (delete_other k other) b t s shows = λ t' late.
      ap is_one (redis.get-delete_other k kill_switch_key s t t' other late) ∙ shows t' late
  happen-Shows (set_ex_other k other v ttl) b t s shows = λ t' late.
      ap is_one (redis.get-set_ex_other k kill_switch_key v ttl s t t' other late) ∙ shows t' late
  happen-Shows (set_nx_ex_other k other v ttl) b t s shows = λ t' late.
      elim (Option-cases (redis.get t k s)) [
        | inl free ↦ rw (redis.set_nx_ex_free k v ttl s t free) (
            ap is_one (redis.get-set_ex_other k kill_switch_key v ttl s t t' other late)
            ∙ shows t' late)
        | inr (u, taken) ↦ rw (redis.set_nx_ex_taken k v u ttl s t taken) (shows t' late)
      ]
  happen-Shows (pass d) b t s shows = λ t' late. shows t' (omega (arith, late))

  -- A switch that was never set reads off.
  pub unset-Shows : (t : ℕ) (s : S) → redis.get t kill_switch_key s ≡ none → Shows false (t, s)
  unfolding Shows is_on
  unset-Shows t s free = λ t' late. ap is_one (redis.get_later kill_switch_key s t t' late free)

  -- The switch in Redis is a Boolean: after any sequence of turns, of commands on other keys (SET, SET
  -- with EX, SET with NX and EX, and DEL, the commands by which the program changes Redis) and of waiting,
  -- it reads, then and later, what the same turns make of what it read before.
  pub happens-Shows :
      (events : List SwitchEvent) (b : Bool) (site : ℕ × S)
      → Shows b site
      → Shows (flips events b) (happens events site)
  unfolding happens
  happens-Shows [] b site shows = shows
  happens-Shows (e ∷ events) b (t, s) shows =
      happens-Shows events (flip e b) (happen e (t, s)) (happen-Shows e b t s shows)

  -- The route answers with the state that it was asked for, and a later reading of the state, with any
  -- turns of the switch, commands on other keys and waiting in between, gives what the turns make of it.
  pub update_kill_switch_lem :
      (t t' : ℕ) (b : Bool) (s : S) (events : List SwitchEvent)
      → t ≤ t'
      → let after = happens events (t', (update_kill_switch redis t t' b s).1) in
        ((update_kill_switch redis t t' b s).0.enabled ≡ b)
        × ((get_state redis after.0 after.1).enabled ≡ flips events b)
  unfolding update_kill_switch get_state Shows happen
  update_kill_switch_lem t t' b s events late =
      let reads : (t'' : ℕ) → t ≤ t'' → is_on redis t'' (set_state redis t b s) ≡ b =
        set_state-Shows b t s in
      (
        reads t' late,
        happens-Shows events b (t', set_state redis t b s)
            (λ t'' later. reads t'' (omega (arith, late, later))) _ (omega arith),
      )
