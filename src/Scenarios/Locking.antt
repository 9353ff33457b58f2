-- ===== src/Scenarios/Locking.antt =====
-- Workers at the lock, and turns of the kill switch (app/utils/distributed_lock.py,
-- app/services/safety/kill_switch_service.py).
use autotrading.Prelude.{◌≤◌, refl, true, false, List, [], ◌∷◌, length}
use autotrading.Worker.Effects.{reply}
use autotrading.Redis.{rebalance_lock}
use autotrading.Redis.Lock.Exclusion.{
  Event, enter, leave, crash, wait, run, punctual, run-exclusion,
}
use autotrading.Redis.KillSwitch.Refines.{
  SwitchEvent, on, off, set_to, set_nx_ex_other, pass, flips, happens, Shows, happens-Shows,
  unset-Shows,
}
use autotrading.Scenarios.Store.{redis, empty_store}

-- the second worker is refused, enters after the first has left, and dies inside
abbrev visits : List (Event redis rebalance_lock 600)
visits =
    enter 1
    ∷ wait 500
    ∷ enter 2
    ∷ leave 1 (reply tt)
    ∷ enter 2
    ∷ wait 599
    ∷ enter 1
    ∷ crash 2
    ∷ wait 1
    ∷ enter 1
    ∷ []

run-exclusion_example :
    length
      (run redis rebalance_lock 600 visits
        (record { now = 0; store = empty_store; holders = [] })).holders
    ≤ 1
run-exclusion_example =
    run-exclusion redis rebalance_lock 600 visits 0 empty_store (unfold punctual redis in refl)

turns : List SwitchEvent
turns =
    on ∷ pass 3600 ∷ set_nx_ex_other rebalance_lock refl "1" 60 ∷ off ∷ set_to true ∷ pass 60 ∷ []

happens-Shows_example : Shows redis (flips turns false) (happens redis turns (0, empty_store))
happens-Shows_example =
    happens-Shows redis turns false (0, empty_store)
      (unset-Shows redis 0 empty_store (unfold redis in refl))
