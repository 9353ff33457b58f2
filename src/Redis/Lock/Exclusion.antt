-- ===== src/Redis/Lock/Exclusion.antt =====
-- Workers that share a lock of app/utils/distributed_lock.py: who is inside, and when.
use autotrading.Prelude.{
  ℕ, ◌+◌, ◌≤◌, ◌<◌, ◌≡◌, refl, Bool, true, false, not, ◌&&◌, List, [], ◌∷◌, some, none, inl, inr,
  all, any, filter, length, map, ltb, ◌==◌, if◌then◌else◌, Option-cases, Bool-cases, arith, ◌∙◌,
}
use autotrading.Worker.Effects.{Reply, reply}
use autotrading.Redis.{Key, Redis}
use autotrading.Redis.Lock.{acquire_lock, release_lock, try_release}

-- a worker inside, and the second at which it entered
pub record Holder : Type 0 where
  pub worker : ℕ
  pub since : ℕ

pub record Site (S : Type 0) : Type 0 where
  pub now : ℕ
  pub store : S
  pub holders : List Holder

module _ {S : Type 0} (redis : Redis S) (key : Key) (ttl : ℕ) where
  -- what a command on another key does
  abbrev pub Untouched : (S → S) → ℕ → S → Type 0
  Untouched f t s = (t' : ℕ) → t ≤ t' → redis.get t' key (f s) ≡ redis.get t' key s

  -- A worker tries the lock, leaves the body that the lock guards (its release may fail), or dies in it;
  -- time passes; or the store is changed at other keys.
  pub data Event : Type 0 where
    enter : ℕ → Event
    leave : ℕ → Reply (Unit {0}) → Event
    crash : ℕ → Event
    wait : ℕ → Event
    elsewhere : (f : S → S) → ((t : ℕ) (s : S) → Untouched f t s) → Event

  abbrev is_worker : ℕ → Holder → Bool
  is_worker i h = h.worker == i

  abbrev pub without : ℕ → List Holder → List Holder
  without i holders = filter (λ h. not (is_worker i h)) holders

  abbrev pub inside : ℕ → List Holder → Bool
  inside i holders = any (is_worker i) holders

  -- what `acquire_lock` answers decides
  abbrev entered : ℕ → Bool × S → Site S → Site S
  entered i (true, s) site = record site {
    store = s;
    holders = record { worker = i; since = site.now } ∷ site.holders;
  }
  entered i (false, s) site = record site { store = s }

  unfoldable pub advance : Event → Site S → Site S
  unfolding acquire_lock release_lock
  advance (enter i) site = entered i (acquire_lock redis site.now key ttl site.store) site
  advance (leave i released) site =
      if inside i site.holders
      then record site {
        store = try_release redis released site.now key site.store;
        holders = without i site.holders;
      }
      else site
  advance (crash i) site = record site { holders = without i site.holders }
  advance (wait d) site = record site { now = site.now + d }
  advance (elsewhere f other) site = record site { store = f site.store }

  unfoldable pub run : List Event → Site S → Site S
  unfolding advance
  run [] site = site
  run (e ∷ events) site = run events (advance e site)

  -- nobody inside has been there for as long as the time to live
  abbrev pub in_time : Site S → Bool
  in_time site = all (λ h. ltb site.now (h.since + ttl)) site.holders

  -- and so all along a run
  unfoldable pub punctual : List Event → Site S → Bool
  unfolding advance
  punctual [] site = in_time site
  punctual (e ∷ events) site = in_time site && punctual events (advance e site)

  -- Nobody is inside, or one worker, for whom the key is there to the end of its time.
  abbrev Guarded : ℕ → S → List Holder → Type 0
  Guarded now s [] = Unit
  Guarded now s (h ∷ []) = (t : ℕ) → now ≤ t → t < h.since + ttl → redis.get t key s ≡ some "1"
  Guarded now s (h ∷ h' ∷ rest) = ⊥

  abbrev SiteGuarded : Site S → Type 0
  SiteGuarded site = Guarded site.now site.store site.holders

  entered-Guarded :
      (i now : ℕ) (s : S) (holders : List Holder)
      → in_time (record { now = now; store = s; holders = holders }) ≡ true
      → Guarded now s holders
      → SiteGuarded (
          entered i
            (redis.set_nx_ex now key "1" ttl s)
            (record { now = now; store = s; holders = holders }))
  entered-Guarded i now s [] early guarded = elim (Option-cases (redis.get now key s)) [
    | inl free ↦
        rw (redis.set_nx_ex_free key "1" ttl s now free)
          (λ t from to. redis.get-set_ex key "1" ttl s now t from to)
    | inr (u, taken) ↦ rw (redis.set_nx_ex_taken key "1" u ttl s now taken) tt
  ]
  entered-Guarded i now s (h ∷ []) early guarded =
      rw
        (redis.set_nx_ex_taken key "1" "1" ttl s now
          (guarded now (omega arith) (ground (arith, early))))
        guarded
  entered-Guarded i now s (h ∷ h' ∷ rest) early guarded = absurd guarded

  advance-Guarded :
      (e : Event) (now : ℕ) (s : S) (holders : List Holder)
      → in_time (record { now = now; store = s; holders = holders }) ≡ true
      → Guarded now s holders
      → SiteGuarded (advance e (record { now = now; store = s; holders = holders }))
  unfolding advance acquire_lock
  advance-Guarded (enter i) now s holders early guarded =
      entered-Guarded i now s holders early guarded
  advance-Guarded (leave i released) now s [] early guarded = tt
  advance-Guarded (leave i released) now s (h ∷ []) early guarded =
      elim (Bool-cases (h.worker == i)) [ inl e ↦ rw e tt | inr e ↦ rw e guarded ]
  advance-Guarded (leave i released) now s (h ∷ h' ∷ rest) early guarded = absurd guarded
  advance-Guarded (crash i) now s [] early guarded = tt
  advance-Guarded (crash i) now s (h ∷ []) early guarded = elim (Bool-cases (h.worker == i)) [
    | inl e ↦ rw e tt
    | inr e ↦ rw e guarded
  ]
  advance-Guarded (crash i) now s (h ∷ h' ∷ rest) early guarded = absurd guarded
  advance-Guarded (wait d) now s [] early guarded = tt
  advance-Guarded (wait d) now s (h ∷ []) early guarded = λ t from to. guarded t (omega arith) to
  advance-Guarded (wait d) now s (h ∷ h' ∷ rest) early guarded = absurd guarded
  advance-Guarded (elsewhere f other) now s [] early guarded = tt
  advance-Guarded (elsewhere f other) now s (h ∷ []) early guarded =
      λ t from to. other now s t from ∙ guarded t from to
  advance-Guarded (elsewhere f other) now s (h ∷ h' ∷ rest) early guarded = absurd guarded

  run-Guarded :
      (events : List Event) (site : Site S)
      → punctual events site ≡ true
      → SiteGuarded site
      → SiteGuarded (run events site)
  unfolding run punctual
  run-Guarded [] site early guarded = guarded
  run-Guarded (e ∷ events) site early guarded =
      run-Guarded events (advance e site) (ground (arith, early))
        (advance-Guarded e site.now site.store site.holders (ground (arith, early)) guarded)

  -- As long as nobody stays inside for its whole time to live, at most one worker is inside the lock,
  -- whatever the order of entries, leaves, failed releases, crashes and commands on other keys.
  pub run-exclusion :
      (events : List Event) (now : ℕ) (s : S)
      → let start : Site S = record { now = now; store = s; holders = [] } in
        punctual events start ≡ true → length (run events start).holders ≤ 1
  run-exclusion events now s early =
      let start : Site S = record { now = now; store = s; holders = [] } in
      let site = run events start in
      few site.now site.store site.holders (run-Guarded events start early tt)
    where
      few : (now : ℕ) (s : S) (holders : List Holder) → Guarded now s holders → length holders ≤ 1
      few now s [] guarded = omega arith
      few now s (h ∷ []) guarded = omega arith
      few now s (h ∷ h' ∷ rest) guarded = absurd guarded

  -- If the first worker stays for its whole time to live, a second one gets in; the first, when it leaves,
  -- takes the second's key away, and a third gets in while the second is still within its time.
  pub stale_release :
      (now : ℕ) (s : S)
      → redis.get now key s ≡ none
      → 0 < ttl
      → let after =
          run
            (enter 1 ∷ wait ttl ∷ enter 2 ∷ leave 1 (reply tt) ∷ enter 3 ∷ [])
            (record { now = now; store = s; holders = [] }) in
        (map (λ h. h.worker) after.holders ≡ 3 ∷ 2 ∷ []) × (in_time after ≡ true)
  unfolding run advance acquire_lock release_lock
  stale_release now s free positive = rw (redis.set_nx_ex_free key "1" ttl s now free) (
      rw
        (redis.set_nx_ex_free key "1" ttl (redis.set_ex now key "1" ttl s) (now + ttl)
          (redis.get-set_ex_expired key "1" ttl s now (now + ttl) (omega arith)))
        (rw
          (redis.set_nx_ex_free key "1" ttl _ (now + ttl) (
            redis.get-delete key
              (redis.set_ex (now + ttl) key "1" ttl (redis.set_ex now key "1" ttl s)) (now + ttl)
              (now + ttl) (omega arith)))
          (refl, ground arith)))
