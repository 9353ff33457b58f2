-- ===== src/Worker/Rules.antt =====
-- Rules for the tasks' monad: what holds of the world after a bind and after a `try`.
use autotrading.Prelude.{◌≡◌, refl, ap}
use autotrading.Worker.Effects.{Exn, Outcome, next, stop, raised, World, Action, ◌>>=◌, try_except}

-- The world after `m >>= f` is the world after `m`, or that after `f` on what `m` returned.
pub >>=-world :
    {A B : Type 0} (P : World → Type 0) (m : Action A) (f : A → Action B) (w : World)
    → P (m w).1
    → ((a : A) → (m w).0 ≡ next a → P (f a (m w).1).1)
    → P ((m >>= f) w).1
>>=-world {A} {B} P m f w h k = go (m w) h k
  where
    go :
        (p : Outcome A × World)
        → P p.1
        → ((a : A) → p.0 ≡ next a → P (f a p.1).1)
        → P (((λ (v : World). p) >>= f) w).1
    go (next a, v) h k = k a refl
    go (stop, v) h k = h
    go (raised e, v) h k = h

pub try_except-world :
    (P : World → Type 0) (m : Action (Unit {0})) (f : Exn → Action (Unit {0})) (w : World)
    → P (m w).1
    → ((e : Exn) → (m w).0 ≡ raised e → P (f e (m w).1).1)
    → P (try_except m f w).1
try_except-world P m f w h k = go (m w) h k
  where
    go :
        (p : Outcome (Unit {0}) × World)
        → P p.1
        → ((e : Exn) → p.0 ≡ raised e → P (f e p.1).1)
        → P (try_except (λ v. p) f w).1
    go (next a, v) h k = h
    go (stop, v) h k = h
    go (raised e, v) h k = k e refl

-- A bind goes on with what its first part returned.
pub >>=-next :
    {A B : Type 0} (m : Action A) (f : A → Action B) (w v : World) (a : A)
    → m w ≡ (next a, v)
    → (m >>= f) w ≡ f a v
>>=-next {A} m f w v a h = ap (λ (p : Outcome A × World). ((λ (x : World). p) >>= f) w) h
