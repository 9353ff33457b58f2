-- ===== src/Api/Http.antt =====
-- A handler of FastAPI: it reads and changes the world that it shares with the workers, and ends with an
-- answer, with the status of an `HTTPException`, or with any other exception.
use autotrading.Prelude.{ℕ, Option, none, some, Bool, true, false, ◌∷◌}
use autotrading.Orders.Row.{Order}
use autotrading.Orders.Repository.{Table, create_order}
use autotrading.Worker.Effects.{Exn, Reply, reply, error, World, Message}

pub data Response (A : Type 0) : Type 0 where
  answer : A → Response A
  http_exception : ℕ → Response A
  server_error : Exn → Response A

abbrev pub Handler : Type 0 → Type 0
Handler A = World → Response A × World

infixl 5 ◌>>=◌ ◌>>◌
abbrev pub ◌>>=◌ : {A B : Type 0} → Handler A → (A → Handler B) → Handler B
◌>>=◌ m f w =
    let (r, w') = m w in
    elim r [
      | answer a ↦ f a w'
      | http_exception n ↦ (http_exception n, w')
      | server_error e ↦ (server_error e, w')
    ]

abbrev pub ◌>>◌ : {B : Type 0} → Handler (Unit {0}) → Handler B → Handler B
m >> k = m >>= λ _. k

module _ {A : Type 0} where
  abbrev pub pure : A → Handler A
  pure a w = (answer a, w)

  abbrev pub query : (Table → A) → Handler A
  query f w = (answer (f w.table), w)

  abbrev pub await : Reply A → Handler A
  await (reply a) w = (answer a, w)
  await (error e) w = (server_error e, w)

  -- a check that gives the value it has checked
  abbrev pub check : Response A → Handler A
  check r w = (r, w)

-- `raise HTTPException`, with the status that a check has found
abbrev pub require : Option ℕ → Handler (Unit {0})
require none w = (answer tt, w)
require (some status_code) w = (http_exception status_code, w)

abbrev pub insert : Order → Handler (Unit {0})
unfolding create_order
insert row w = (answer tt, record w { table = create_order row w.table })

abbrev pub commit : Handler (Unit {0})
commit w = (answer tt, record w { saved = w.table })

-- app/websocket/publisher.py: `publish_order_update` swallows its own exceptions.
abbrev pub publish_order_update : ℕ → Handler (Unit {0})
publish_order_update i w = (answer tt, record w { published = i ∷ w.published })

abbrev pub delay : Message → Handler (Unit {0})
delay m w = (answer tt, record w { queue = m ∷ w.queue })

abbrev pub when : Bool → Handler (Unit {0}) → Handler (Unit {0})
when true m = m
when false m = pure tt
