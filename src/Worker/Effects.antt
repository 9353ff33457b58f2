-- ===== src/Worker/Effects.antt =====
-- What a worker task does to the world, and how it may end. The tables are what the session sees and
-- what is committed; the queues and the logs grow at the front, newest first. A Python `return` in
-- the middle of a body is the outcome `stop`, and an exception is the outcome `raised`.
use autotrading.Prelude.{ℕ, String, Option, none, some, Bool, true, false, List, ◌∷◌}
use autotrading.Domain.{OrderAction, OrderType, OrderStatus}
use autotrading.Orders.Repository.{Table, FailureResult, update_order_failure_result}

-- app/core/exceptions.py: `KISError`; of `payload` the two texts under its key `response`.
pub record Payload : Type 0 where
  pub msg_cd : Option String
  pub msg1 : Option String

pub record KisError : Type 0 where
  pub message : String
  pub rt_cd : Option String
  pub msg_cd : Option String
  pub msg1 : Option String
  pub response : Option Payload

-- any other exception is known by its text
pub data Exn : Type 0 where
  kis_order_error : KisError → Exn
  exception : String → Exn

pub data Outcome (A : Type 0) : Type 0 where
  next : A → Outcome A
  stop : Outcome A
  raised : Exn → Outcome A

-- what the code outside answers to a call
pub data Reply (A : Type 0) : Type 0 where
  reply : A → Reply A
  error : Exn → Reply A

-- what is sent to the broker: cash orders, and amendments of an order that it holds
pub data BrokerCall : Type 0 where
  cash_order : OrderAction → String → ℕ → OrderType → Option String → BrokerCall
  amend_order : String → Option String → OrderType → Bool → ℕ → Option String → Bool → BrokerCall

pub data Message : Type 0 where
  process_order : ℕ → ℕ → Message
  process_order_status : ℕ → ℕ → Option ℕ → ℕ → Message
  capture_rebalance_snapshot : ℕ → Message

pub record World : Type 0 where
  pub table : Table
  pub saved : Table
  pub queue : List Message
  pub published : List ℕ
  pub alerts : List ℕ
  pub calls : List BrokerCall

abbrev pub Action : Type 0 → Type 0
Action A = World → Outcome A × World

infixl 5 ◌>>=◌ ◌>>◌
abbrev pub ◌>>=◌ : {A B : Type 0} → Action A → (A → Action B) → Action B
◌>>=◌ m f w =
    let (r, w') = m w in elim r [ next a ↦ f a w' | stop ↦ (stop, w') | raised e ↦ (raised e, w') ]

abbrev pub ◌>>◌ : {B : Type 0} → Action (Unit {0}) → Action B → Action B
m >> k = m >>= λ _. k

module _ {A : Type 0} where
  abbrev pub pure : A → Action A
  pure a w = (next a, w)

  abbrev pub return : Action A
  return w = (stop, w)

  abbrev pub raise : Exn → Action A
  raise e w = (raised e, w)

  abbrev pub query : (Table → A) → Action A
  query f w = (next (f w.table), w)

  abbrev pub await : Reply A → Action A
  await (reply a) w = (next a, w)
  await (error e) w = (raised e, w)

-- `try: m except Exception as e: h e`
abbrev pub try_except : Action (Unit {0}) → (Exn → Action (Unit {0})) → Action (Unit {0})
try_except m h w =
    let (r, w') = m w in elim r [ next a ↦ (next a, w') | stop ↦ (stop, w') | raised e ↦ h e w' ]

-- an UPDATE statement; the answer is `rowcount > 0`
abbrev pub execute : (Table → Table × Bool) → Action Bool
execute f w = (next (f w.table).1, record w { table = (f w.table).0 })

abbrev pub commit : Action (Unit {0})
commit w = (next tt, record w { saved = w.table })

abbrev pub rollback : Action (Unit {0})
rollback w = (next tt, record w { table = w.saved })

abbrev pub send : Message → Action (Unit {0})
send m w = (next tt, record w { queue = m ∷ w.queue })

-- app/websocket/publisher.py: `publish_order_update` swallows its own exceptions.
abbrev pub publish_order_update : ℕ → Action (Unit {0})
publish_order_update i w = (next tt, record w { published = i ∷ w.published })

abbrev pub alert : ℕ → Action (Unit {0})
alert i w = (next tt, record w { alerts = i ∷ w.alerts })

abbrev pub record_call : BrokerCall → Action (Unit {0})
record_call c w = (next tt, record w { calls = c ∷ w.calls })

-- `if not b: m; return`
abbrev pub unless_return : Bool → Action (Unit {0}) → Action (Unit {0})
unless_return true m = pure tt
unless_return false m = m >> return

abbrev pub raise_if : Bool → Exn → Action (Unit {0})
raise_if true e = raise e
raise_if false e = pure tt

abbrev pub when : Bool → Action (Unit {0}) → Action (Unit {0})
when true m = m
when false m = pure tt

-- A call of `update_order_failure_result`, whose parameter `expected_current_statuses` has no
-- default: without that argument the call raises before it reads the database.
abbrev pub call_update_order_failure_result :
    ℕ → Option (List OrderStatus) → FailureResult → Action Bool
call_update_order_failure_result i none r =
    raise (exception "missing 1 required positional argument: 'expected_current_statuses'")
call_update_order_failure_result i (some expected) r =
    execute (update_order_failure_result i expected r)

-- `KISOrderError(…)`, whose parameter `message` has no default
abbrev pub make_kis_order_error :
    Option String → Option String → Option String → Option String → Option Payload → Exn
make_kis_order_error none rt_cd msg_cd msg1 response =
    exception "missing 1 required positional argument: 'message'"
make_kis_order_error (some message) rt_cd msg_cd msg1 response =
    kis_order_error (record {
      message = message;
      rt_cd = rt_cd;
      msg_cd = msg_cd;
      msg1 = msg1;
      response = response;
    })
