-- ===== src/Worker/Track/Snapshot.antt =====
-- app/worker/tasks_order_status.py: what `_extract_order_tracking_snapshot` reads from the row of an
-- order.
use autotrading.Prelude.{ℕ, ◌+◌, ◌≤◌, ◌<◌, ◌≡◌, arith}
use autotrading.Domain.{OrderStatus, failed, accepted, partial_filled, filled, canceled}
use autotrading.Worker.Track.{row_filled_qty}

-- A row whose parts do not exceed the order, which has a quantity.
pub record IsConsistent (order_qty remaining canceled_qty rejected : ℕ) : Type 0 where
  pub positive : 0 < order_qty
  pub within : remaining + canceled_qty + rejected ≤ order_qty

-- What the status of a consistent row says about its quantities.
abbrev pub Describes : OrderStatus → ℕ → ℕ → ℕ → ℕ → Type 0
Describes filled remaining done canceled_qty rejected =
    (remaining ≡ 0) × (canceled_qty ≡ 0) × (rejected ≡ 0)
Describes canceled remaining done canceled_qty rejected = (remaining ≡ 0) × (0 < canceled_qty)
Describes failed remaining done canceled_qty rejected =
    (remaining ≡ 0) × (canceled_qty ≡ 0) × (0 < rejected)
Describes partial_filled remaining done canceled_qty rejected = (0 < remaining) × (0 < done)
Describes accepted remaining done canceled_qty rejected = (0 < remaining) × (done ≡ 0)
Describes _ remaining done canceled_qty rejected = ⊥

module _ (order_qty remaining canceled_qty rejected : ℕ) where
  abbrev done : ℕ
  done = row_filled_qty order_qty remaining canceled_qty rejected

  -- For a row of the broker with a positive quantity that its open, canceled and refused parts do
  -- not exceed, the filled quantity that is computed makes up the whole order with these three.
  pub row_filled_qty-conserves :
      IsConsistent order_qty remaining canceled_qty rejected
      → done + remaining + canceled_qty + rejected ≡ order_qty
  row_filled_qty-conserves c = omega arith
