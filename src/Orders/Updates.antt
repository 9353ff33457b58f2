-- ===== src/Orders/Updates.antt =====
-- What the guarded updates of app/repository/order_repository.py do to the rows of the table.
use mathlib.Core.Option
use autotrading.Prelude.{
  ℕ, ◌≡◌, refl, Option, none, some, Bool, false, ◌&&◌, [], ◌∷◌, any, arith, if◌then◌else◌, ◌==◌,
}
use autotrading.Orders.Row.{Order}
use autotrading.Orders.Repository.{Table, update_where, get_order_by_id}

-- the row after the statement
abbrev pub changed : (Order → Bool) → (Order → Order) → Order → Order
changed p f o = if p o then f o else o

-- A statement that keeps the id changes just the row that is read.
pub get_order_by_id-update_where :
    (i : ℕ) (p : Order → Bool) (f : Order → Order) (t : Table)
    → ((o : Order) → (f o).id ≡ o.id)
    → get_order_by_id i (update_where p f t).0 ≡ Option.map (changed p f) (get_order_by_id i t)
unfolding get_order_by_id update_where
get_order_by_id-update_where i p f [] keep = refl
get_order_by_id-update_where i p f (o ∷ t) keep =
    ground (arith, keep o, get_order_by_id-update_where i p f t keep)

-- No row has an id of its own twice.
abbrev pub UniqueIds : Table → Type 0
UniqueIds [] = Unit
UniqueIds (o ∷ t) = (get_order_by_id o.id t ≡ none) × UniqueIds t

any-none :
    (i : ℕ) (q : Order → Bool) (t : Table)
    → get_order_by_id i t ≡ none
    → any (λ o. o.id == i && q o) t ≡ false
unfolding get_order_by_id
any-none i q [] h = refl
any-none i q (o ∷ t) h = ground (arith, any-none i q t)

get_order_by_id-none :
    (i : ℕ) (p : Order → Bool) (f : Order → Order) (t : Table)
    → ((o : Order) → (f o).id ≡ o.id)
    → get_order_by_id i t ≡ none
    → get_order_by_id i (update_where p f t).0 ≡ none
get_order_by_id-none i p f t keep h = rw (get_order_by_id-update_where i p f t keep, h)

-- A statement that keeps the ids keeps them different.
pub update_where-UniqueIds :
    (p : Order → Bool) (f : Order → Order) (t : Table)
    → ((o : Order) → (f o).id ≡ o.id)
    → UniqueIds t
    → UniqueIds (update_where p f t).0
unfolding update_where
update_where-UniqueIds p f [] keep u = tt
update_where-UniqueIds p f (o ∷ t) keep u =
    (rw same_id (get_order_by_id-none o.id p f t keep u.0), update_where-UniqueIds p f t keep u.1)
  where
    same_id : (changed p f o).id ≡ o.id
    same_id = ground (arith, keep o)

abbrev pub test_row : (Order → Bool) → Option Order → Bool
test_row q none = false
test_row q (some o) = q o

-- The row count of a statement on one id tells whether that row meets the rest of the condition.
pub rowcount :
    (i : ℕ) (q : Order → Bool) (f : Order → Order) (t : Table)
    → UniqueIds t
    → (update_where (λ o. o.id == i && q o) f t).1 ≡ test_row q (get_order_by_id i t)
unfolding get_order_by_id update_where
rowcount i q f [] u = refl
rowcount i q f (o ∷ t) u = ground (arith, rowcount i q f t u.1, any-none i q t)

-- A statement that meets no row changes nothing.
pub update_where-none :
    (p : Order → Bool) (f : Order → Order) (t : Table)
    → (update_where p f t).1 ≡ false
    → (update_where p f t).0 ≡ t
unfolding update_where
update_where-none p f [] h = refl
update_where-none p f (o ∷ t) h = ground (arith, update_where-none p f t)

-- The id that a row is found by is its own.
pub get_order_by_id-id : (i : ℕ) (t : Table) (o : Order) → get_order_by_id i t ≡ some o → o.id ≡ i
unfolding get_order_by_id
get_order_by_id-id i [] o h = cc
get_order_by_id-id i (r ∷ t) o h = ground (arith, get_order_by_id-id i t o)
