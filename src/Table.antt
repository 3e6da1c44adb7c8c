-- ===== src/Table.antt =====
-- A table of a service's database: its rows in the order in which they were added. The operations
-- are the SQLAlchemy calls that the services make of it.
pub mod Count
pub mod Rows
pub mod Order
pub mod Every
use campus_hr_b.Prelude.{ℕ, Bool, Option, none, some, List, [], ◌∷◌, leb, if◌then◌else◌}

module _ {ℓ} {A : Type ℓ} where
  -- `query.filter(p).first()`
  unfoldable pub first : (A → Bool) → List A → Option A
  first p [] = none
  first p (x ∷ xs) = if p x then some x else first p xs

  -- `query.filter(p).all()`
  unfoldable pub filter : (A → Bool) → List A → List A
  filter p [] = []
  filter p (x ∷ xs) = let rest = filter p xs in if p x then x ∷ rest else rest

  -- an attribute of a mapped object is set: the rows of `p`, which is that object's key, change
  unfoldable pub update_where : (A → Bool) → (A → A) → List A → List A
  update_where p f [] = []
  update_where p f (x ∷ xs) = (if p x then f x else x) ∷ update_where p f xs

  -- the row goes before the first one that is not newer
  unfoldable pub insert_desc : (A → ℕ) → A → List A → List A
  insert_desc at x [] = x ∷ []
  insert_desc at x (y ∷ ys) =
      let later = y ∷ insert_desc at x ys in if leb (at y) (at x) then x ∷ y ∷ ys else later

  -- `query.order_by(column.desc())`
  unfoldable pub order_by_desc : (A → ℕ) → List A → List A
  unfolding insert_desc
  order_by_desc at [] = []
  order_by_desc at (x ∷ xs) = insert_desc at x (order_by_desc at xs)
