-- ===== src/Table/Every.antt =====
-- What is true of every row of a table, after the queries and the changes.
use campus_hr_b.Prelude.{◌≡◌, Bool, some, List, [], ◌∷◌, ◌++◌, Bool-cases, inl, inr}
use campus_hr_b.Table.{first, update_where}
use campus_hr_b.Table.Order.{AllRows}

module _ {ℓ} {A : Type ℓ} (P : A → Type 0) where
  pub AllRows-append_one : (xs : List A) (a : A) → AllRows P xs → P a → AllRows P (xs ++ a ∷ [])
  AllRows-append_one [] a all p = (p, tt)
  AllRows-append_one (x ∷ xs) a all p = (all.0, AllRows-append_one xs a all.1 p)

  pub AllRows-found :
      (p : A → Bool) (xs : List A) {a : A} → AllRows P xs → first p xs ≡ some a → P a
  unfolding first
  AllRows-found p [] all e = cc
  AllRows-found p (x ∷ xs) all e = elim (Bool-cases (p x)) [
    | inl hit ↦ rw (some_of (rw hit at e)) at all.0
    | inr miss ↦ AllRows-found p xs all.1 (rw miss at e)
  ]
    where
      some_of : {x y : A} → some x ≡ some y → x ≡ y
      some_of q = cc q

  pub AllRows-update_where :
      (p : A → Bool) (f : A → A) (xs : List A)
      → ((a : A) → P a → P (f a))
      → AllRows P xs
      → AllRows P (update_where p f xs)
  unfolding update_where
  AllRows-update_where p f [] keep all = tt
  AllRows-update_where p f (x ∷ xs) keep all = elim (Bool-cases (p x)) [
    | inl hit ↦ rw hit (keep x all.0, AllRows-update_where p f xs keep all.1)
    | inr miss ↦ rw miss (all.0, AllRows-update_where p f xs keep all.1)
  ]
