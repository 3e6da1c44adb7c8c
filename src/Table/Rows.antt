-- ===== src/Table/Rows.antt =====
-- A row is written through its primary key: what that does to the counts and to the rows found.
use campus_hr_b.Prelude.{
  ◌+◌, ◌≡◌, ◌≤◌, refl, Bool, true, false, none, some, List, [], ◌∷◌, ◌++◌, arith, ◌==◌,
  if◌then◌else◌,
}
use campus_hr_b.Table.{first, update_where, filter}
use campus_hr_b.Table.Count.{count, to_nat, count_pos_of_found}

module _ {ℓ} {A : Type ℓ} where
  pub update_where_absent :
      (p : A → Bool) (f : A → A) (xs : List A) → count p xs ≡ 0 → update_where p f xs ≡ xs
  unfolding count update_where
  update_where_absent p f [] h = refl
  update_where_absent p f (x ∷ xs) h = ground (arith, update_where_absent p f xs)

  -- a count that the write cannot change
  pub count-update_where_same :
      (q p : A → Bool) (f : A → A) (xs : List A)
      → ((a : A) → p a ≡ true → q (f a) ≡ q a)
      → count q (update_where p f xs) ≡ count q xs
  unfolding count update_where
  count-update_where_same q p f [] h = refl
  count-update_where_same q p f (x ∷ xs) h = ground (arith, h x, count-update_where_same q p f xs h)

  -- the write of one row, found by any test: the count loses the old row and gains the new one
  pub count-update_where_found :
      (q p k : A → Bool) (f : A → A) (xs : List A) {r : A}
      → count k xs ≤ 1
      → first p xs ≡ some r
      → k r ≡ true
      → count q (update_where k f xs) + to_nat (q r) ≡ count q xs + to_nat (q (f r))
  unfolding count update_where first
  count-update_where_found q p k f [] u h e = cc
  count-update_where_found q p k f (x ∷ xs) {r} u h e = ground (
    arith,
    count-update_where_found q p k f xs {r = r},
    update_where_absent k f xs,
    count_pos_of_found p k xs {r = r},
  )

  -- a list that neither the old row nor the new one is in
  pub filter-update_where_found :
      (q p k : A → Bool) (f : A → A) (xs : List A) {r : A}
      → count k xs ≤ 1
      → first p xs ≡ some r
      → k r ≡ true
      → q r ≡ false
      → q (f r) ≡ false
      → filter q (update_where k f xs) ≡ filter q xs
  unfolding count update_where first filter
  filter-update_where_found q p k f [] u h e a b = cc
  filter-update_where_found q p k f (x ∷ xs) {r} u h e a b = ground (
    arith,
    filter-update_where_found q p k f xs {r = r},
    update_where_absent k f xs,
    count_pos_of_found p k xs {r = r},
  )

  pub filter-append_one_not :
      (q : A → Bool) (xs : List A) (a : A) → q a ≡ false → filter q (xs ++ a ∷ []) ≡ filter q xs
  unfolding filter
  filter-append_one_not q [] a h = rw h
  filter-append_one_not q (x ∷ xs) a h = ground (arith, filter-append_one_not q xs a h)

  -- the row of another key is found as before
  pub first-update_where_other :
      (p k : A → Bool) (f : A → A) (xs : List A)
      → ((a : A) → k a ≡ true → (p a ≡ false) × (p (f a) ≡ false))
      → first p (update_where k f xs) ≡ first p xs
  unfolding first update_where
  first-update_where_other p k f [] h = refl
  first-update_where_other p k f (x ∷ xs) h =
      ground (arith, h x, first-update_where_other p k f xs h)

  -- the row written is found again, with the change
  pub first-update_where_self :
      (k : A → Bool) (f : A → A) (xs : List A)
      → ((a : A) → k (f a) ≡ k a)
      → {r : A} → first k xs ≡ some r
      → first k (update_where k f xs) ≡ some (f r)
  unfolding first update_where
  first-update_where_self k f [] same h = cc
  first-update_where_self k f (x ∷ xs) same {r} h =
      ground (arith, same x, first-update_where_self k f xs same {r = r})

  pub first-append_one :
      (p : A → Bool) (xs : List A) (a : A)
      → first p (xs ++ a ∷ [])
        ≡ (if count p xs == 0 then (if p a then some a else none) else first p xs)
  unfolding first count
  first-append_one p [] a = refl
  first-append_one p (x ∷ xs) a = ground (arith, first-append_one p xs a)

  -- the row found by one test and written by another is found again, with the change
  pub first-update_where_found :
      (p k : A → Bool) (f : A → A) (xs : List A)
      → ((a : A) → p (f a) ≡ p a)
      → {r : A} → first p xs ≡ some r
      → k r ≡ true
      → first p (update_where k f xs) ≡ some (f r)
  unfolding first update_where
  first-update_where_found p k f [] same h e = cc
  first-update_where_found p k f (x ∷ xs) same {r} h e =
      ground (arith, same x, first-update_where_found p k f xs same {r = r})

  pub first-update_where_missed :
      (p k : A → Bool) (f : A → A) (xs : List A)
      → ((a : A) → p (f a) ≡ p a)
      → {r : A} → first p xs ≡ some r
      → k r ≡ false
      → first p (update_where k f xs) ≡ some r
  unfolding first update_where
  first-update_where_missed p k f [] same h e = cc
  first-update_where_missed p k f (x ∷ xs) same {r} h e =
      ground (arith, same x, first-update_where_missed p k f xs same {r = r})

  pub first-append_found :
      (p : A → Bool) (xs : List A) (a : A) {r : A}
      → first p xs ≡ some r
      → first p (xs ++ a ∷ []) ≡ some r
  unfolding first
  first-append_found p [] a h = cc
  first-append_found p (x ∷ xs) a {r} h = ground (arith, first-append_found p xs a {r = r})
