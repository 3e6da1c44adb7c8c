-- ===== src/Table/Order.antt =====
-- `order_by(column.desc())` only reorders the rows, and leaves none that is older than a later one.
use campus_hr_b.Prelude.{
  ℕ, ◌+◌, ◌≡◌, ◌≤◌, refl, Bool, true, false, List, [], ◌∷◌, arith, leb, Bool-cases, inl, inr, ◌&&◌,
}
use native.Mathlib.Nat.{le_trans}
use campus_hr_b.Table.{insert_desc, order_by_desc, filter}
use campus_hr_b.Table.Count.{count, to_nat}

le_of_leb : (a b : ℕ) → leb a b ≡ true → a ≤ b
le_of_leb a b h = ground arith

le_of_not_leb : (a b : ℕ) → leb a b ≡ false → b ≤ a
le_of_not_leb a b h = ground arith

module _ {ℓ} {A : Type ℓ} where
  abbrev pub AllRows : (A → Type 0) → List A → Type 0
  AllRows P [] = Unit
  AllRows P (x ∷ xs) = P x × AllRows P xs

  -- newest first
  abbrev pub IsNewestFirst : (A → ℕ) → List A → Type 0
  IsNewestFirst at [] = Unit
  IsNewestFirst at (x ∷ xs) = AllRows (λ y. at y ≤ at x) xs × IsNewestFirst at xs

  AllRows-insert_desc :
      (P : A → Type 0) (at : A → ℕ) (x : A) (ys : List A)
      → P x
      → AllRows P ys
      → AllRows P (insert_desc at x ys)
  unfolding insert_desc
  AllRows-insert_desc P at x [] p ps = (p, tt)
  AllRows-insert_desc P at x (y ∷ ys) p ps = elim (Bool-cases (leb (at y) (at x))) [
    | inl older ↦ rw older (p, ps)
    | inr newer ↦ rw newer (ps.0, AllRows-insert_desc P at x ys p ps.1)
  ]

  AllRows-weaken :
      (P Q : A → Type 0) (xs : List A) → ((a : A) → P a → Q a) → AllRows P xs → AllRows Q xs
  AllRows-weaken P Q [] h ps = tt
  AllRows-weaken P Q (x ∷ xs) h ps = (h x ps.0, AllRows-weaken P Q xs h ps.1)

  insert_desc-IsNewestFirst :
      (at : A → ℕ) (x : A) (ys : List A)
      → IsNewestFirst at ys
      → IsNewestFirst at (insert_desc at x ys)
  unfolding insert_desc
  insert_desc-IsNewestFirst at x [] s = (tt, tt)
  insert_desc-IsNewestFirst at x (y ∷ ys) s = elim (Bool-cases (leb (at y) (at x))) [
    | inl older ↦ rw older (
      (
        le_of_leb (at y) (at x) older,
        AllRows-weaken (λ z. at z ≤ at y) (λ z. at z ≤ at x) ys
            (λ z h. le_trans h (le_of_leb (at y) (at x) older)) s.0,
      ),
      s,
    )
    | inr newer ↦ rw newer (
      AllRows-insert_desc (λ z. at z ≤ at y) at x ys (le_of_not_leb (at y) (at x) newer) s.0,
      insert_desc-IsNewestFirst at x ys s.1,
    )
  ]

  pub order_by_desc-IsNewestFirst :
      (at : A → ℕ) (xs : List A) → IsNewestFirst at (order_by_desc at xs)
  unfolding order_by_desc
  order_by_desc-IsNewestFirst at [] = tt
  order_by_desc-IsNewestFirst at (x ∷ xs) =
      insert_desc-IsNewestFirst at x (order_by_desc at xs) (order_by_desc-IsNewestFirst at xs)

  count-insert_desc :
      (at : A → ℕ) (p : A → Bool) (x : A) (ys : List A)
      → count p (insert_desc at x ys) ≡ to_nat (p x) + count p ys
  unfolding insert_desc count
  count-insert_desc at p x [] = refl
  count-insert_desc at p x (y ∷ ys) = ground (arith, count-insert_desc at p x ys)

  -- ordering the rows loses none and adds none
  pub count-order_by_desc :
      (at : A → ℕ) (p : A → Bool) (xs : List A) → count p (order_by_desc at xs) ≡ count p xs
  unfolding order_by_desc count
  count-order_by_desc at p [] = refl
  count-order_by_desc at p (x ∷ xs) =
      ground (arith, count-insert_desc at p x (order_by_desc at xs), count-order_by_desc at p xs)

  pub count-filter :
      (q p : A → Bool) (xs : List A) → count p (filter q xs) ≡ count (λ a. q a && p a) xs
  unfolding filter count
  count-filter q p [] = refl
  count-filter q p (x ∷ xs) = ground (arith, count-filter q p xs)

  pub AllRows-filter :
      (P : A → Type 0) (q : A → Bool) (xs : List A)
      → ((a : A) → q a ≡ true → P a)
      → AllRows P (filter q xs)
  unfolding filter
  AllRows-filter P q [] h = tt
  AllRows-filter P q (x ∷ xs) h = elim (Bool-cases (q x)) [
    | inl yes' ↦ rw yes' (h x yes', AllRows-filter P q xs h)
    | inr no' ↦ rw no' (AllRows-filter P q xs h)
  ]
