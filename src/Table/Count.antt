-- ===== src/Table/Count.antt =====
-- How many rows satisfy a test, and how the count moves when a row is added.
use campus_hr_b.Prelude.{
  ℕ, ◌+◌, ◌≡◌, ◌≤◌, refl, Bool, true, false, none, some, List, [], ◌∷◌, ◌++◌, arith, ◌==◌, sym,
}
use mathlib.Core.Path.{subst}
use native.Mathlib.Decide.{ℕ_discrete}
use campus_hr_b.Table.{first}

abbrev pub to_nat : Bool → ℕ
to_nat true = 1
to_nat false = 0

module _ {ℓ} {A : Type ℓ} where
  unfoldable pub count : (A → Bool) → List A → ℕ
  count p [] = 0
  count p (x ∷ xs) = to_nat (p x) + count p xs

  pub count-append_one :
      (p : A → Bool) (xs : List A) (a : A) → count p (xs ++ a ∷ []) ≡ count p xs + to_nat (p a)
  unfolding count
  count-append_one p [] a = omega arith
  count-append_one p (x ∷ xs) a = omega (arith, count-append_one p xs a)

  -- no row is found exactly if none is counted
  pub count_zero_of_missing : (p : A → Bool) (xs : List A) → first p xs ≡ none → count p xs ≡ 0
  unfolding count first
  count_zero_of_missing p [] h = refl
  count_zero_of_missing p (x ∷ xs) h = ground (arith, count_zero_of_missing p xs)

  pub missing_of_count_zero : (p : A → Bool) (xs : List A) → count p xs ≡ 0 → first p xs ≡ none
  unfolding count first
  missing_of_count_zero p [] h = refl
  missing_of_count_zero p (x ∷ xs) h = ground (arith, missing_of_count_zero p xs)

  pub found_passes : (p : A → Bool) (xs : List A) {r : A} → first p xs ≡ some r → p r ≡ true
  unfolding first
  found_passes p [] h = cc
  found_passes p (x ∷ xs) {r} h = ground (arith, found_passes p xs {r = r})

  -- a row that is found is counted by every test that it passes
  pub count_pos_of_found :
      (p q : A → Bool) (xs : List A) {r : A} → first p xs ≡ some r → q r ≡ true → 1 ≤ count q xs
  unfolding count first
  count_pos_of_found p q [] h e = cc
  count_pos_of_found p q (x ∷ xs) {r} h e = ground (arith, count_pos_of_found p q xs {r = r})

  -- two tests that agree count alike
  pub count_congr : (p q : A → Bool) (xs : List A) → ((a : A) → p a ≡ q a) → count p xs ≡ count q xs
  unfolding count
  count_congr p q [] h = refl
  count_congr p q (x ∷ xs) h = ground (arith, h x, count_congr p q xs h)

-- Rows under a numeric key.
module _ {ℓ} {A : Type ℓ} (key : A → ℕ) where
  abbrev pub has_key : ℕ → A → Bool
  has_key k a = key a == k

  -- a row of a fresh key keeps the key unique
  pub count-append_fresh :
      (xs : List A) (a : A) (j : ℕ)
      → count (has_key (key a)) xs ≡ 0
      → count (has_key j) xs ≤ 1
      → count (has_key j) (xs ++ a ∷ []) ≤ 1
  count-append_fresh xs a j fresh h = elim (ℕ_discrete j (key a)) [
    | yes e ↦
        subst (λ i. count (has_key i) (xs ++ a ∷ []) ≤ 1) (sym e)
          (ground (arith, count-append_one (has_key (key a)) xs a))
    | no ne ↦ ground (arith, count-append_one (has_key j) xs a)
  ]
