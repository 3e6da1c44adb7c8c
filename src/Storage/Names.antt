-- ===== src/Storage/Names.antt =====
-- The name under which a file is saved has no slash, whatever the name of the upload is.
use Prim.Native.Char.{Char}
use Prim.Native.String.{◌++◌ as str_append}
use campus_hr_b.Prelude.{
  ℕ, zero, suc, ◌/◌, ◌%◌, ◌≤◌, ◌<◌, not, ◌≡◌, refl, sym, ◌∙◌, String, Bool, true, false, some, List,
  [], ◌∷◌, str_eq, arith, Bool-cases, Option-cases, inl, inr,
}
use campus_hr_b.Table.Order.{AllRows}
use campus_hr_b.Common.Uuid.{digit, hex_onto, dash, to_text}
use campus_hr_b.Common.Uuid.RoundTrip.{holds_below, holds_at}
use campus_hr_b.Storage.FilePath.{
  is_slash, is_dot, onto_first, split_slash, last_part, name_of, dot_here_or, last_dot, suffix_from,
  suffix_of_name, suffix,
}
use campus_hr_b.Storage.Slashes.{slashes, slashes-append}

abbrev plain_digit : ℕ → Bool
plain_digit d = not (is_slash (digit d))

digits-plain : holds_below 16 plain_digit ≡ true
unfolding holds_below digit
digits-plain = refl

digit-slash : (d : ℕ) → d < 16 → is_slash (digit d) ≡ false
digit-slash d small =
    let plain = holds_at 16 plain_digit d digits-plain small in
    elim (Bool-cases (is_slash (digit d))) [ inr h ↦ h | inl cut ↦ absurd (cc (rw cut at plain)) ]

hex_onto-slashes : (k n : ℕ) (rest : String) → slashes (hex_onto k n rest) ≡ slashes rest
unfolding hex_onto slashes
hex_onto-slashes zero n rest = refl
hex_onto-slashes (suc k) n rest =
    hex_onto-slashes k (n / 16) (String.◌∷◌ (digit (n % 16)) rest)
    ∙ rw (digit-slash (n % 16) (omega arith)) (omega arith)

-- none of the parts has a slash
split_slash-slashes : (s : String) → AllRows (λ part. slashes part ≡ 0) (split_slash s)
unfolding split_slash slashes
split_slash-slashes String.[] = (refl, tt)
split_slash-slashes (String.◌∷◌ c s) = elim (Bool-cases (is_slash c)) [
  | inl cut ↦ rw cut (refl, split_slash-slashes s)
  | inr plain ↦ rw plain (first_part c plain (split_slash s) (split_slash-slashes s))
]
  where
    first_part :
        (c : Char)
        → is_slash c ≡ false
        → (parts : List String) → AllRows (λ part. slashes part ≡ 0) parts
        → AllRows (λ part. slashes part ≡ 0) (onto_first c parts)
    first_part c plain [] all = (rw plain refl, tt)
    first_part c plain (part ∷ parts) all = (rw (plain, all.0) refl, all.1)

last_part-slashes :
    (seen : String) (parts : List String)
    → slashes seen ≡ 0
    → AllRows (λ part. slashes part ≡ 0) parts
    → slashes (last_part seen parts) ≡ 0
unfolding last_part
last_part-slashes seen [] h all = h
last_part-slashes seen (part ∷ parts) h all = elim (Bool-cases (str_eq part "")) [
  | inl e ↦ rw e (last_part-slashes seen parts h all.1)
  | inr n ↦ elim (Bool-cases (str_eq part ".")) [
    | inl e ↦ rw (n, e) (last_part-slashes seen parts h all.1)
    | inr n' ↦ rw (n, n') (last_part-slashes part parts all.0 all.1)
  ]
]

-- what is found from the last dot on
last_dot-slashes : (s t : String) → last_dot s ≡ some t → slashes t ≤ slashes s
unfolding last_dot dot_here_or slashes
last_dot-slashes String.[] t h = cc
last_dot-slashes (String.◌∷◌ c s) t h = elim (Option-cases (last_dot s)) [
  | inr (u, e) ↦
      let same : u ≡ t = some_of (rw e at h) in
      rw (sym same) (omega (arith, last_dot-slashes s u e))
  | inl e ↦ elim (Bool-cases (is_dot c)) [
    | inl d ↦
        let same : String.◌∷◌ c s ≡ t = some_of (rw (e, d) at h) in rw (sym same) (omega arith)
    | inr n ↦ absurd (cc (rw (e, n) at h))
  ]
]
  where
    some_of : {a b : String} → some a ≡ some b → a ≡ b
    some_of q = cc q

empty : slashes "" ≡ 0
unfolding slashes
empty = refl

suffix_of_name-slashes : (s : String) → slashes s ≡ 0 → slashes (suffix_of_name s) ≡ 0
unfolding suffix_of_name suffix_from slashes
suffix_of_name-slashes String.[] h = refl
suffix_of_name-slashes (String.◌∷◌ c s) h = elim (Option-cases (last_dot s)) [
  | inl e ↦ rw e refl
  | inr (t, e) ↦ elim (Bool-cases (str_eq t ".")) [
    | inl dot ↦ rw (e, dot) refl
    | inr other ↦ rw (e, other) (omega (arith, h, last_dot-slashes s t e))
  ]
]

suffix-slashes : (s : String) → slashes (suffix s) ≡ 0
unfolding suffix name_of
suffix-slashes s =
    suffix_of_name-slashes (name_of s)
      (last_part-slashes "" (split_slash s) empty (split_slash-slashes s))

dash-slashes : (rest : String) → slashes (dash rest) ≡ slashes rest
unfolding dash slashes
dash-slashes rest = omega arith

to_text-slashes : (k : ℕ) → slashes (to_text k) ≡ 0
unfolding to_text
to_text-slashes k =
    hex_onto-slashes 8 _ _
    ∙ dash-slashes _
    ∙ hex_onto-slashes 4 _ _
    ∙ dash-slashes _
    ∙ hex_onto-slashes 4 _ _
    ∙ dash-slashes _
    ∙ hex_onto-slashes 4 _ _
    ∙ dash-slashes _
    ∙ hex_onto-slashes 12 _ _
    ∙ empty

pub saved_name-slashes : (k : ℕ) (s : String) → slashes (str_append (to_text k) (suffix s)) ≡ 0
saved_name-slashes k s =
    omega (arith, slashes-append (to_text k) (suffix s), to_text-slashes k, suffix-slashes s)
