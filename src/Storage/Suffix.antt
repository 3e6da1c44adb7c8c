-- ===== src/Storage/Suffix.antt =====
-- Which names `validate_upload` takes.
use Prim.Native.Char.{Char, code}
use Prim.Native.String.{◌++◌ as str_append}
use text.Mathlib.TextLemmas.{cons-append, nil-append}
use campus_hr_b.Prelude.{
  ℕ, zero, suc, ◌-◌, ◌≡◌, ◌≢◌, refl, sym, ap, ◌∙◌, inl, inr, ◌↔◌, String, Bool, true, false, none,
  some, ◌&&◌, ◌||◌, not, leb, str_eq, eq_iff, arith, Bool-cases, Option-cases,
}
use campus_hr_b.Session.{ok}
use campus_hr_b.Storage.FilePath.{
  nth, alphabet, is_upper, lower_char, lower, is_dot, name_of, last_dot, dot_here_or, suffix_from,
  suffix_of_name, suffix, split_slash, last_part,
}
use campus_hr_b.Storage.Backends.{UploadFile, allowed_extensions, validate_suffix, validate_upload}

abbrev has_dot : String → Bool
has_dot String.[] = false
has_dot (String.◌∷◌ c s) = is_dot c || has_dot s

-- a letter of a text with no dot is no dot
nth-dot :
    (k : ℕ) (s : String) (d : Char)
    → has_dot s ≡ false
    → is_dot (nth k s d) ≡ true
    → is_dot d ≡ true
unfolding nth
nth-dot k String.[] d n h = h
nth-dot zero (String.◌∷◌ c s) d n h = ground arith
nth-dot (suc k) (String.◌∷◌ c s) d n h = nth-dot k s d (ground arith) h

lower_char-dot : (c : Char) → is_dot (lower_char c) ≡ is_dot c
unfolding lower_char is_upper
lower_char-dot c = elim (Bool-cases (leb b'A' (code c) && leb (code c) b'Z')) [
  | inr other ↦ rw other refl
  | inl upper ↦
      let plain : is_dot c ≡ false = ground arith in
      rw upper (elim (Bool-cases (is_dot (nth (code c - b'A') alphabet c))) [
        | inl dot ↦ absurd (cc (nth-dot (code c - b'A') alphabet c refl dot, plain))
        | inr none' ↦ none' ∙ sym plain
      ])
]

lower-dot : (s : String) → has_dot (lower s) ≡ has_dot s
unfolding lower
lower-dot String.[] = refl
lower-dot (String.◌∷◌ c s) = rw (lower_char-dot c, lower-dot s)

no_dot_found : (s : String) → has_dot s ≡ false → last_dot s ≡ none
unfolding last_dot dot_here_or
no_dot_found String.[] h = refl
no_dot_found (String.◌∷◌ c s) h = ground (arith, no_dot_found s)

-- the last dot of a text that ends in one with no dot after it
last_dot-append :
    (s : String) (c : Char) (e : String)
    → is_dot c ≡ true
    → has_dot e ≡ false
    → last_dot (str_append s (String.◌∷◌ c e)) ≡ some (String.◌∷◌ c e)
unfolding last_dot dot_here_or
last_dot-append String.[] c e d n = rw (nil-append (String.◌∷◌ c e), no_dot_found e n, d) refl
last_dot-append (String.◌∷◌ a s) c e d n =
    rw (cons-append a s (String.◌∷◌ c e), last_dot-append s c e d n) refl

-- what is found is an end of the text
last_dot_end : (s t : String) → last_dot s ≡ some t → (stem : String) × (s ≡ str_append stem t)
unfolding last_dot dot_here_or
last_dot_end String.[] t h = cc
last_dot_end (String.◌∷◌ c s) t h = elim (Option-cases (last_dot s)) [
  | inr (u, e) ↦
      let (stem, same) = last_dot_end s u e in
      let found : u ≡ t = ground (arith, h, e) in
      (String.◌∷◌ c stem, rw (cons-append c stem t) (ap (λ x. String.◌∷◌ c x) (rw found at same)))
  | inl e ↦ elim (Bool-cases (is_dot c)) [
    | inl d ↦
        let found : String.◌∷◌ c s ≡ t = ground (arith, h, e, d) in ("", rw (nil-append t) found)
    | inr n ↦ absurd (ground (arith, h, e, n))
  ]
]

-- a text that is a dot with no other after it
abbrev is_suffix : String → Bool
is_suffix String.[] = false
is_suffix (String.◌∷◌ c e) = is_dot c && not (has_dot e)

is_suffix_of_eq : (t s : String) → str_eq t s ≡ true → is_suffix s ≡ true → is_suffix t ≡ true
is_suffix_of_eq t s h p = rw ((eq_iff t s).0 h) p

allowed_is_suffix : (t : String) → allowed_extensions t ≡ true → is_suffix t ≡ true
allowed_is_suffix t h = elim (Bool-cases (str_eq t ".pdf")) [
  | inl e ↦ is_suffix_of_eq t ".pdf" e refl
  | inr a ↦ elim (Bool-cases (str_eq t ".csv")) [
    | inl e ↦ is_suffix_of_eq t ".csv" e refl
    | inr b ↦ elim (Bool-cases (str_eq t ".doc")) [
      | inl e ↦ is_suffix_of_eq t ".doc" e refl
      | inr c ↦ elim (Bool-cases (str_eq t ".docx")) [
        | inl e ↦ is_suffix_of_eq t ".docx" e refl
        | inr d ↦ absurd (cc (rw (a, b, c, d) at h))
      ]
    ]
  ]
]

-- a suffix that is allowed begins with a dot and has no other
allowed_shape :
    (ext : String)
    → allowed_extensions (lower ext) ≡ true
    → (c : Char) × (e : String) × (ext ≡ String.◌∷◌ c e) × (is_dot c ≡ true) × (has_dot e ≡ false)
unfolding lower
allowed_shape String.[] h = cc
allowed_shape (String.◌∷◌ c e) h =
    let shape : (is_dot (lower_char c) && not (has_dot (lower e))) ≡ true =
      allowed_is_suffix (lower (String.◌∷◌ c e)) h in
    (c, e, refl, ground (arith, shape, lower_char-dot c), ground (arith, shape, lower-dot e))

-- a text of a name and an allowed suffix after it
abbrev pub HasAllowedSuffix : String → Type 0
HasAllowedSuffix name =
    (stem ext : String) × (name ≡ str_append stem ext)
    × (stem ≢ "")
    × (allowed_extensions (lower ext) ≡ true)

allowed-ne :
    (t s : String)
    → allowed_extensions (lower t) ≡ true
    → allowed_extensions (lower s) ≡ false
    → str_eq t s ≡ false
allowed-ne t s h n = elim (Bool-cases (str_eq t s)) [
  | inr other ↦ other
  | inl same ↦ absurd (cc (rw ((eq_iff t s).0 same) at h, n))
]

suffix_found :
    (stem ext : String)
    → stem ≢ ""
    → allowed_extensions (lower ext) ≡ true
    → suffix_of_name (str_append stem ext) ≡ ext
unfolding suffix_of_name suffix_from lower
suffix_found String.[] ext full h = absurd (full refl)
suffix_found (String.◌∷◌ a s) ext full h =
    let (c, e, same, d, n) = allowed_shape ext h in
    let found : last_dot (str_append s ext) ≡ some ext = rw same (last_dot-append s c e d n) in
    rw (cons-append a s ext, found, allowed-ne ext "." h refl) refl

allowed_found :
    (name : String)
    → allowed_extensions (lower (suffix_of_name name)) ≡ true
    → HasAllowedSuffix name
unfolding suffix_of_name suffix_from lower
allowed_found String.[] h = cc
allowed_found (String.◌∷◌ c s) h = elim (Option-cases (last_dot s)) [
  | inl e ↦ absurd (cc (rw e at h))
  | inr (t, e) ↦ elim (Bool-cases (str_eq t ".")) [
    | inl dot ↦ absurd (cc (rw (e, dot) at h))
    | inr other ↦
        let (stem, same) = last_dot_end s t e in
        (
          String.◌∷◌ c stem,
          t,
          rw (cons-append c stem t) (ap (λ x. String.◌∷◌ c x) same),
          (λ p. cc p),
          rw (e, other) at h,
        )
  ]
]

taken_named :
    (file : UploadFile) (filename : String)
    → file.filename ≡ some filename
    → validate_upload file ≡ ok tt
    → HasAllowedSuffix (name_of filename)
unfolding validate_upload validate_suffix suffix
taken_named file filename e h = elim (Bool-cases (str_eq filename "")) [
  | inl blank ↦ absurd (cc (rw (e, blank) at h))
  | inr full ↦ elim (Bool-cases (allowed_extensions (lower (suffix_of_name (name_of filename))))) [
    | inl allowed ↦ allowed_found (name_of filename) allowed
    | inr other ↦ absurd (cc (rw (e, full, other) at h))
  ]
]

taken_back :
    (file : UploadFile) (filename : String)
    → file.filename ≡ some filename
    → HasAllowedSuffix (name_of filename)
    → validate_upload file ≡ ok tt
unfolding validate_upload validate_suffix suffix name_of split_slash last_part lower suffix_of_name
taken_back file filename e (stem, ext, same, full, allowed) =
    let found : suffix_of_name (name_of filename) ≡ ext =
      rw same (suffix_found stem ext full allowed) in
    elim (Bool-cases (str_eq filename "")) [
      | inl blank ↦
          let empty : filename ≡ "" = (eq_iff filename "").0 blank in
          absurd (cc (rw (sym found, empty) at allowed))
      | inr named ↦ rw (e, named, found, allowed) refl
    ]

-- An upload is taken exactly if it has a file name and the last part of that name is a text that is
-- not empty with ".pdf", ".csv", ".doc" or ".docx" after it, in letters of either case.
pub validate_upload_decides :
    (file : UploadFile)
    → (validate_upload file ≡ ok tt) ↔ (
        (filename : String) × (file.filename ≡ some filename) × HasAllowedSuffix (name_of filename))
unfolding validate_upload
validate_upload_decides file = (
  (λ h. elim (Option-cases file.filename) [
    | inl e ↦ absurd (cc (rw e at h))
    | inr (filename, e) ↦ (filename, e, taken_named file filename e h)
  ]),
  (λ (filename, e, shape). taken_back file filename e shape),
)
