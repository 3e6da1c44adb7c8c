-- ===== src/Results.antt =====
-- Chains of results without a state, for the pure functions of the services that may raise.
use campus_hr_b.Session.{Result, ok, err}

infixl 5 ◌>>=◌
abbrev pub ◌>>=◌ {ℓ κ} : {A : Type ℓ} {B : Type κ} → Result A → (A → Result B) → Result B
ok a >>= f = f a
err e >>= f = err e
