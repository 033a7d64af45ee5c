-- ===== src/Session/Surface/Ensures.antt =====
-- What holds of the value of a result, through a chain of checks (session/surface.go: Project).
use awesome_go_agents.Base.{◌≡◌}
use mathlib.Core.Path.{subst}
use awesome_go_agents.Session.Errors.{Error, Result, ok, err, ◌>>=◌, ok-injective}

-- What holds of the value of a result, if there is one.
pub data Ensures {ℓ κ} {A : Type ℓ} (P : A → Type κ) : Result A → Type (ℓ ⊔ κ) where
  good : {a : A} → P a → Ensures P (ok a)
  bad : {e : Error} → Ensures P (err e)

pub bind {ℓ κ μ} :
    {A : Type ℓ} {B : Type κ} {P : B → Type μ} (m : Result A) (f : A → Result B)
    → ((a : A) → Ensures P (f a))
    → Ensures P (m >>= f)
bind (ok a) f h = h a
bind (err e) f h = bad

pub value {ℓ κ} :
    {A : Type ℓ} {P : A → Type κ} {r : Result A} (b : A) → Ensures P r → r ≡ ok b → P b
value {P = P} b (good {a = a} h) e = subst P (ok-injective a b e) h
value b bad e = absurd (cc)
