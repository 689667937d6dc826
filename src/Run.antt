-- ===== src/Run.antt =====
-- How a call ends: with a value, in `exit` by asmerr with bAbort (src/main.c), or in a step for
-- which C defines no behaviour. panic ends the program too.
use dasm.Base.{◌≡◌, refl}
use dasm.Errors.{AsmError}

pub data Run {ℓ} (A : Type ℓ) : Type ℓ where
  ok : A → Run A
  exit : AsmError → Run A
  panicked undefined : Run A

infixl 5 ◌>>=◌
abbrev pub ◌>>=◌ {ℓ κ} : {A : Type ℓ} {B : Type κ} → Run A → (A → Run B) → Run B
ok a >>= f = f a
exit e >>= f = exit e
panicked >>= f = panicked
undefined >>= f = undefined

pub bind-eq-ok {ℓ κ} :
    {A : Type ℓ} {B : Type κ} (m : Run A) (f : A → Run B) {b : B}
    → (m >>= f) ≡ ok b
    → (a : A) × (m ≡ ok a) × (f a ≡ ok b)
bind-eq-ok (ok a) f h = (a, refl, h)
bind-eq-ok (exit e) f h = cc
bind-eq-ok panicked f h = cc
bind-eq-ok undefined f h = cc

pub bind_assoc {ℓ} :
    {A B C : Type ℓ} (m : Run A) (f : A → Run B) (g : B → Run C)
    → ((m >>= f) >>= g) ≡ (m >>= λ a. f a >>= g)
bind_assoc (ok a) f g = refl
bind_assoc (exit e) f g = refl
bind_assoc panicked f g = refl
bind_assoc undefined f g = refl
