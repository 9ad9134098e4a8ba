-- ===== src/Pipeline/Rules.antt =====
-- How proofs go through a sequence of calls of a task.
use crypto_analytics_platfor.Base.{◌≡◌, refl}
use crypto_analytics_platfor.Base.Result.{Result, ok, err}
use crypto_analytics_platfor.Pipeline.{Task, ◌>>=◌}

-- If the call returns, its value and the state after it are so.
abbrev pub Ensures : {S A : Type 0} → (A → S → Type 0) → Result A × S → Type 0
Ensures P (ok a, s) = P a s
Ensures P (err e, s) = Unit

outcome :
    {S A B : Type 0} (P : A → S → Type 0) (Q : B → S → Type 0) (r : Result A × S) (f : A → Task S B)
    → Ensures P r
    → ((a : A) (s : S) → P a s → Ensures Q (f a s))
    → Ensures Q (elim r.0 [ ok a ↦ f a r.1 | err e ↦ (err e, r.1) ])
outcome P Q (ok a, s) f h k = k a s h
outcome P Q (err e, s) f h k = tt

pub bind-Ensures :
    {S A B : Type 0} (P : A → S → Type 0) (Q : B → S → Type 0) (m : Task S A) (f : A → Task S B)
    (s : S)
    → Ensures P (m s)
    → ((a : A) (s' : S) → P a s' → Ensures Q (f a s'))
    → Ensures Q ((m >>= f) s)
unfolding ◌>>=◌
bind-Ensures P Q m f s h k = outcome P Q (m s) f h k

pub lift-Ensures :
    {S A : Type 0} (r : Result A) (s : S) → Ensures (λ a s'. (r ≡ ok a) × (s' ≡ s)) (r, s)
lift-Ensures (ok a) s = (refl, refl)
lift-Ensures (err e) s = tt

pub Ensures-mono :
    {S A : Type 0} (P Q : A → S → Type 0) (r : Result A × S)
    → ((a : A) (s : S) → P a s → Q a s)
    → Ensures P r
    → Ensures Q r
Ensures-mono P Q (ok a, s) k h = k a s h
Ensures-mono P Q (err e, s) k h = tt

any-Ensures : {S A : Type 0} (r : Result A × S) → Ensures (λ a s. Unit {0}) r
any-Ensures (ok a, s) = tt
any-Ensures (err e, s) = tt

-- What holds of the rest whatever the first call gave.
pub then-Ensures :
    {S A B : Type 0} (Q : B → S → Type 0) (m : Task S A) (f : A → Task S B) (s : S)
    → ((a : A) (s' : S) → Ensures Q (f a s'))
    → Ensures Q ((m >>= f) s)
then-Ensures Q m f s k =
    bind-Ensures (λ a s'. Unit {0}) Q m f s (any-Ensures (m s)) (λ a s' _. k a s')
