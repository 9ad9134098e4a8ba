-- ===== src/Service/Rules.antt =====
-- How proofs go through a sequence of calls of the service.
use crypto_analytics_platfor.Base.{◌≡◌, refl}
use crypto_analytics_platfor.Base.Result.{Result, ok, err}
use crypto_analytics_platfor.Service.{Service, Action, ◌>>=◌}

-- A condition on the state that a call keeps, whether it returns or raises.
abbrev pub Keeps : {S Source A : Type 0} → (Service S Source → Type 0) → Action S Source A → Type 0
Keeps {S} {Source} P m = (s : Service S Source) → P s → P (m s).1

outcome-Keeps :
    {S Source A B : Type 0} (P : Service S Source → Type 0) (r : Result A × Service S Source)
    (f : A → Action S Source B)
    → P r.1
    → ((a : A) → Keeps P (f a))
    → P
        (let out : Result B × Service S Source = elim r.0 [
          | ok a ↦ f a r.1
          | err e ↦ (err e, r.1)
        ] in
          out).1
outcome-Keeps P (ok a, s) f h k = k a s h
outcome-Keeps P (err e, s) f h k = h

pub bind-Keeps :
    {S Source A B : Type 0} (P : Service S Source → Type 0) (m : Action S Source A)
    (f : A → Action S Source B)
    → Keeps P m
    → ((a : A) → Keeps P (f a))
    → Keeps P (m >>= f)
unfolding ◌>>=◌
bind-Keeps P m f h k s p = outcome-Keeps P (m s) f (h s p) k

-- A condition on the value that a call may give.
abbrev pub Given : {A : Type 0} → (A → Type 0) → Result A → Type 0
Given Q (ok a) = Q a
Given Q (err e) = Unit

given_outcome :
    {S Source A B : Type 0} (P : Service S Source → Type 0) (Q : A → Type 0)
    (r : Result A × Service S Source) (f : A → Action S Source B)
    → P r.1
    → Given Q r.0
    → ((a : A) → Q a → Keeps P (f a))
    → P
        (let out : Result B × Service S Source = elim r.0 [
          | ok a ↦ f a r.1
          | err e ↦ (err e, r.1)
        ] in
          out).1
given_outcome P Q (ok a, s) f h q k = k a q s h
given_outcome P Q (err e, s) f h q k = h

-- The next call keeps the condition on the values that the first one can give.
pub bind_value-Keeps :
    {S Source A B : Type 0} (P : Service S Source → Type 0) (Q : A → Type 0) (m : Action S Source A)
    (f : A → Action S Source B)
    → Keeps P m
    → ((s : Service S Source) → Given Q (m s).0)
    → ((a : A) → Q a → Keeps P (f a))
    → Keeps P (m >>= f)
unfolding ◌>>=◌
bind_value-Keeps P Q m f h q k s p = given_outcome P Q (m s) f (h s p) (q s) k

-- If the call returns, its value and the state after it are so.
abbrev pub Ensures :
    {S Source A : Type 0} → (A → Service S Source → Type 0) → Result A × Service S Source → Type 0
Ensures P (ok a, s) = P a s
Ensures P (err e, s) = Unit

ensured_outcome :
    {S Source A B : Type 0} (P : A → Service S Source → Type 0) (Q : B → Service S Source → Type 0)
    (r : Result A × Service S Source) (f : A → Action S Source B)
    → Ensures P r
    → ((a : A) (s : Service S Source) → P a s → Ensures Q (f a s))
    → Ensures Q (elim r.0 [ ok a ↦ f a r.1 | err e ↦ (err e, r.1) ])
ensured_outcome P Q (ok a, s) f h k = k a s h
ensured_outcome P Q (err e, s) f h k = tt

pub bind-Ensures :
    {S Source A B : Type 0} (P : A → Service S Source → Type 0) (Q : B → Service S Source → Type 0)
    (m : Action S Source A) (f : A → Action S Source B) (s : Service S Source)
    → Ensures P (m s)
    → ((a : A) (s' : Service S Source) → P a s' → Ensures Q (f a s'))
    → Ensures Q ((m >>= f) s)
unfolding ◌>>=◌
bind-Ensures P Q m f s h k = ensured_outcome P Q (m s) f h k

pub any-Ensures :
    {S Source A : Type 0} (r : Result A × Service S Source) → Ensures (λ a s. Unit {0}) r
any-Ensures (ok a, s) = tt
any-Ensures (err e, s) = tt

pub lift-Ensures :
    {S Source A : Type 0} (r : Result A) (s : Service S Source) → Ensures (λ a s'. r ≡ ok a) (r, s)
lift-Ensures (ok a) s = refl
lift-Ensures (err e) s = tt

pub Ensures-mono :
    {S Source A : Type 0} (P Q : A → Service S Source → Type 0) (r : Result A × Service S Source)
    → ((a : A) (s : Service S Source) → P a s → Q a s)
    → Ensures P r
    → Ensures Q r
Ensures-mono P Q (ok a, s) k h = k a s h
Ensures-mono P Q (err e, s) k h = tt

-- What holds of the rest whatever the first call gave.
pub then-Ensures :
    {S Source A B : Type 0} (Q : B → Service S Source → Type 0) (m : Action S Source A)
    (f : A → Action S Source B) (s : Service S Source)
    → ((a : A) (s' : Service S Source) → Ensures Q (f a s'))
    → Ensures Q ((m >>= f) s)
then-Ensures Q m f s k =
    bind-Ensures (λ a s'. Unit {0}) Q m f s (any-Ensures (m s)) (λ a s' _. k a s')
