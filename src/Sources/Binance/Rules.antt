-- ===== src/Sources/Binance/Rules.antt =====
-- How proofs go through a sequence of calls that may raise.
use crypto_analytics_platfor.Base.{◌≡◌, refl, ap}
use crypto_analytics_platfor.Base.Result.{Result, ok, err}
use crypto_analytics_platfor.Sources.Binance.{Session, Action, ◌>>=◌}

-- If the call returns, its value and the state after it are so.
abbrev pub Ensures {ℓ} : {S A : Type 0} → (A → Session S → Type ℓ) → Result A × Session S → Type ℓ
Ensures P (ok a, s) = P a s
Ensures P (err e, s) = Unit

bind_outcome {ℓ κ} :
    {S A B : Type 0} (P : A → Session S → Type ℓ) (Q : B → Session S → Type κ)
    (r : Result A × Session S) (f : A → Action S B)
    → Ensures P r
    → ((a : A) (s : Session S) → P a s → Ensures Q (f a s))
    → Ensures Q (elim r.0 [ ok a ↦ f a r.1 | err e ↦ (err e, r.1) ])
bind_outcome P Q (ok a, s) f h k = k a s h
bind_outcome P Q (err e, s) f h k = tt

pub bind-Ensures {ℓ κ} :
    {S A B : Type 0} (P : A → Session S → Type ℓ) (Q : B → Session S → Type κ) (m : Action S A)
    (f : A → Action S B) (s : Session S)
    → Ensures P (m s)
    → ((a : A) (s' : Session S) → P a s' → Ensures Q (f a s'))
    → Ensures Q ((m >>= f) s)
unfolding ◌>>=◌
bind-Ensures P Q m f s h k = bind_outcome P Q (m s) f h k

outcome_cong :
    {S A B : Type 0} (r : Result A × Session S) (f g : A → Action S B)
    → ((a : A) (s : Session S) → r ≡ (ok a, s) → f a s ≡ g a s)
    → ◌≡◌ {A = Result B × Session S}
        (elim r.0 [ ok a ↦ f a r.1 | err e ↦ (err e, r.1) ])
        (elim r.0 [ ok a ↦ g a r.1 | err e ↦ (err e, r.1) ])
outcome_cong (ok a, s) f g h = h a s refl
outcome_cong (err e, s) f g h = refl

-- Two ways to go on are one, if they agree on what the first call can give.
pub bind_cong :
    {S A B : Type 0} (m : Action S A) (f g : A → Action S B) (s : Session S)
    → ((a : A) (s' : Session S) → m s ≡ (ok a, s') → f a s' ≡ g a s')
    → (m >>= f) s ≡ (m >>= g) s
unfolding ◌>>=◌
bind_cong m f g s h = outcome_cong (m s) f g h

pub Ensures-mono {ℓ κ} :
    {S A : Type 0} (P : A → Session S → Type ℓ) (Q : A → Session S → Type κ)
    (r : Result A × Session S)
    → ((a : A) (s : Session S) → P a s → Q a s)
    → Ensures P r
    → Ensures Q r
Ensures-mono P Q (ok a, s) k h = k a s h
Ensures-mono P Q (err e, s) k h = tt

pub lift-Ensures : {S A : Type 0} (r : Result A) (s : Session S) → Ensures (λ a s'. r ≡ ok a) (r, s)
lift-Ensures (ok a) s = refl
lift-Ensures (err e) s = tt

pub any-Ensures : {S A : Type 0} (r : Result A × Session S) → Ensures (λ a s. Unit {0}) r
any-Ensures (ok a, s) = tt
any-Ensures (err e, s) = tt

-- Two calls with one outcome go on alike.
pub first_cong :
    {S A B : Type 0} (m n : Action S A) (f : A → Action S B) (s : Session S)
    → m s ≡ n s
    → (m >>= f) s ≡ (n >>= f) s
unfolding ◌>>=◌
first_cong m n f s h =
    ap (λ (r : Result _ × Session _). elim r.0 [ ok a ↦ f a r.1 | err e ↦ (err e, r.1) ]) h

-- The call returns, and its value and the state after it are so.
abbrev pub Returns : {S A : Type 0} → (A → Session S → Type 0) → Result A × Session S → Type 0
Returns P (ok a, s) = P a s
Returns P (err e, s) = ⊥

returned_outcome :
    {S A B : Type 0} (P : A → Session S → Type 0) (Q : B → Session S → Type 0)
    (r : Result A × Session S) (f : A → Action S B)
    → Returns P r
    → ((a : A) (s : Session S) → P a s → Returns Q (f a s))
    → Returns Q (elim r.0 [ ok a ↦ f a r.1 | err e ↦ (err e, r.1) ])
returned_outcome P Q (ok a, s) f h k = k a s h
returned_outcome P Q (err e, s) f h k = absurd h

pub bind-Returns :
    {S A B : Type 0} (P : A → Session S → Type 0) (Q : B → Session S → Type 0) (m : Action S A)
    (f : A → Action S B) (s : Session S)
    → Returns P (m s)
    → ((a : A) (s' : Session S) → P a s' → Returns Q (f a s'))
    → Returns Q ((m >>= f) s)
unfolding ◌>>=◌
bind-Returns P Q m f s h k = returned_outcome P Q (m s) f h k
