-- ===== src/Base/Result.antt =====
-- The exceptions that the program raises and catches, as values. The text of a message is not kept,
-- but what tells two raises of one class apart is.
use Prim.Native.String.{String}
use Prim.Native.Nat.{ℕ}
use mathlib.Core.Path.{◌≡◌, refl}
use mathlib.Core.Logic.{◌⊎◌, inl, inr, ◌↔◌}
use mathlib.Core.Bool.{Bool, true, false}
use crypto_analytics_platfor.Base.Tests.{if◌then◌else◌}

-- The rules that a `ValidationError` of ingestion/models.py names, with the field where it names one.
pub data Reason : Type 0 where
  not_a_number not_finite not_a_timestamp not_positive negative : String → Reason
  not_an_array too_few_fields bad_symbol negative_trade_count high_below_low : Reason
  high_below_open_close low_above_open_close taker_above_volume not_minute_aligned : Reason
  close_not_after_open spans_too_long in_the_future : Reason
  fx_not_positive fx_too_large fx_in_the_future fx_pair_missing : Reason

-- Why a `SourceError` of ingestion/sources is raised.
pub data SourceProblem : Type 0 where
  not_a_json_array : SourceProblem
  http_status : ℕ → SourceProblem
  hosts_failed : SourceProblem

-- Python classes: `validation` is a `ValidationError`, a subclass of ValueError; `invalid_operation`
-- is decimal.InvalidOperation, an ArithmeticError; `timeout` and `request` are requests' own.
pub data Exception : Type 0 where
  validation : Reason → Exception
  source : SourceProblem → Exception
  fx_error value_error type_error index_error key_error attribute_error : Exception
  overflow_error invalid_operation runtime_error database_error timeout request : Exception

pub data Result {ℓ} (A : Type ℓ) : Type ℓ where
  ok : A → Result A
  err : Exception → Result A

infixl 5 ◌>>=◌ ◌>>◌
-- A call whose result the next one takes.
abbrev pub ◌>>=◌ {ℓ κ} : {A : Type ℓ} {B : Type κ} → Result A → (A → Result B) → Result B
◌>>=◌ (err e) next_call = err e
◌>>=◌ (ok a) next_call = next_call a

-- `if test: raise e`
abbrev pub raise_if : Bool → Exception → Result (Unit {0})
raise_if test e = if test then err e else ok tt

-- `except`, for every class
abbrev pub catch {ℓ} : {A : Type ℓ} → Result A → (Exception → Result A) → Result A
catch (ok a) handler = ok a
catch (err e) handler = handler e

-- A check, and what follows if it passes.
abbrev pub ◌>>◌ {κ} : {B : Type κ} → Result (Unit {0}) → Result B → Result B
check >> rest = check >>= λ passed. rest

pub Result-cases {ℓ} :
    {A : Type ℓ} (r : Result A) → ((a : A) × (r ≡ ok a)) ⊎ ((e : Exception) × (r ≡ err e))
Result-cases (ok a) = inl (a, refl)
Result-cases (err e) = inr (e, refl)

-- A guard that passed did not hold.
pub raise_if-eq-ok : (b : Bool) (e : Exception) → raise_if b e ≡ ok tt → b ≡ false
raise_if-eq-ok true e h = cc
raise_if-eq-ok false e h = refl

-- A sequence of checks passes exactly when each does.
pub and_then_iff {ℓ κ} :
    {P : Type ℓ} {Q : Type κ} (m k : Result (Unit {0}))
    → (m ≡ ok tt) ↔ P
    → (k ≡ ok tt) ↔ Q
    → ((m >> k) ≡ ok tt) ↔ (P × Q)
and_then_iff (ok tt) k p q = (λ h. (p.0 refl, q.0 h), λ h. q.1 h.1)
and_then_iff (err e) k p q = (λ h. cc, λ h. p.1 h.0)

pub raise_if_iff {ℓ} :
    {P : Type ℓ} (b : Bool) (e : Exception) → (b ≡ false) ↔ P → (raise_if b e ≡ ok tt) ↔ P
raise_if_iff true e p = (λ h. cc, λ h. cc (p.1 h))
raise_if_iff false e p = (λ h. p.0 refl, λ h. refl)

pub ok-injective {ℓ} : {A : Type ℓ} (a b : A) → ok a ≡ ok b → a ≡ b
ok-injective a b e = cc

-- A successful bind, taken apart for what follows.
pub bind_elim {ℓ κ ρ} :
    {A : Type ℓ} {B : Type κ} {P : Type ρ} (m : Result A) (f : A → Result B) {b : B}
    → (m >>= f) ≡ ok b
    → ((a : A) → m ≡ ok a → f a ≡ ok b → P)
    → P
bind_elim (ok a) f h k = k a refl h
bind_elim (err e) f h k = absurd (cc)
