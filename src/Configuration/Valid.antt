-- ===== src/Configuration/Valid.antt =====
-- What the check of the configuration accepts, and what it is good for.
use crypto_analytics_platfor.Base.{
  ℕ, ◌≡◌, ◌≢◌, refl, ◌↔◌, ◌⊎◌, inl, inr, String, false, not, ◌&&◌, List, [], ◌∷◌, pos, arith,
  Bool-cases,
}
use crypto_analytics_platfor.Base.Int.{ℤ, ◌≤ℤ◌, ltb_ℤ, pos_part}
use crypto_analytics_platfor.Base.Result.{ok, and_then_iff, raise_if_iff}
use crypto_analytics_platfor.Base.Strings.{elem}
use crypto_analytics_platfor.Base.Texts.{str_eq, str_eq_iff}
use crypto_analytics_platfor.Configuration.{Config, validate, is_empty}
use crypto_analytics_platfor.Sources.Binance.{Settings, make}
use crypto_analytics_platfor.Sources.Registry.{Built, binance, replay, build_source}

pub record IsValid (c : Config) : Type 0 where
  pub known : (c.source ≡ "binance") ⊎ (c.source ≡ "replay")
  pub some_symbol : c.symbols ≢ []
  pub interval : pos 1 ≤ℤ c.interval_seconds
  pub backfill : pos 0 ≤ℤ c.backfill_minutes
  pub some_host : c.source ≡ "binance" → c.binance_hosts ≢ []

known_test :
    (s : String)
    → (not (elem s ("binance" ∷ "replay" ∷ [])) ≡ false) ↔ ((s ≡ "binance") ⊎ (s ≡ "replay"))
unfolding elem
known_test s = ground (arith, str_eq_iff s "binance", str_eq_iff s "replay")

is_empty_test {ℓ} : {A : Type ℓ} (xs : List A) → (is_empty xs ≡ false) ↔ (xs ≢ [])
is_empty_test [] = (λ h. cc, λ h. absurd (h refl))
is_empty_test (x ∷ xs) = (λ h e. cc, λ h. refl)

at_least_test : (a b : ℤ) → (ltb_ℤ a b ≡ false) ↔ (b ≤ℤ a)
at_least_test a b = ground arith

host_test :
    (s : String) (hosts : List String)
    → ((str_eq s "binance" && is_empty hosts) ≡ false) ↔ (s ≡ "binance" → hosts ≢ [])
host_test s [] = (
  λ h e. cc (rw ((str_eq_iff s "binance").1 e) at h),
  λ k. elim (Bool-cases (str_eq s "binance")) [
    | inl e ↦ absurd (k ((str_eq_iff s "binance").0 e) refl)
    | inr e ↦ rw e refl
  ],
)
host_test s (x ∷ xs) = (λ h e f. cc, λ k. ground arith)

abbrev Checks : Config → Type 0
Checks c =
    ((c.source ≡ "binance") ⊎ (c.source ≡ "replay"))
    × ((c.symbols ≢ [])
        × ((pos 1 ≤ℤ c.interval_seconds)
            × ((pos 0 ≤ℤ c.backfill_minutes) × (c.source ≡ "binance" → c.binance_hosts ≢ []))))

Checks-iff : (c : Config) → (validate c ≡ ok tt) ↔ Checks c
unfolding validate
Checks-iff c = and_then_iff _ _ (raise_if_iff _ _ (known_test c.source)) (
    and_then_iff _ _ (raise_if_iff _ _ (is_empty_test c.symbols)) (
      and_then_iff _ _ (raise_if_iff _ _ (at_least_test c.interval_seconds (pos 1))) (
        and_then_iff _ _ (raise_if_iff _ _ (at_least_test c.backfill_minutes (pos 0)))
          (raise_if_iff _ _ (host_test c.source c.binance_hosts)))))

-- `validate` accepts exactly the valid configurations.
pub validate_iff : (c : Config) → (validate c ≡ ok tt) ↔ IsValid c
validate_iff c = (
  λ h.
      let (known, (symbol, (interval, (backfill, host)))) = (Checks-iff c).0 h in
      record {
        known = known;
        some_symbol = symbol;
        interval = interval;
        backfill = backfill;
        some_host = host;
      },
  λ v. (Checks-iff c).1 (v.known, (v.some_symbol, (v.interval, (v.backfill, v.some_host)))),
)

make_total :
    (hosts : List String) (retries : ℕ)
    → hosts ≢ []
    → (settings : Settings) × (make hosts retries ≡ ok settings)
unfolding make
make_total [] retries h = absurd (h refl)
make_total (x ∷ xs) retries h = (record { hosts = x ∷ xs; max_retries = retries }, refl)

builds_live : (c : Config) → c.binance_hosts ≢ [] → (b : Built) × (build_source "binance" c ≡ ok b)
unfolding build_source str_eq
builds_live c h =
    let (settings, e) = make_total c.binance_hosts (pos_part c.max_retries) h in
    (binance settings, rw e refl)

builds_replay : (c : Config) → build_source "replay" c ≡ ok replay
unfolding build_source str_eq
builds_replay c = refl

-- A configuration that passes `validate` names a source that can be built, and the fallback can be
-- built on every configuration.
pub build_source_total :
    (c : Config)
    → validate c ≡ ok tt
    → ((b : Built) × (build_source c.source c ≡ ok b)) × (build_source "replay" c ≡ ok replay)
unfolding build_source
build_source_total c h = (named v.known, builds_replay c)
  where
    v : IsValid c
    v = (validate_iff c).0 h

    named :
        (c.source ≡ "binance") ⊎ (c.source ≡ "replay")
        → (b : Built) × (build_source c.source c ≡ ok b)
    named (inl e) = rw e (builds_live c (v.some_host e))
    named (inr e) = rw e (replay, builds_replay c)
