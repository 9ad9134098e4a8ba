-- ===== src/Fx/Chain.antt =====
-- What the chain of providers returns, and which errors end it.
use crypto_analytics_platfor.Base.{
  ◌≡◌, refl, ap, sym, ◌∙◌, ◌⊎◌, inl, inr, String, Option, none, some,
}
use crypto_analytics_platfor.Base.Result.{Result, ok, err}
use crypto_analytics_platfor.Datetime.{Datetime}
use crypto_analytics_platfor.Environment.{Environment}
use crypto_analytics_platfor.Metrics.{Event, api_request, success}
use crypto_analytics_platfor.Models.{FxRate, validate_fx}
use crypto_analytics_platfor.Service.{Service, Action, lift, emit}
use crypto_analytics_platfor.Service.Rules.{Ensures, bind-Ensures, then-Ensures, Ensures-mono}
use crypto_analytics_platfor.Fx.{
  source_name, read_clock, er_api, fawaz, Provider, ask, counts_as, next_provider, settle,
  try_providers, fetch_rate,
}

module _ (E : Environment) (Source : Type 0) where
  open E use {State}

  -- The rate is of the pair that was asked for, and bears the name of its provider.
  abbrev pub IsFrom : String → String → String → FxRate → Type 0
  IsFrom name base quote r = (r.base ≡ base) × (r.quote ≡ quote) × (r.source ≡ name)

  er_api-IsFrom :
      (base quote : String) (s : Service State Source)
      → Ensures (λ r s'. IsFrom "open.er-api.com" base quote r) (er_api E Source base quote s)
  unfolding er_api
  er_api-IsFrom base quote s = then-Ensures _ _ _ s λ payload s1. then-Ensures _ _ _ s1 λ result s2.
      then-Ensures _ _ _ s2 λ u s3. then-Ensures _ _ _ s3 λ rates s4.
        then-Ensures _ _ _ s4 λ rate s5. then-Ensures _ _ _ s5 λ v s6.
          then-Ensures _ _ _ s6 λ published s7.
            then-Ensures _ _ _ s7 λ as_of s8. then-Ensures _ _ _ s8 λ value s9. (refl, refl, refl)

  fawaz-IsFrom :
      (base quote : String) (s : Service State Source)
      → Ensures
          (λ r s'. IsFrom "fawazahmed0/currency-api" base quote r)
          (fawaz E Source base quote s)
  unfolding fawaz
  fawaz-IsFrom base quote s = then-Ensures _ _ _ s λ payload s1. then-Ensures _ _ _ s1 λ rates s2.
      then-Ensures _ _ _ s2 λ rate s3. then-Ensures _ _ _ s3 λ u s4.
        then-Ensures _ _ _ s4 λ published s5.
          then-Ensures _ _ _ s5 λ as_of s6. then-Ensures _ _ _ s6 λ value s7. (refl, refl, refl)

  -- A rate that was returned, and the world it was returned in: the last thing that happened to the
  -- world is a reading of the clock, at which the rate passed the gate; and one of the two providers
  -- gave it.
  pub record IsChosen (base quote : String) (r : FxRate) (after : State) : Type 0 where
    pub before : State
    pub passed : validate_fx r (E.now before).0 ≡ ok tt
    pub read : after ≡ (E.now before).1
    pub given :
        IsFrom "open.er-api.com" base quote r ⊎ IsFrom "fawazahmed0/currency-api" base quote r

  abbrev pub Chosen : String → String → FxRate → Service State Source → Type 0
  Chosen base quote r s = IsChosen base quote r s.world

  checked :
      (r : FxRate) (now : Datetime) (s : Service State Source)
      → Ensures
          (λ u s'. (validate_fx r now ≡ ok u) × (s'.world ≡ s.world))
          (lift (validate_fx r now) s)
  checked r now s = given (validate_fx r now)
    where
      given :
          (o : Result (Unit {0})) → Ensures (λ u s'. (o ≡ ok u) × (s'.world ≡ s.world)) (lift o s)
      given (ok u) = (refl, refl)
      given (err e) = tt

  ask-IsChosen :
      (provider : Provider E Source) (base quote : String) (s : Service State Source)
      → ((s' : Service State Source)
          → Ensures
              (λ r t.
                IsFrom "open.er-api.com" base quote r
                ⊎ IsFrom "fawazahmed0/currency-api" base quote r)
              (provider base quote s'))
      → Ensures (Chosen base quote) (ask E Source provider base quote s)
  unfolding ask read_clock
  ask-IsChosen provider base quote s h =
      bind-Ensures _ (Chosen base quote) (provider base quote) _ s (h s) λ r s1 from.
        bind-Ensures (λ now s'. (now ≡ (E.now s1.world).0) × (s'.world ≡ (E.now s1.world).1))
          (Chosen base quote) (read_clock E Source) _ s1 (refl, refl)
          λ now s2 (here, moved).
            bind-Ensures (λ u s'. (validate_fx r now ≡ ok u) × (s'.world ≡ s2.world))
              (Chosen base quote) (lift (validate_fx r now)) _ s2 (checked r now s2)
              λ u s3 (passed, same).
                bind-Ensures (λ v s'. s'.world ≡ s3.world) (Chosen base quote)
                  (emit (api_request source_name success)) _ s3 refl
                  λ v s4 kept. record {
                    before = s1.world;
                    passed = ap (validate_fx r) (sym here) ∙ passed;
                    read = kept ∙ same ∙ moved;
                    given = from;
                  }

  settle-Ensures :
      (P : FxRate → Service State Source → Type 0) (rest : Action State Source FxRate)
      (out : Result FxRate × Service State Source)
      → Ensures P out
      → ((s : Service State Source) → Ensures P (rest s))
      → Ensures P (settle E Source rest out)
  settle-Ensures P rest (ok rate, s) h k = h
  settle-Ensures P rest (err e, s) h k = taken (counts_as e)
    where
      taken : (o : Option Event) → Ensures P (next_provider E Source rest e o s)
      taken (some event) = then-Ensures P (emit event) _ s λ u s'. k s'
      taken none = tt

  -- Whatever the providers answer: if `fetch_rate` returns, the rate is of the pair asked for, bears
  -- the name of one of the two providers, and passed the gate at the reading of the clock that was the
  -- last thing asked of the world before the return.
  pub fetch_rate-IsChosen :
      (base quote : String) (s : Service State Source)
      → Ensures (Chosen base quote) (fetch_rate E Source base quote s)
  unfolding fetch_rate try_providers
  fetch_rate-IsChosen base quote s =
      settle-Ensures (Chosen base quote) _ (ask E Source (er_api E Source) base quote s)
        (ask-IsChosen (er_api E Source) base quote s λ s'.
          Ensures-mono (λ r t. IsFrom "open.er-api.com" base quote r) _
            (er_api E Source base quote s') (λ r t h. inl h) (er_api-IsFrom base quote s'))
        λ s1.
          settle-Ensures (Chosen base quote) _ (ask E Source (fawaz E Source) base quote s1)
            (ask-IsChosen (fawaz E Source) base quote s1 λ s'.
              Ensures-mono (λ r t. IsFrom "fawazahmed0/currency-api" base quote r) _
                (fawaz E Source base quote s') (λ r t h. inr h) (fawaz-IsFrom base quote s'))
            λ s2. tt
