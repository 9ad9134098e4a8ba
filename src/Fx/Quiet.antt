-- ===== src/Fx/Quiet.antt =====
-- The chain of providers leaves the database of the service alone.
use crypto_analytics_platfor.Base.{
  String, List, [], ◌∷◌, Option, none, some, Bool-cases, inl, inr, All,
}
use crypto_analytics_platfor.Base.Result.{Result, ok, err, Exception}
use crypto_analytics_platfor.Db.Connection.{Database}
use crypto_analytics_platfor.Environment.{Environment}
use crypto_analytics_platfor.Json.{Json}
use crypto_analytics_platfor.Json.Access.{truthy}
use crypto_analytics_platfor.Metrics.{Event}
use crypto_analytics_platfor.Models.{FxRate}
use crypto_analytics_platfor.Service.{Service, Action}
use crypto_analytics_platfor.Service.Rules.{Keeps, bind-Keeps}
use crypto_analytics_platfor.Fx.{
  read_clock, get_json, published_at, dated_at, er_api, fawaz, Provider, providers, ask, counts_as,
  next_provider, settle, try_providers, fetch_rate,
}

module _ (E : Environment) (Source : Type 0) (T : Database → Type 0) where
  open E use {State}

  abbrev AtDb : Service State Source → Type 0
  AtDb s = T s.db

  clock-Keeps : Keeps AtDb (read_clock E Source)
  unfolding read_clock
  clock-Keeps s h = h

  published_at-Keeps : (value : Json) → Keeps AtDb (published_at E Source value)
  unfolding published_at
  published_at-Keeps value s h = elim (Bool-cases (truthy value)) [
    | inl e ↦ rw e h
    | inr e ↦ rw e (clock-Keeps s h)
  ]

  dated_at-Keeps : (value : Json) → Keeps AtDb (dated_at E Source value)
  unfolding dated_at
  dated_at-Keeps value s h = elim (Bool-cases (truthy value)) [
    | inl e ↦ rw e h
    | inr e ↦ rw e (clock-Keeps s h)
  ]

  er_api-Keeps : (base quote : String) → Keeps AtDb (er_api E Source base quote)
  unfolding er_api get_json
  er_api-Keeps base quote =
      bind-Keeps AtDb _ _ (λ s h. h)
        λ payload.
          bind-Keeps AtDb _ _ (λ s h. h)
            λ result.
              bind-Keeps AtDb _ _ (λ s h. h)
                λ u.
                  bind-Keeps AtDb _ _ (λ s h. h)
                    λ rates.
                      bind-Keeps AtDb _ _ (λ s h. h)
                        λ rate.
                          bind-Keeps AtDb _ _ (λ s h. h)
                            λ v.
                              bind-Keeps AtDb _ _ (λ s h. h)
                                λ published.
                                  bind-Keeps AtDb _ _ (published_at-Keeps published)
                                    λ as_of. bind-Keeps AtDb _ _ (λ s h. h) λ value s h. h

  fawaz-Keeps : (base quote : String) → Keeps AtDb (fawaz E Source base quote)
  unfolding fawaz get_json
  fawaz-Keeps base quote =
      bind-Keeps AtDb _ _ (λ s h. h)
        λ payload.
          bind-Keeps AtDb _ _ (λ s h. h)
            λ rates.
              bind-Keeps AtDb _ _ (λ s h. h)
                λ rate.
                  bind-Keeps AtDb _ _ (λ s h. h)
                    λ u.
                      bind-Keeps AtDb _ _ (λ s h. h)
                        λ published.
                          bind-Keeps AtDb _ _ (dated_at-Keeps published)
                            λ as_of. bind-Keeps AtDb _ _ (λ s h. h) λ value s h. h

  ask-Keeps :
      (provider : Provider E Source) (base quote : String)
      → Keeps AtDb (provider base quote)
      → Keeps AtDb (ask E Source provider base quote)
  unfolding ask
  ask-Keeps provider base quote k = bind-Keeps AtDb (provider base quote) _ k λ rate.
      bind-Keeps AtDb (read_clock E Source) _ clock-Keeps
        λ now. bind-Keeps AtDb _ _ (λ s h. h) λ u. bind-Keeps AtDb _ _ (λ s h. h) λ v s h. h

  next-AtDb :
      (rest : Action State Source FxRate) (e : Exception) (o : Option Event)
      → Keeps AtDb rest
      → Keeps AtDb (next_provider E Source rest e o)
  next-AtDb rest e (some event) k = bind-Keeps AtDb _ _ (λ s h. h) λ u. k
  next-AtDb rest e none k = λ s h. h

  settle-AtDb :
      (rest : Action State Source FxRate) (r : Result FxRate × Service State Source)
      → Keeps AtDb rest
      → AtDb r.1
      → AtDb (settle E Source rest r).1
  settle-AtDb rest (ok rate, s) k h = h
  settle-AtDb rest (err e, s) k h = next-AtDb rest e (counts_as e) k s h

  try_providers-AtDb :
      (ps : List (Provider E Source)) (base quote : String)
      → All (λ (p : Provider E Source). Keeps AtDb (p base quote)) ps
      → Keeps AtDb (try_providers E Source ps base quote)
  unfolding try_providers
  try_providers-AtDb [] base quote k s h = h
  try_providers-AtDb (p ∷ ps) base quote k s h =
      settle-AtDb (try_providers E Source ps base quote) (ask E Source p base quote s)
        (try_providers-AtDb ps base quote k.1) (ask-Keeps p base quote k.0 s h)

  -- Whatever the providers answer, asking them changes nothing of the database.
  pub fetch_rate-Keeps : (base quote : String) → Keeps AtDb (fetch_rate E Source base quote)
  unfolding fetch_rate providers
  fetch_rate-Keeps base quote =
      try_providers-AtDb (er_api E Source ∷ fawaz E Source ∷ []) base quote
        (er_api-Keeps base quote, (fawaz-Keeps base quote, tt))
