-- ===== src/Sources/Binance/Fuel.antt =====
-- The page loop of `fetch` ends by its own tests: the fuel never does.
use crypto_analytics_platfor.Base.{
  ℕ, zero, suc, ◌<◌, ◌≡◌, refl, String, List, [], ◌∷◌, inl, inr, arith, Bool-cases, ltb→lt,
}
use crypto_analytics_platfor.Base.Int.{ℤ, ◌-ℤ◌, ◌<ℤ◌, ltb_ℤ, pos_part}
use crypto_analytics_platfor.Base.Result.{ok}
use crypto_analytics_platfor.Environment.{Environment}
use crypto_analytics_platfor.Json.{Json}
use crypto_analytics_platfor.Models.{Candle}
use crypto_analytics_platfor.Sources.Binance.{Settings, Session, Action, lift}
use crypto_analytics_platfor.Sources.Binance.Rules.{bind_cong, first_cong}
use crypto_analytics_platfor.Sources.Binance.Page.{fetch_page}
use crypto_analytics_platfor.Sources.Binance.Fetch.{
  Turn, stop, go, advance, parse_page, page_params, resume, read_page, round, fetch_loop,
}

-- When the loop goes on, its cursor has grown.
pub advance-go :
    (cursor : ℤ) (kline : Json) (klines : List Json) (cursor' : ℤ)
    → advance cursor kline klines ≡ ok (go cursor')
    → cursor <ℤ cursor'
unfolding advance
advance-go cursor kline klines cursor' h = ground arith

closer :
    (end cursor cursor' : ℤ) (f : ℕ)
    → cursor <ℤ end
    → cursor <ℤ cursor'
    → pos_part (end -ℤ cursor) < suc f
    → pos_part (end -ℤ cursor') < f
unfolding ◌-ℤ◌
closer end cursor cursor' f before grows h = ground arith

module _ (E : Environment) (c : Settings) (symbol : String) (end : ℤ) where
  open E use {State}

  -- What runs the rest matters only at the cursors to which a round can move.
  resume_cong :
      (f g : ℤ → Action State (List Candle)) (cursor : ℤ) (candles : List Candle) (turn : Turn)
      (s : Session State)
      → ((cursor' : ℤ) (s' : Session State) → turn ≡ go cursor' → f cursor' s' ≡ g cursor' s')
      → resume E c symbol end f candles turn s ≡ resume E c symbol end g candles turn s
  resume_cong f g cursor candles stop s h = refl
  resume_cong f g cursor candles (go cursor') s h =
      first_cong (f cursor') (g cursor') _ s (h cursor' s refl)

  read_page_cong :
      (f g : ℤ → Action State (List Candle)) (cursor : ℤ) (page : List Json) (s : Session State)
      → ((cursor' : ℤ) (s' : Session State) → cursor <ℤ cursor' → f cursor' s' ≡ g cursor' s')
      → read_page E c symbol end f cursor page s ≡ read_page E c symbol end g cursor page s
  unfolding read_page
  read_page_cong f g cursor [] s h = refl
  read_page_cong f g cursor (kline ∷ klines) s h =
      bind_cong (parse_page E symbol end (kline ∷ klines)) _ _ s λ candles s1 _.
        bind_cong (lift (advance cursor kline klines)) _ _ s1 λ turn s2 e.
          resume_cong f g cursor candles turn s2
            λ cursor' s' t. h cursor' s' (advance-go cursor kline klines cursor' (cc))

  round_cong :
      (f g : ℤ → Action State (List Candle)) (cursor : ℤ) (s : Session State)
      → ((cursor' : ℤ) (s' : Session State)
          → cursor <ℤ end
          → cursor <ℤ cursor'
          → f cursor' s' ≡ g cursor' s')
      → round E c symbol end f cursor s ≡ round E c symbol end g cursor s
  unfolding round
  round_cong f g cursor s h = elim (Bool-cases (ltb_ℤ cursor end)) [
    | inl more ↦
        rw (more, round)
          (bind_cong (fetch_page E c (page_params symbol cursor end)) _ _ s λ page s1 _.
            read_page_cong f g cursor page s1
              λ cursor' s' grows. h cursor' s' (ltb→lt _ _ more) grows)
    | inr done ↦ rw (done, round)
  ]

  -- The paging loop of `fetch` never stops for want of fuel: every amount above the milliseconds
  -- that are left between the cursor and the end gives the same run.
  pub fetch_loop_fuel :
      (f g : ℕ) (cursor : ℤ) (s : Session State)
      → pos_part (end -ℤ cursor) < f
      → pos_part (end -ℤ cursor) < g
      → fetch_loop E c symbol end f cursor s ≡ fetch_loop E c symbol end g cursor s
  unfolding fetch_loop
  fetch_loop_fuel zero g cursor s hf hg = absurd (omega arith)
  fetch_loop_fuel (suc f) zero cursor s hf hg = absurd (omega arith)
  fetch_loop_fuel (suc f) (suc g) cursor s hf hg =
      round_cong (fetch_loop E c symbol end f) (fetch_loop E c symbol end g) cursor s
        λ cursor' s' before grows.
          fetch_loop_fuel f g cursor' s' (closer end cursor cursor' f before grows hf)
            (closer end cursor cursor' g before grows hg)
