-- ===== src/Register/Connect/Fuel.antt =====
-- The waits never stop for want of fuel.
use crypto_analytics_platfor.Base.{
  ℕ, zero, suc, ◌+◌, ◌*◌, ◌≤◌, ◌<◌, ◌≡◌, refl, arith, ltb, le→ltb, inl, inr, Bool-cases,
}
use crypto_analytics_platfor.Register.Connect.{
  Outcome, Machine, Round, over, again, next_round, poll,
}

module _ (M : Machine) where
  open M use {State}

  -- A clock that a sleep moves by its length at least, and that neither a reading nor a round puts back.
  pub record IsTicking (round : State → Round (Unit {0}) × State) : Type 0 where
    pub sleeps : (d : ℕ) (s : State) → (M.now s).0 + d ≤ (M.now (M.sleep d s)).0
    pub reads : (s : State) → (M.now s).0 ≤ (M.now (M.now s).1).0
    pub rounds : (s : State) → (M.now s).0 ≤ (M.now (round s).1).0

  next_round_cong :
      (nap : ℕ) (f g : State → Outcome (Unit {0}) × State) (r : Round (Unit {0}) × State)
      → f (M.sleep nap r.1) ≡ g (M.sleep nap r.1)
      → next_round M nap f r ≡ next_round M nap g r
  unfolding next_round
  next_round_cong nap f g (over o, s) h = refl
  next_round_cong nap f g (again, s) h = h

  -- By a clock that ticks, a wait never stops for want of fuel: every number of rounds that covers the
  -- time left to the deadline, at one nap each, gives the same run.
  pub poll_fuel :
      (nap : ℕ) (round : State → Round (Unit {0}) × State) (f g deadline : ℕ) (s : State)
      → IsTicking round
      → deadline < (M.now s).0 + f * nap
      → deadline < (M.now s).0 + g * nap
      → poll M nap round f deadline s ≡ poll M nap round g deadline s
  unfolding poll
  poll_fuel nap round zero zero deadline s ticking hf hg = refl
  poll_fuel nap round zero (suc g) deadline s ticking hf hg =
      rw (le→ltb (M.now s).0 deadline (omega arith)) refl
  poll_fuel nap round (suc f) zero deadline s ticking hf hg =
      rw (le→ltb (M.now s).0 deadline (omega arith)) refl
  poll_fuel nap round (suc f) (suc g) deadline s ticking hf hg =
      let s' = (M.now s).1 in
      let t = (round s').1 in
      elim (Bool-cases (ltb (M.now s).0 deadline)) [
        | inl early ↦ rw early (
            next_round_cong nap (poll M nap round f deadline) (poll M nap round g deadline)
              (round s')
              (poll_fuel nap round f g deadline _ ticking
                (omega (arith, ticking.reads s, ticking.rounds s', ticking.sleeps nap t))
                (omega (arith, ticking.reads s, ticking.rounds s', ticking.sleeps nap t))))
        | inr late ↦ rw late refl
      ]
