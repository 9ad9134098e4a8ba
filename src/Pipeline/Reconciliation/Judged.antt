-- ===== src/Pipeline/Reconciliation/Judged.antt =====
-- What the comparison of the two sides says, against the counts of every symbol and day.
use crypto_analytics_platfor.Base.{
  ℕ, ◌+◌, ◌≤◌, ◌<◌, leb, ◌≡◌, ◌≢◌, refl, sym, String, true, false, List, [], ◌∷◌, ◌++◌, ◌↔◌, ◌⊎◌,
  inl, inr, pos, All, arith, Bool-cases,
}
use crypto_analytics_platfor.Base.Int.{◌-ℤ◌, ltb_ℤ}
use crypto_analytics_platfor.Base.Texts.{str_eq, str_eq_iff}
use crypto_analytics_platfor.Pipeline.Reconciliation.{
  Key, Counts, same, count, key_list, insert_key, insert_keys, all_keys, Divergence, Verdict,
  passed, diverged, distance, divergence_of, tally, verdict_of, compare, before,
}
use mathlib.Core.Path.{subst}

same_eq : (k l : Key) → same k l ≡ true → k ≡ l
unfolding same
same_eq k l h = λ i. record { symbol = symbols i; day = days i }
  where
    symbols : k.symbol ≡ l.symbol
    symbols = ground (arith, str_eq_iff k.symbol l.symbol)

    days : k.day ≡ l.day
    days = ground (arith, str_eq_iff k.day l.day)

insert_key-same : (k l : Key) (ls : List Key) → same l k ≡ true → insert_key k (l ∷ ls) ≡ l ∷ ls
unfolding insert_key
insert_key-same k l ls e = rw e refl

insert_key-before :
    (k l : Key) (ls : List Key)
    → same l k ≡ false
    → before k l ≡ true
    → insert_key k (l ∷ ls) ≡ k ∷ (l ∷ ls)
unfolding insert_key
insert_key-before k l ls e b = rw (e, b) refl

insert_key-after :
    (k l : Key) (ls : List Key)
    → same l k ≡ false
    → before k l ≡ false
    → insert_key k (l ∷ ls) ≡ l ∷ insert_key k ls
unfolding insert_key
insert_key-after k l ls e b = rw (e, b) refl

-- Two counts that differ by at most `n`, and two that differ by more.
abbrev pub Close : ℕ → ℕ → ℕ → Type 0
Close n a b = (a ≤ b + n) × (b ≤ a + n)

abbrev pub Far : ℕ → ℕ → ℕ → Type 0
Far n a b = (b + n < a) ⊎ (a + n < b)

is_beyond : (n a b : ℕ) → ltb_ℤ (pos n) (distance a b) ≡ true → Far n a b
unfolding ◌-ℤ◌
is_beyond n a b h = elim (Bool-cases (leb b a)) [ inl e ↦ ground arith | inr e ↦ ground arith ]

is_within : (n a b : ℕ) → ltb_ℤ (pos n) (distance a b) ≡ false → Close n a b
unfolding ◌-ℤ◌
is_within n a b h = elim (Bool-cases (leb b a)) [ inl e ↦ ground arith | inr e ↦ ground arith ]

module _ {κ} (P : Key → Type κ) where
  -- Whatever holds of the keys of a list, and of one more, holds of the list with it.
  All-insert_key : (k : Key) (ls : List Key) → (P k × All P ls) ↔ All P (insert_key k ls)
  unfolding insert_key
  All-insert_key k [] = (λ h. h, λ h. h)
  All-insert_key k (l ∷ ls) = elim (Bool-cases (same l k)) [
    | inl e ↦
        subst (λ r. (P k × All P (l ∷ ls)) ↔ All P r) (sym (insert_key-same k l ls e))
          (λ h. h.1, λ h. (subst P (same_eq l k e) h.0, h))
    | inr e ↦ elim (Bool-cases (before k l)) [
      | inl b ↦
          subst (λ r. (P k × All P (l ∷ ls)) ↔ All P r) (sym (insert_key-before k l ls e b))
            (λ h. h, λ h. h)
      | inr b ↦
          subst (λ r. (P k × All P (l ∷ ls)) ↔ All P r) (sym (insert_key-after k l ls e b))
            (
              λ (p, (q, h)). (q, (All-insert_key k ls).0 (p, h)),
              λ (q, h). let (p, h') = (All-insert_key k ls).1 h in (p, (q, h')),
            )
    ]
  ]

  All-insert_keys :
      (ks sorted : List Key) → (All P ks × All P sorted) ↔ All P (insert_keys ks sorted)
  unfolding insert_keys
  All-insert_keys [] sorted = (λ h. h.1, λ h. (tt, h))
  All-insert_keys (k ∷ ks) sorted = (
    λ ((p, h), g).
        (All-insert_keys ks (insert_key k sorted)).0 (h, (All-insert_key k sorted).0 (p, g)),
    λ h.
        let (g, later) = (All-insert_keys ks (insert_key k sorted)).1 h in
        let (p, rest) = (All-insert_key k sorted).1 later in ((p, g), rest),
  )

  All-split : (xs ys : List Key) → All P (xs ++ ys) → All P xs × All P ys
  All-split [] ys h = (tt, h)
  All-split (x ∷ xs) ys h = let (a, b) = All-split xs ys h.1 in ((h.0, a), b)

  -- What holds of every key of the comparison holds of a key that a side counts.
  listed_or_zero :
      (k : Key) (counts : Counts) → All P (key_list counts) → P k ⊎ (count k counts ≡ 0)
  unfolding count
  listed_or_zero k [] h = inr refl
  listed_or_zero k ((l, n) ∷ rest) h = elim (Bool-cases (same l k)) [
    | inl e ↦ inl (subst P (same_eq l k e) h.0)
    | inr e ↦ rw e (listed_or_zero k rest h.1)
  ]

  each_side :
      (source replica : Counts)
      → All P (all_keys source replica)
      → All P (key_list source) × All P (key_list replica)
  unfolding all_keys
  each_side source replica h =
      All-split (key_list source) (key_list replica)
        ((All-insert_keys (key_list source ++ key_list replica) []).1 h).0

module _ (n : ℕ) (today : String) (source replica : Counts) where
  -- A completed day of a symbol on which the sides differ by at most the tolerance.
  abbrev pub Agrees : Key → Type 0
  Agrees k = k.day ≢ today → Close n (count k source) (count k replica)

  -- A divergence that is reported: its day is over, its counts are the two sides', and they differ by
  -- more than the tolerance.
  pub record IsReal (d : Divergence) : Type 0 where
    pub completed : d.date ≢ today
    pub in_source : d.postgres ≡ count (record { symbol = d.symbol; day = d.date }) source
    pub in_replica : d.clickhouse ≡ count (record { symbol = d.symbol; day = d.date }) replica
    pub difference : d.difference ≡ pos d.postgres -ℤ pos d.clickhouse
    pub beyond : Far n d.postgres d.clickhouse

  abbrev pub Reported : Key → List Divergence → Type 0
  Reported k [] = ⊥
  Reported k (d ∷ ds) = ((d.symbol ≡ k.symbol) × (d.date ≡ k.day)) ⊎ Reported k ds

  -- A key is settled by a list of divergences if its sides agree or it is reported there.
  abbrev pub IsSettled : List Divergence → Key → Type 0
  IsSettled ds k = Agrees k ⊎ Reported k ds

  not_today : (k : Key) → str_eq k.day today ≡ false → k.day ≢ today
  not_today k e h = ground (arith, str_eq_iff k.day today)

  -- What one key adds.
  abbrev Adds : Key → List Divergence → List Divergence → Type 0
  Adds k rest ds =
      ((ds ≡ rest) × Agrees k)
      ⊎ ((d : Divergence) × (ds ≡ d ∷ rest) × IsReal d × (d.symbol ≡ k.symbol) × (d.date ≡ k.day))

  divergence_of-Adds :
      (k : Key) (rest : List Divergence)
      → Adds k rest (divergence_of (pos n) today source replica k rest)
  unfolding divergence_of
  divergence_of-Adds k rest = elim (Bool-cases (str_eq k.day today)) [
    | inl e ↦ rw e (inl (refl, λ h. absurd (h ((str_eq_iff k.day today).0 e))))
    | inr e ↦ elim (Bool-cases (ltb_ℤ (pos n) (distance (count k source) (count k replica)))) [
      | inl b ↦
          rw (e, b)
            (inr (
              _,
              refl,
              record {
                completed = λ h. not_today k e h;
                in_source = refl;
                in_replica = refl;
                difference = refl;
                beyond = is_beyond n (count k source) (count k replica) b;
              },
              refl,
              refl,
            ))
      | inr b ↦ rw (e, b) (inl (refl, λ h. is_within n (count k source) (count k replica) b))
    ]
  ]

  -- What has been gathered: real divergences, and every key is settled by them.
  Gathers : List Key → List Divergence → Type 0
  Gathers ks ds = All IsReal ds × All (IsSettled ds) ks

  still-IsSettled :
      (d : Divergence) (ds : List Divergence) (ks : List Key)
      → All (IsSettled ds) ks
      → All (IsSettled (d ∷ ds)) ks
  still-IsSettled d ds [] h = tt
  still-IsSettled d ds (k ∷ ks) h =
      (elim h.0 [ inl a ↦ inl a | inr r ↦ inr (inr r) ], still-IsSettled d ds ks h.1)

  Adds-Gathers :
      (k : Key) (ks : List Key) (rest ds : List Divergence)
      → Adds k rest ds
      → Gathers ks rest
      → Gathers (k ∷ ks) ds
  unfolding Gathers
  Adds-Gathers k ks rest ds (inl (e, a)) (real, settled) =
      subst (Gathers (k ∷ ks)) (sym e) (real, (inl a, settled))
  Adds-Gathers k ks rest ds (inr (d, e, r, s, day)) (real, settled) =
      subst (Gathers (k ∷ ks)) (sym e)
        ((r, real), (inr (inl (s, day)), still-IsSettled d rest ks settled))

  tally-Gathers : (ks : List Key) → Gathers ks (tally (pos n) today source replica ks).divergences
  unfolding tally Gathers
  tally-Gathers [] = (tt, tt)
  tally-Gathers (k ∷ ks) =
      Adds-Gathers k ks _ _
        (divergence_of-Adds k (tally (pos n) today source replica ks).divergences)
        (tally-Gathers ks)

  no_rows : (a b : ℕ) → a ≡ 0 → b ≡ 0 → Close n a b
  no_rows a b h g = (omega arith, omega arith)

  -- Every key is settled, listed or not: a key that neither side lists has no rows on either.
  every_key :
      (ds : List Divergence)
      → All (IsSettled ds) (all_keys source replica)
      → (k : Key) → IsSettled ds k
  every_key ds h k =
      elim (listed_or_zero (IsSettled ds) k source (each_side (IsSettled ds) source replica h).0) [
        | inl s ↦ s
        | inr a ↦
            elim (listed_or_zero (IsSettled ds) k replica
              (each_side (IsSettled ds) source replica h).1) [
                | inl s ↦ s
                | inr b ↦ inl (λ g. no_rows _ _ a b)
              ]
      ]

  -- What a verdict says.
  abbrev pub Judges : Verdict → Type 0
  Judges (passed r) = ((k : Key) → Agrees k) × (r.divergences ≡ 0)
  Judges (diverged ds) = (ds ≢ []) × All IsReal ds × ((k : Key) → IsSettled ds k)

  verdict_of-Judges :
      (days a b : ℕ) (ds : List Divergence)
      → All IsReal ds
      → ((k : Key) → IsSettled ds k)
      → Judges (verdict_of (pos n) today source replica days a b ds)
  verdict_of-Judges days a b [] real settled =
      (λ k. elim (settled k) [ inl h ↦ h | inr h ↦ absurd h ], refl)
  verdict_of-Judges days a b (d ∷ ds) real settled = (λ h. cc, real, settled)

  -- The comparison passes only if on every completed day, of every symbol, the two sides differ by at
  -- most the tolerance. It fails only with a list that is not empty, whose entries are all real, each on
  -- a completed day and with the counts of both sides, and that holds every completed day of a symbol
  -- on which they differ by more. The tolerance is not negative.
  pub compare-Judges : Judges (compare (pos n) today source replica)
  unfolding compare Gathers
  compare-Judges =
      let (real, settled) = tally-Gathers (all_keys source replica) in
      verdict_of-Judges _ _ _ _ real (every_key _ settled)
