-- ===== src/Proxy/Outcome.antt =====
-- What a call of `Next` comes to.
use goddgs.Prelude.{
  ◌==◌, ℕ, zero, suc, ◌+◌, ◌-◌, ◌%◌, ◌^◌, ◌<◌, ◌≡◌, ◌≢◌, refl, ap, ◌⊎◌, inl, inr, false, some, List,
  [], ◌∷◌, arith, length, ltb, get_elem?, All, Bool-cases,
}
use goddgs.Prelude.Int.{int64_of, ℤ, pos, negsuc, pos_part, ◌≤ℤ◌, ◌-ℤ◌}
use goddgs.Proxy.{
  ProxyPool, ProxyEntry, RotationStrategy, rotate_round_robin, rotate_random, rotate_weighted,
  Picked, picked, nobody, usable, available_from, available, weight_at, weight_sum, spend, nth,
  nth_from, weighted_pick, choose, next,
}
use goddgs.Proxy.Choice.{weight_total, weight_sum-fits, Usable, next-Usable, weighted_pick-pos}

nth-nobody : (is : List ℕ) (k : ℕ) → nth is k ≢ nobody
nth-nobody [] k h = cc h
nth-nobody (j ∷ is) zero h = cc h
nth-nobody (j ∷ is) (suc k) h = nth-nobody is k h

nth_from-nobody : (is : List ℕ) (k : ℤ) → nth_from is k ≢ nobody
nth_from-nobody is (pos n) h = nth-nobody is (n % length is) h
nth_from-nobody is (negsuc n) h = ground (arith, nth-nobody is 0)

spend-nobody :
    (es : List ProxyEntry) (is : List ℕ) (n : ℤ) (last : Picked)
    → last ≢ nobody
    → spend es is n last ≢ nobody
unfolding spend
spend-nobody es [] n last some_last h = some_last h
spend-nobody es (j ∷ is) n last some_last h =
    ground (arith, spend-nobody es is (int64_of (n -ℤ weight_at es j)) last some_last)

available_from-empty :
    (p : ProxyPool) (clock : ℕ → ℕ) (k j i : ℕ) (es : List ProxyEntry) (e : ProxyEntry)
    → i ≡ k + j
    → available_from p clock k es ≡ []
    → get_elem? es j ≡ some e
    → usable p (clock i) e ≡ false
unfolding available_from
available_from-empty p clock k j i [] e at none_left h = cc h
available_from-empty p clock k zero i (d ∷ es) e at none_left h =
    let same : i ≡ k = omega arith in ground (arith, ap clock same)
available_from-empty p clock k (suc j) i (d ∷ es) e at none_left h =
    available_from-empty p clock (k + 1) j i es e (omega arith) (ground arith) h

module _ (intn : ℕ → ℕ) where
  weighted_pick-nobody : (es : List ProxyEntry) (is : List ℕ) → weighted_pick intn es is ≢ nobody
  unfolding weighted_pick
  weighted_pick-nobody es is h = ground (
    arith,
    nth-nobody is (intn (length is)),
    spend-nobody es is (pos (intn (pos_part (weight_sum es is)))) (nth is (length is - 1))
        (nth-nobody is (length is - 1)),
  )

  choose-nobody :
      (p : ProxyPool) (is : List ℕ) (s : RotationStrategy) → (choose intn p is s).0 ≢ nobody
  unfolding choose
  choose-nobody p is rotate_random = nth-nobody is _
  choose-nobody p is rotate_weighted = weighted_pick-nobody p.entries is
  choose-nobody p is rotate_round_robin = nth_from-nobody is p.rr_index

  -- `Next` hands out nothing only where no entry of the pool may be used.
  pub next-nobody :
      (p : ProxyPool) (clock : ℕ → ℕ)
      → (next intn p clock).0 ≡ nobody
      → (i : ℕ) (e : ProxyEntry) → get_elem? p.entries i ≡ some e
      → usable p (clock i) e ≡ false
  unfolding next available
  next-nobody p clock h i e listed =
      available_from-empty p clock 0 i i p.entries e (omega arith)
        (ground (arith, choose-nobody p (available p clock) p.strategy)) listed

nth-picked : (is : List ℕ) (k : ℕ) → k < length is → (i : ℕ) × (nth is k ≡ picked i)
nth-picked [] k h = absurd (omega arith)
nth-picked (j ∷ is) zero h = (j, refl)
nth-picked (j ∷ is) (suc k) h = nth-picked is k (omega arith)

nth_from-picked :
    (is : List ℕ) (k : ℤ) → pos 0 ≤ℤ k → 0 < length is → (i : ℕ) × (nth_from is k ≡ picked i)
nth_from-picked is (pos n) h left = nth-picked is (n % length is) (omega (arith, left))
nth_from-picked is (negsuc n) h left = absurd (omega arith)

weight_at-nonneg :
    (es : List ProxyEntry) (i : ℕ)
    → All (λ (e : ProxyEntry). pos 0 ≤ℤ e.weight) es
    → pos 0 ≤ℤ weight_at es i
weight_at-nonneg [] i h = omega arith
weight_at-nonneg (e ∷ es) zero (w, ws) = w
weight_at-nonneg (e ∷ es) (suc i) (w, ws) = weight_at-nonneg es i ws

weights_nonneg :
    (es : List ProxyEntry) (is : List ℕ)
    → All (λ (e : ProxyEntry). pos 0 ≤ℤ e.weight) es
    → All (λ i. pos 0 ≤ℤ weight_at es i) is
weights_nonneg es [] h = tt
weights_nonneg es (i ∷ is) h = (weight_at-nonneg es i h, weights_nonneg es is h)

module _ (intn : ℕ → ℕ) (intn_lt : (n : ℕ) → 0 < n → intn n < n) where
  weighted_pick-picked :
      (es : List ProxyEntry) (is : List ℕ)
      → All (λ (e : ProxyEntry). pos 0 ≤ℤ e.weight) es
      → weight_total es is < 2 ^ 63
      → 0 < length is
      → (i : ℕ) × (weighted_pick intn es is ≡ picked i)
  unfolding weighted_pick
  weighted_pick-picked es is h small some_left = elim (Bool-cases (ltb 0 (weight_total es is))) [
    | inl heavy ↦
        let (i, e, listed, w) =
          weighted_pick-pos intn intn_lt es is (weights_nonneg es is h) small (ground arith) in
        (i, e)
    | inr light ↦
        let (i, e) = nth-picked is (intn (length is)) (intn_lt (length is) some_left) in
        let none_weighs : weight_total es is ≡ 0 = ground arith in
        (i, rw (weight_sum-fits es is (weights_nonneg es is h) small, none_weighs, weighted_pick) e)
  ]

  choose-picked :
      (p : ProxyPool) (is : List ℕ) (s : RotationStrategy)
      → All (λ (e : ProxyEntry). pos 0 ≤ℤ e.weight) p.entries
      → weight_total p.entries is < 2 ^ 63
      → pos 0 ≤ℤ p.rr_index
      → 0 < length is
      → (i : ℕ) × ((choose intn p is s).0 ≡ picked i)
  unfolding choose
  choose-picked p is rotate_random h small at left = nth-picked is _ (intn_lt (length is) left)
  choose-picked p is rotate_weighted h small at left =
      weighted_pick-picked p.entries is h small left
  choose-picked p is rotate_round_robin h small at left = nth_from-picked is p.rr_index at left

  -- With weights that are not negative, where those of the entries that may be used add up to a number
  -- that fits an int, and with a round-robin position that is not negative, `Next` always comes to a choice: it hands out an entry of the pool that is
  -- not in cooldown, by whatever strategy and with whatever random numbers, or nothing where every entry
  -- is in cooldown; it never panics.
  pub next-outcome :
      (p : ProxyPool) (clock : ℕ → ℕ)
      → All (λ (e : ProxyEntry). pos 0 ≤ℤ e.weight) p.entries
      → weight_total p.entries (available p clock) < 2 ^ 63
      → pos 0 ≤ℤ p.rr_index
      → ((i : ℕ) × ((next intn p clock).0 ≡ picked i) × Usable p clock i)
        ⊎ (((next intn p clock).0 ≡ nobody)
            × ((i : ℕ) (e : ProxyEntry)
                → get_elem? p.entries i ≡ some e
                → usable p (clock i) e ≡ false))
  unfolding next
  next-outcome p clock h small at = elim (Bool-cases (length (available p clock) == 0)) [
    | inl empty ↦
        let nothing : (next intn p clock).0 ≡ nobody = ground arith in
        inr (nothing, next-nobody intn p clock nothing)
    | inr left ↦
        let (i, e) = choose-picked p (available p clock) p.strategy h small at (ground arith) in
        let out : (next intn p clock).0 ≡ picked i = ground (arith, e) in
        inl (i, out, next-Usable intn p clock i out)
  ]
