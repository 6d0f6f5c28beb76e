-- ===== src/Proxy/Choice.antt =====
-- What `Next` hands out.
use goddgs.Prelude.{
  ℕ, zero, suc, ◌+◌, ◌-◌, ◌^◌, ◌%◌, ◌≤◌, ◌<◌, ◌≡◌, refl, ap, ◌∙◌, ◌⊎◌, inl, inr, true, some, List,
  [], ◌∷◌, arith, length, get_elem?, All, Bool-cases,
}
use goddgs.Prelude.Int.{
  int64_of, int64_of-fits, eq_of_parts, one_sided, neg_part, ◌+ℤ◌, ℤ, pos, pos_part, negsuc, ◌≤ℤ◌,
  ◌<ℤ◌, ◌-ℤ◌, -ℤ_parts, ltb_ℤ,
}
use goddgs.Proxy.{
  ProxyPool, ProxyEntry, RotationStrategy, rotate_round_robin, rotate_random, rotate_weighted,
  Picked, picked, usable, available_from, available, weight_at, weight_sum, spend, nth, nth_from,
  weighted_pick, choose, next,
}

abbrev pub IsIn : ℕ → List ℕ → Type 0
IsIn i [] = ⊥
IsIn i (j ∷ js) = (i ≡ j) ⊎ IsIn i js

-- The entry at a position may be used now.
pub record Usable (p : ProxyPool) (clock : ℕ → ℕ) (i : ℕ) : Type 0 where
  pub entry : ProxyEntry
  pub listed : get_elem? p.entries i ≡ some entry
  pub fit : usable p (clock i) entry ≡ true

available_from-fit :
    (p : ProxyPool) (clock : ℕ → ℕ) (k i : ℕ) (es : List ProxyEntry)
    → IsIn i (available_from p clock k es)
    → (j : ℕ) × (e : ProxyEntry) × (i ≡ k + j)
      × (get_elem? es j ≡ some e)
      × (usable p (clock i) e ≡ true)
unfolding available_from
available_from-fit p clock k i [] h = absurd h
available_from-fit p clock k i (e ∷ es) h = elim (Bool-cases (usable p (clock k) e)) [
  | inl fit ↦ elim (rw fit at h) [
    | inl same ↦ (0, e, omega arith, refl, rw same fit)
    | inr later ↦ deeper (available_from-fit p clock (k + 1) i es later)
  ]
  | inr unfit ↦ deeper (available_from-fit p clock (k + 1) i es (rw unfit at h))
]
  where
    deeper :
        ((j : ℕ) × (d : ProxyEntry) × (i ≡ k + 1 + j)
          × (get_elem? es j ≡ some d)
          × (usable p (clock i) d ≡ true))
        → (j : ℕ) × (d : ProxyEntry) × (i ≡ k + j)
          × (get_elem? (e ∷ es) j ≡ some d)
          × (usable p (clock i) d ≡ true)
    deeper (j, d, at, listed, fit) = (suc j, d, omega arith, listed, fit)

available-Usable :
    (p : ProxyPool) (clock : ℕ → ℕ) (i : ℕ) → IsIn i (available p clock) → Usable p clock i
unfolding available
available-Usable p clock i h =
    let (j, e, at, listed, fit) = available_from-fit p clock 0 i p.entries h in
    let same : i ≡ j = omega arith in
    record { entry = e; listed = ap (get_elem? p.entries) same ∙ listed; fit = fit }

nth-IsIn : (is : List ℕ) (k i : ℕ) → nth is k ≡ picked i → IsIn i is
nth-IsIn [] k i h = cc
nth-IsIn (j ∷ is) zero i h = inl (ground arith)
nth-IsIn (j ∷ is) (suc k) i h = inr (nth-IsIn is k i h)

nth_from-IsIn : (is : List ℕ) (k : ℤ) (i : ℕ) → nth_from is k ≡ picked i → IsIn i is
nth_from-IsIn is (pos n) i h = nth-IsIn is (n % length is) i h
nth_from-IsIn is (negsuc n) i h = ground (arith, nth-IsIn is 0 i)

spend-IsIn :
    (es : List ProxyEntry) (is : List ℕ) (n : ℤ) (last : Picked) (i : ℕ)
    → spend es is n last ≡ picked i
    → IsIn i is ⊎ (last ≡ picked i)
unfolding spend
spend-IsIn es [] n last i h = inr h
spend-IsIn es (j ∷ is) n last i h =
    ground (arith, spend-IsIn es is (int64_of (n -ℤ weight_at es j)) last i)

-- The sum of the weights of entries, as a number.
abbrev pub weight_total : List ProxyEntry → List ℕ → ℕ
weight_total es [] = 0
weight_total es (i ∷ is) = pos_part (weight_at es i) + weight_total es is

-- The parts of a sum of two integers that are not negative, and of a difference.
sum_parts :
    (a b : ℤ) (n : ℕ)
    → pos 0 ≤ℤ a
    → b ≡ pos n
    → (pos_part (a +ℤ b) ≡ pos_part a + n) × (neg_part (a +ℤ b) ≡ 0)
unfolding ◌+ℤ◌
sum_parts a b n h e = rw e (ground arith)

sub_bounds :
    (n w : ℤ) (rest : ℕ)
    → pos 0 ≤ℤ n
    → pos 0 ≤ℤ w
    → pos_part w + rest < 2 ^ 63
    → n <ℤ pos (pos_part w + rest)
    → (pos_part (n -ℤ w) < 2 ^ 63) × (neg_part (n -ℤ w) ≤ 2 ^ 63)
unfolding ◌-ℤ◌
sub_bounds n w rest h heavy small lt = ground arith

pub weight_sum-fits :
    (es : List ProxyEntry) (is : List ℕ)
    → All (λ i. pos 0 ≤ℤ weight_at es i) is
    → weight_total es is < 2 ^ 63
    → weight_sum es is ≡ pos (weight_total es is)
unfolding weight_sum
weight_sum-fits es [] h small = refl
weight_sum-fits es (i ∷ is) (w, ws) small =
    let rest = weight_sum-fits es is ws (omega arith) in
    let total = weight_at es i +ℤ weight_sum es is in
    let (above, below) =
      sum_parts (weight_at es i) (weight_sum es is) (weight_total es is) w rest in
    int64_of-fits total (omega arith) (omega arith) ∙ eq_of_parts total _ (omega arith)

-- A draw below the sum of the weights ends at an entry whose weight it uses up.
spend-pos :
    (es : List ProxyEntry) (is : List ℕ) (n : ℤ) (last : Picked)
    → All (λ i. pos 0 ≤ℤ weight_at es i) is
    → pos 0 ≤ℤ n
    → weight_total es is < 2 ^ 63
    → n <ℤ pos (weight_total es is)
    → (i : ℕ) × (spend es is n last ≡ picked i) × IsIn i is × (pos 0 <ℤ weight_at es i)
unfolding spend
spend-pos es [] n last w h small lt = absurd (omega arith)
spend-pos es (j ∷ is) n last (w, ws) h small lt =
    let left = n -ℤ weight_at es j in
    let (over, under) = sub_bounds n (weight_at es j) (weight_total es is) h w small lt in
    let same = int64_of-fits left over under in
    elim (Bool-cases (ltb_ℤ left (pos 0))) [
      | inl here ↦ (j, rw (same, here), inl refl, ground (arith, -ℤ_parts n (weight_at es j)))
      | inr later ↦
          let (i, e, listed, heavy) =
            spend-pos es is left last ws (ground (arith, -ℤ_parts n (weight_at es j))) (omega arith)
              (omega (arith, lt, -ℤ_parts n (weight_at es j), one_sided (weight_at es j))) in
          (i, rw (same, later) e, inr listed, heavy)
    ]

module _ (intn : ℕ → ℕ) where
  weighted_pick-IsIn :
      (es : List ProxyEntry) (is : List ℕ) (i : ℕ) → weighted_pick intn es is ≡ picked i → IsIn i is
  unfolding weighted_pick
  weighted_pick-IsIn es is i h = ground (
    arith,
    nth-IsIn is (intn (length is)) i,
    nth-IsIn is (length is - 1) i,
    spend-IsIn es is (pos (intn (pos_part (weight_sum es is)))) (nth is (length is - 1)) i,
  )

  choose-IsIn :
      (p : ProxyPool) (is : List ℕ) (s : RotationStrategy) (i : ℕ)
      → (choose intn p is s).0 ≡ picked i
      → IsIn i is
  unfolding choose
  choose-IsIn p is rotate_random i h = nth-IsIn is _ i h
  choose-IsIn p is rotate_weighted i h = weighted_pick-IsIn p.entries is i h
  choose-IsIn p is rotate_round_robin i h = nth_from-IsIn is p.rr_index i h

  -- By whatever strategy and with whatever random numbers, `Next` hands out an entry of the pool
  -- that is not in cooldown.
  pub next-Usable :
      (p : ProxyPool) (clock : ℕ → ℕ) (i : ℕ) → (next intn p clock).0 ≡ picked i → Usable p clock i
  unfolding next
  next-Usable p clock i h =
      available-Usable p clock i (ground (arith, choose-IsIn p (available p clock) p.strategy i))

  -- With weights that are not negative and not all zero, and whose sum fits an int, the weighted draw hands out an entry whose
  -- weight is positive; in particular it never panics and never runs out of entries.
  pub weighted_pick-pos :
      (intn_lt : (n : ℕ) → 0 < n → intn n < n) (es : List ProxyEntry) (is : List ℕ)
      → All (λ i. pos 0 ≤ℤ weight_at es i) is
      → weight_total es is < 2 ^ 63
      → 0 < weight_total es is
      → (i : ℕ) × (weighted_pick intn es is ≡ picked i) × IsIn i is × (pos 0 <ℤ weight_at es i)
  unfolding weighted_pick
  weighted_pick-pos intn_lt es is weights small some_weight =
      let total = weight_total es is in
      let last = nth is (length is - 1) in
      let (i, e, listed, heavy) =
        spend-pos es is (pos (intn total)) last weights (omega arith) small
          (omega (arith, intn_lt total some_weight)) in
      (
        i,
        rw (weight_sum-fits es is weights small, weighted_pick) (ground (arith, e)),
        listed,
        heavy,
      )

  choose-entries :
      (p : ProxyPool) (is : List ℕ) (s : RotationStrategy)
      → (choose intn p is s).1.entries ≡ p.entries
  unfolding choose
  choose-entries p is rotate_random = refl
  choose-entries p is rotate_weighted = refl
  choose-entries p is rotate_round_robin = refl

  -- `Next` changes no entry.
  pub next-entries : (p : ProxyPool) (clock : ℕ → ℕ) → (next intn p clock).1.entries ≡ p.entries
  unfolding next
  next-entries p clock = ground (arith, choose-entries p (available p clock) p.strategy)
