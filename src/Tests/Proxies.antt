-- ===== src/Tests/Proxies.antt =====
-- The proxy pool.
use goddgs.Prelude.{ℕ, ◌-◌, ◌<◌, ◌≡◌, ◌⊎◌, false, refl, some, [], ◌∷◌, arith, get_elem?}
use goddgs.Prelude.Int.{pos, ◌+ℤ◌, ◌-ℤ◌, int64}
use goddgs.Proxy.{
  ProxyPool, ProxyEntry, rotate_weighted, picked, nobody, usable, available, next, rotate_random,
}
use goddgs.Proxy.Choice.{Usable}
use goddgs.Proxy.Outcome.{next-outcome}

abbrev cold : ProxyEntry
cold = record {
  url = "http://a:1";
  weight = pos 5;
  consecutive_fails = 3;
  last_fail = 950;
  requests = 4;
  failures = 3;
}

abbrev warm : ProxyEntry
warm = record {
  url = "http://b:2";
  weight = pos 2;
  consecutive_fails = 0;
  last_fail = 0;
  requests = 7;
  failures = 1;
}

abbrev pool : ProxyPool
pool = record {
  entries = cold ∷ warm ∷ [];
  strategy = rotate_weighted;
  cooldown = pos 60;
  max_fails = pos 3;
  rr_index = pos 0;
  total = pos 7;
}

-- The greatest number that `rand.Intn` may return.
abbrev greatest : ℕ → ℕ
greatest n = n - 1

greatest_lt : (n : ℕ) → 0 < n → greatest n < n
greatest_lt n h = omega arith

next-outcome_example :
    ((i : ℕ) × ((next greatest pool (λ i. 1000)).0 ≡ picked i) × Usable pool (λ i. 1000) i)
    ⊎ (((next greatest pool (λ i. 1000)).0 ≡ nobody)
        × ((i : ℕ) (e : ProxyEntry)
            → get_elem? pool.entries i ≡ some e
            → usable pool 1000 e ≡ false))
unfolding ◌-ℤ◌
next-outcome_example =
    next-outcome greatest greatest_lt pool (λ i. 1000) (omega arith)
      (unfold available in omega arith) (omega arith)

-- The draw passes over the entry that is in cooldown.
second_drawn : (next greatest pool (λ i. 1000)).0 ≡ picked 1
unfolding next ◌-ℤ◌ ◌+ℤ◌ int64
second_drawn = refl

abbrev two_new : ProxyPool
two_new = record {
  entries =
      record {
        url = "http://a:1";
        weight = pos 1;
        consecutive_fails = 0;
        last_fail = 0;
        requests = 0;
        failures = 0;
      }
      ∷ record {
        url = "http://b:2";
        weight = pos 1;
        consecutive_fails = 0;
        last_fail = 0;
        requests = 0;
        failures = 0;
      }
      ∷ [];
  strategy = rotate_random;
  cooldown = pos 60_000_000_000;
  max_fails = pos 3;
  rr_index = pos 0;
  total = pos 2;
}
