-- ===== src/Proxy.antt =====
-- proxypool.go. A `*ProxyEntry` is its position in the pool. The readings of the clock that a scan
-- makes are a function of the position. `rand.Intn` and `url.Parse` are parameters; `rand.Intn`
-- panics on an argument that is not positive.
pub mod Health
pub mod Choice
pub mod Outcome
pub mod Weights
use text.Mathlib.Text.{◌==◌ as str_eq}
use goddgs.Prelude.{
  ℕ, zero, suc, ◌+◌, ◌*◌, ◌%◌, String, Bool, true, false, ◌&&◌, ◌||◌, Option, none, some, List, [],
  ◌∷◌, ◌++◌, ◌-◌, length, get_elem?, ◌==◌, if◌then◌else◌,
}
use goddgs.Prelude.Int.{ℤ, pos, negsuc, pos_part, ◌+ℤ◌, ◌-ℤ◌, ltb_ℤ, leb_ℤ, int64_of}

pub data RotationStrategy : Type 0 where
  rotate_round_robin rotate_random rotate_weighted : RotationStrategy

pub record ProxyEntry : Type 0 where
  pub url : String
  pub weight : ℤ
  pub consecutive_fails : ℕ
  pub last_fail : ℕ
  pub requests : ℕ
  pub failures : ℕ

pub record ProxyStats : Type 0 where
  pub url : String
  pub requests : ℕ
  pub failures : ℕ
  pub consecutive_fails : ℕ
  pub in_cooldown : Bool

pub record ProxyPool : Type 0 where
  pub entries : List ProxyEntry
  pub strategy : RotationStrategy
  pub cooldown : ℤ
  pub max_fails : ℤ
  pub rr_index : ℤ
  pub total : ℤ

new_entry : String → ProxyEntry
new_entry url = record {
  url = url;
  weight = pos 1;
  consecutive_fails = 0;
  last_fail = 0;
  requests = 0;
  failures = 0;
}

-- The loop of `NewProxyPool`; `none` is the error for a URL that `url.Parse` refuses.
add_urls : (String → Bool) → List String → ProxyPool → Option ProxyPool
unfolding new_entry
add_urls parses [] p = some p
add_urls parses (url ∷ urls) p =
    let rest =
      add_urls parses urls
        (record p { entries = p.entries ++ new_entry url ∷ []; total = p.total +ℤ pos 1 }) in
    if parses url then rest else none

-- `NewProxyPool`.
unfoldable pub new_proxy_pool : (String → Bool) → List String → RotationStrategy → Option ProxyPool
unfolding add_urls
new_proxy_pool parses urls strategy = add_urls parses urls (record {
  entries = [];
  strategy = strategy;
  cooldown = pos (60 * 1_000_000_000);
  max_fails = pos 3;
  rr_index = pos 0;
  total = pos 0;
})

-- `SetCooldown`.
unfoldable set_cooldown : ProxyPool → ℤ → ℤ → ProxyPool
set_cooldown p cooldown max_fails = record p { cooldown = cooldown; max_fails = max_fails }

-- The loop of `SetWeight`: the first entry with the URL, and the total.
reweigh : String → ℤ → List ProxyEntry → ℤ → List ProxyEntry × ℤ
reweigh url weight [] total = ([], total)
reweigh url weight (e ∷ es) total =
    let (rest, later) = reweigh url weight es total in
    if str_eq e.url url
    then (record e { weight = weight } ∷ es, total +ℤ (weight -ℤ e.weight))
    else (e ∷ rest, later)

-- `SetWeight`.
unfoldable pub set_weight : ProxyPool → String → ℤ → ProxyPool
unfolding reweigh
set_weight p url weight =
    let (entries, total) = reweigh url weight p.entries p.total in
    record p { entries = entries; total = total }

-- `time.Since(e.lastFail)` at the time `now`.
abbrev since : ℕ → ProxyEntry → ℤ
since now e = pos now -ℤ pos e.last_fail

-- The test of `available`.
unfoldable pub usable : ProxyPool → ℕ → ProxyEntry → Bool
usable p now e = ltb_ℤ (pos e.consecutive_fails) p.max_fails || ltb_ℤ p.cooldown (since now e)

-- The loop of `available`, over the entries from position `i` on.
pub available_from : ProxyPool → (ℕ → ℕ) → ℕ → List ProxyEntry → List ℕ
unfolding usable
available_from p clock i [] = []
available_from p clock i (e ∷ es) =
    let rest = available_from p clock (i + 1) es in if usable p (clock i) e then i ∷ rest else rest

-- `available`.
unfoldable pub available : ProxyPool → (ℕ → ℕ) → List ℕ
unfolding available_from
available p clock = available_from p clock 0 p.entries

-- What a choice of an entry comes to.
pub data Picked : Type 0 where
  picked : ℕ → Picked
  nobody : Picked
  panics : Picked

abbrev pub weight_at : List ProxyEntry → ℕ → ℤ
weight_at entries i = elim (get_elem? entries i) [ none ↦ pos 0 | some e ↦ e.weight ]

-- The two loops of `weightedPick`, in 64-bit arithmetic: the sum of the weights, and the entry at which
-- `n` is used up.
unfoldable pub weight_sum : List ProxyEntry → List ℕ → ℤ
unfolding int64_of
weight_sum entries [] = pos 0
weight_sum entries (i ∷ is) = int64_of (weight_at entries i +ℤ weight_sum entries is)

unfoldable pub spend : List ProxyEntry → List ℕ → ℤ → Picked → Picked
unfolding int64_of
spend entries [] n last = last
spend entries (i ∷ is) n last =
    let left = int64_of (n -ℤ weight_at entries i) in
    let rest = spend entries is left last in if ltb_ℤ left (pos 0) then picked i else rest

-- `entries[k]` of the available entries.
abbrev nth : List ℕ → ℕ → Picked
nth is k = elim (get_elem? is k) [ none ↦ panics | some i ↦ picked i ]

-- `avail[rrIndex % len(avail)]`: the remainder of a negative number is negative or zero.
abbrev pub nth_from : List ℕ → ℤ → Picked
nth_from is (pos n) = nth is (n % length is)
nth_from is (negsuc n) = if suc n % length is == 0 then nth is 0 else panics

module _ (intn : ℕ → ℕ) where
  -- `weightedPick`.
  unfoldable pub weighted_pick : List ProxyEntry → List ℕ → Picked
  unfolding weight_sum spend
  weighted_pick entries is =
      let total = weight_sum entries is in
      if leb_ℤ total (pos 0) && leb_ℤ (pos 0) total
      then nth is (intn (length is))
      else if ltb_ℤ total (pos 0)
      then panics
      else spend entries is (pos (intn (pos_part total))) (nth is (length is - 1))

  -- The switch of `Next`, on entries of which there is one at least.
  choose : ProxyPool → List ℕ → RotationStrategy → Picked × ProxyPool
  unfolding weighted_pick int64_of
  choose p is rotate_random = (nth is (intn (length is)), p)
  choose p is rotate_weighted = (weighted_pick p.entries is, p)
  choose p is rotate_round_robin =
      (nth_from is p.rr_index, record p { rr_index = int64_of (p.rr_index +ℤ pos 1) })

  -- `Next`.
  unfoldable pub next : ProxyPool → (ℕ → ℕ) → Picked × ProxyPool
  unfolding available choose
  next p clock =
      let is = available p clock in if length is == 0 then (nobody, p) else choose p is p.strategy

-- A change of the entry at a position; a nil or foreign pointer changes nothing of the pool.
abbrev update_at : ℕ → (ProxyEntry → ProxyEntry) → List ProxyEntry → List ProxyEntry
update_at i f [] = []
update_at zero f (e ∷ es) = f e ∷ es
update_at (suc i) f (e ∷ es) = e ∷ update_at i f es

abbrev pub succeeded : ProxyEntry → ProxyEntry
succeeded e = record e { consecutive_fails = 0; requests = e.requests + 1 }

abbrev pub failed : ℕ → ProxyEntry → ProxyEntry
failed now e = record e {
  consecutive_fails = e.consecutive_fails + 1;
  last_fail = now;
  requests = e.requests + 1;
  failures = e.failures + 1;
}

-- `MarkSuccess` and `MarkFailed`; `none` is the nil pointer.
unfoldable pub mark_success : ProxyPool → Option ℕ → ProxyPool
mark_success p none = p
mark_success p (some i) = record p { entries = update_at i succeeded p.entries }

unfoldable pub mark_failed : ProxyPool → Option ℕ → ℕ → ProxyPool
mark_failed p none now = p
mark_failed p (some i) now = record p { entries = update_at i (failed now) p.entries }

-- `Stats`, over the entries from position `i` on.
stats_from : ProxyPool → (ℕ → ℕ) → ℕ → List ProxyEntry → List ProxyStats
stats_from p clock i [] = []
stats_from p clock i (e ∷ es) =
    record {
      url = e.url;
      requests = e.requests;
      failures = e.failures;
      consecutive_fails = e.consecutive_fails;
      in_cooldown =
          leb_ℤ p.max_fails (pos e.consecutive_fails) && leb_ℤ (since (clock i) e) p.cooldown;
    }
    ∷ stats_from p clock (i + 1) es

unfoldable pub stats : ProxyPool → (ℕ → ℕ) → List ProxyStats
unfolding stats_from
stats p clock = stats_from p clock 0 p.entries

-- `Len`.
unfoldable len : ProxyPool → ℕ
len p = length p.entries
