-- ===== src/Browser.antt =====
-- ua.go: the pool of user agents, and the draw from it.
pub mod Hints
pub mod Headers
pub mod Transport
pub mod HttpClient
pub mod Agents
use goddgs.Prelude.{ℕ, ◌+◌, ◌-◌, String, Option, none, some, List, [], ◌∷◌, ltb, if◌then◌else◌}

pub data Family : Type 0 where
  chrome edge firefox safari : Family

-- `UAEntry`.
pub record UaEntry : Type 0 where
  pub ua : String
  pub family : Family
  pub weight : ℕ

-- `UserAgentPool`.
pub record UserAgentPool : Type 0 where
  pub entries : List UaEntry
  pub total : ℕ

abbrev entry : String → Family → ℕ → UaEntry
entry ua family weight = record { ua = ua; family = family; weight = weight }

-- `defaultUAs`.
abbrev pub default_uas : List UaEntry
default_uas =
    entry
      "Mozilla/5.0 (Windows NT 10.0; Win64; x64) AppleWebKit/537.36 (KHTML, like Gecko) Chrome/124.0.0.0 Safari/537.36"
      chrome 15
    ∷ entry
        "Mozilla/5.0 (Windows NT 10.0; Win64; x64) AppleWebKit/537.36 (KHTML, like Gecko) Chrome/123.0.0.0 Safari/537.36"
        chrome 10
    ∷ entry
        "Mozilla/5.0 (Windows NT 10.0; Win64; x64) AppleWebKit/537.36 (KHTML, like Gecko) Chrome/122.0.0.0 Safari/537.36"
        chrome 6
    ∷ entry
        "Mozilla/5.0 (Windows NT 10.0; Win64; x64) AppleWebKit/537.36 (KHTML, like Gecko) Chrome/121.0.0.0 Safari/537.36"
        chrome 3
    ∷ entry
        "Mozilla/5.0 (Macintosh; Intel Mac OS X 10_15_7) AppleWebKit/537.36 (KHTML, like Gecko) Chrome/124.0.0.0 Safari/537.36"
        chrome 12
    ∷ entry
        "Mozilla/5.0 (Macintosh; Intel Mac OS X 10_15_7) AppleWebKit/537.36 (KHTML, like Gecko) Chrome/123.0.0.0 Safari/537.36"
        chrome 7
    ∷ entry
        "Mozilla/5.0 (Macintosh; Intel Mac OS X 10_15_7) AppleWebKit/537.36 (KHTML, like Gecko) Chrome/122.0.0.0 Safari/537.36"
        chrome 4
    ∷ entry
        "Mozilla/5.0 (X11; Linux x86_64) AppleWebKit/537.36 (KHTML, like Gecko) Chrome/124.0.0.0 Safari/537.36"
        chrome 4
    ∷ entry
        "Mozilla/5.0 (X11; Linux x86_64) AppleWebKit/537.36 (KHTML, like Gecko) Chrome/123.0.0.0 Safari/537.36"
        chrome 3
    ∷ entry
        "Mozilla/5.0 (Linux; Android 14; Pixel 8) AppleWebKit/537.36 (KHTML, like Gecko) Chrome/124.0.6367.82 Mobile Safari/537.36"
        chrome 4
    ∷ entry
        "Mozilla/5.0 (Linux; Android 14; SM-S918B) AppleWebKit/537.36 (KHTML, like Gecko) Chrome/124.0.6367.82 Mobile Safari/537.36"
        chrome 3
    ∷ entry
        "Mozilla/5.0 (Linux; Android 13; Pixel 7) AppleWebKit/537.36 (KHTML, like Gecko) Chrome/123.0.6312.99 Mobile Safari/537.36"
        chrome 2
    ∷ entry
        "Mozilla/5.0 (Windows NT 10.0; Win64; x64) AppleWebKit/537.36 (KHTML, like Gecko) Chrome/124.0.0.0 Safari/537.36 Edg/124.0.0.0"
        edge 4
    ∷ entry
        "Mozilla/5.0 (Windows NT 10.0; Win64; x64) AppleWebKit/537.36 (KHTML, like Gecko) Chrome/123.0.0.0 Safari/537.36 Edg/123.0.0.0"
        edge 2
    ∷ entry
        "Mozilla/5.0 (Macintosh; Intel Mac OS X 14_4_1) AppleWebKit/605.1.15 (KHTML, like Gecko) Version/17.4.1 Safari/605.1.15"
        safari 9
    ∷ entry
        "Mozilla/5.0 (Macintosh; Intel Mac OS X 14_3) AppleWebKit/605.1.15 (KHTML, like Gecko) Version/17.3.1 Safari/605.1.15"
        safari 5
    ∷ entry
        "Mozilla/5.0 (Macintosh; Intel Mac OS X 13_6_5) AppleWebKit/605.1.15 (KHTML, like Gecko) Version/17.2 Safari/605.1.15"
        safari 3
    ∷ entry
        "Mozilla/5.0 (iPhone; CPU iPhone OS 17_4_1 like Mac OS X) AppleWebKit/605.1.15 (KHTML, like Gecko) Version/17.4.1 Mobile/15E148 Safari/604.1"
        safari 6
    ∷ entry
        "Mozilla/5.0 (iPhone; CPU iPhone OS 17_3_1 like Mac OS X) AppleWebKit/605.1.15 (KHTML, like Gecko) Version/17.3 Mobile/15E148 Safari/604.1"
        safari 3
    ∷ entry "Mozilla/5.0 (Windows NT 10.0; Win64; x64; rv:125.0) Gecko/20100101 Firefox/125.0"
        firefox 3
    ∷ entry "Mozilla/5.0 (Windows NT 10.0; Win64; x64; rv:124.0) Gecko/20100101 Firefox/124.0"
        firefox 2
    ∷ entry "Mozilla/5.0 (Macintosh; Intel Mac OS X 14.4; rv:125.0) Gecko/20100101 Firefox/125.0"
        firefox 2
    ∷ entry "Mozilla/5.0 (X11; Linux x86_64; rv:125.0) Gecko/20100101 Firefox/125.0" firefox 1
    ∷ []

abbrev pub total_weight : List UaEntry → ℕ
total_weight [] = 0
total_weight (e ∷ es) = e.weight + total_weight es

-- `NewUserAgentPool`.
unfoldable pub new_user_agent_pool : UserAgentPool
new_user_agent_pool = record { entries = default_uas; total = total_weight default_uas }

-- The loop of `Pick`, and the last entry for a number that no weight covers.
unfoldable pub pick_from : ℕ → List UaEntry → Option UaEntry
pick_from n [] = none
pick_from n (e ∷ []) = some e
pick_from n (e ∷ f ∷ es) = if ltb n e.weight then some e else pick_from (n - e.weight) (f ∷ es)

-- `Pick`, given the number from `rand.Intn`; an empty pool has no entry to give.
unfoldable pub pick : ℕ → UserAgentPool → Option UaEntry
unfolding pick_from
pick n p = pick_from n p.entries

-- `singleUAPool`; its entry has no family, and nothing reads the family of an entry.
unfoldable pub single_ua_pool : Family → String → UserAgentPool
single_ua_pool family ua = record { entries = entry ua family 1 ∷ []; total = 1 }

-- `defaultUserAgent` of client.go.
abbrev pub default_user_agent : String
default_user_agent =
    "Mozilla/5.0 (X11; Linux x86_64) AppleWebKit/537.36 (KHTML, like Gecko) Chrome/124.0 Safari/537.36"
