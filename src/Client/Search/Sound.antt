-- ===== src/Client/Search/Sound.antt =====
-- What every call of the client maintains of its anti-bot state.
use goddgs.Prelude.{ℕ, ◌+◌, ◌<◌, String, ◌≡◌, Option, none, some, List, [], ◌∷◌, arith, All}
use goddgs.Prelude.Int.{ℤ, pos, ◌≤ℤ◌}
use goddgs.Api.{SearchOptions}
use goddgs.Circuit.Transitions
use goddgs.Circuit.Transitions.{records-IsValid}
use goddgs.Rate.{on_block, on_success}
use goddgs.Rate.Delay
use goddgs.Rate.Delay.{wait-IsValid, on_block-IsValid, on_success-IsValid}
use goddgs.Proxy.{ProxyPool, mark_success, mark_failed}
use goddgs.Proxy.Health.{IsCounted, marks-IsCounted}
use goddgs.Session.{SessionManager, mark_warmed, invalidate}
use goddgs.Client.{AntiBotState, State, Settings, Io}
use goddgs.Client.Parse.{Library}
use goddgs.Client.Retry.{map_option}
use goddgs.Client.Retry.Changes.{
  Step, waited, slowed, eased, worked, broke, counted, closed, forgot, warmed, Reach, here, next,
  Moves, Reach-trans,
}
use goddgs.Client.Search.{client_search, search_pages}
use goddgs.Client.Search.Steps.{client_search-Moves, search_pages-Moves}

abbrev pub Holds : {A : Type 0} → (A → Type 0) → Option A → Type 0
Holds P none = Unit {0}
Holds P (some a) = P a

Holds-map :
    {A : Type 0} (P Q : A → Type 0) (f : A → A) (o : Option A)
    → ((a : A) → P a → Q (f a))
    → Holds P o
    → Holds Q (map_option f o)
Holds-map P Q f none keep h = tt
Holds-map P Q f (some a) keep h = keep a h

Holds-some : {A : Type 0} (P : A → Type 0) {o : Option A} {a : A} → o ≡ some a → Holds P o → P a
Holds-some P e h = rw e at h

abbrev pub IsCountedPool : ProxyPool → Type 0
IsCountedPool p = All IsCounted p.entries

abbrev pub IsMade : ℕ → SessionManager → Type 0
IsMade jars s = s.jar < jars

-- The delay of the limiter lies within its bounds, the breaker was opened only by enough blocks in a
-- row, the counters of the proxies are consistent, and the session's jar is one that was made.
pub record Sound (a : AntiBotState) : Type 0 where
  pub limiter : Holds Delay.IsValid a.rate_limit
  pub breaker : Holds Transitions.IsValid a.circuit
  pub proxies : Holds IsCountedPool a.proxy_pool
  pub jar : Holds (IsMade a.jars) a.session

module _ {scale : ℕ → ℕ → ℤ} (shrink_le : (d : ℕ) → scale 85 d ≤ℤ pos d) where
  Step-Sound : {a b : AntiBotState} → Step scale a b → Sound a → Sound b
  Step-Sound {a} (waited r gaussian now has) s = record {
    limiter = wait-IsValid scale gaussian now r (Holds-some Delay.IsValid has s.limiter);
    breaker = s.breaker;
    proxies = s.proxies;
    jar = s.jar;
  }
  Step-Sound {a} slowed s = record {
    limiter =
        Holds-map Delay.IsValid Delay.IsValid (on_block scale) a.rate_limit
          (on_block-IsValid scale shrink_le) s.limiter;
    breaker = s.breaker;
    proxies = s.proxies;
    jar = s.jar;
  }
  Step-Sound {a} eased s = record {
    limiter =
        Holds-map Delay.IsValid Delay.IsValid (on_success scale) a.rate_limit
          (on_success-IsValid scale shrink_le) s.limiter;
    breaker = s.breaker;
    proxies = s.proxies;
    jar = s.jar;
  }
  Step-Sound {a} (worked via) s = record {
    limiter = s.limiter;
    breaker = s.breaker;
    proxies =
        Holds-map IsCountedPool IsCountedPool (λ p. mark_success p via) a.proxy_pool
          (λ p h. (marks-IsCounted p via 0 h).0) s.proxies;
    jar = s.jar;
  }
  Step-Sound {a} (broke via at) s = record {
    limiter = s.limiter;
    breaker = s.breaker;
    proxies =
        Holds-map IsCountedPool IsCountedPool (λ p. mark_failed p via at) a.proxy_pool
          (λ p h. (marks-IsCounted p via at h).1) s.proxies;
    jar = s.jar;
  }
  Step-Sound {a} (counted cb tested set has) s = record {
    limiter = s.limiter;
    breaker =
        (records-IsValid (pos 0) (pos 0) cb tested set
          (Holds-some Transitions.IsValid has s.breaker)).1;
    proxies = s.proxies;
    jar = s.jar;
  }
  Step-Sound {a} (closed cb tested has) s = record {
    limiter = s.limiter;
    breaker =
        (records-IsValid (pos 0) (pos 0) cb tested 0
          (Holds-some Transitions.IsValid has s.breaker)).2;
    proxies = s.proxies;
    jar = s.jar;
  }
  Step-Sound {a} forgot s = record {
    limiter = s.limiter;
    breaker = s.breaker;
    proxies = s.proxies;
    jar =
        Holds-map (IsMade a.jars) (IsMade (a.jars + 1)) (invalidate a.jars) a.session
          (λ m h. unfold invalidate in omega arith) s.jar;
  }
  Step-Sound {a} (warmed m at has) s = record {
    limiter = s.limiter;
    breaker = s.breaker;
    proxies = s.proxies;
    jar = unfold mark_warmed in Holds-some (IsMade a.jars) has s.jar;
  }

  Reach-Sound : {o p : Option AntiBotState} → Reach scale o p → Holds Sound o → Holds Sound p
  Reach-Sound here s = s
  Reach-Sound (next r t) s = Step-Sound t (Reach-Sound r s)

-- A call of the client: `Search`, or `SearchPages` with the size and the number of its pages.
pub data Call : Type 0 where
  one_search : (fuel : ℕ) (query : String) (opts : SearchOptions) → Call
  many_pages : (fuel : ℕ) (query : String) (per_page pages : ℤ) (opts : SearchOptions) → Call

module _ {W : Type 0} (io : Io W) (cfg : Settings) (lib : Library) where
  unfoldable after_call : Call → State W → State W
  after_call (one_search fuel query opts) st = (client_search io cfg lib fuel query opts st).1
  after_call (many_pages fuel query per_page pages opts) st =
      (search_pages io cfg lib fuel query per_page pages opts st).1

  -- The client after some calls, one after another.
  unfoldable pub after_calls : List Call → State W → State W
  unfolding after_call
  after_calls [] st = st
  after_calls (c ∷ cs) st = after_calls cs (after_call c st)

  after_calls-Moves : (cs : List Call) (st : State W) → Moves io.scale st (after_calls cs st)
  unfolding after_calls
  after_calls-Moves [] st = here
  after_calls-Moves (one_search fuel query opts ∷ cs) st =
      Reach-trans (client_search-Moves io cfg lib fuel query opts st) (after_calls-Moves cs _)
  after_calls-Moves (many_pages fuel query per_page pages opts ∷ cs) st =
      Reach-trans (search_pages-Moves io cfg lib fuel query per_page pages opts st)
        (after_calls-Moves cs _)

  -- Any number of calls keep a sound anti-bot state sound, whatever the world does.
  pub after_calls-Sound :
      (shrink_le : (d : ℕ) → io.scale 85 d ≤ℤ pos d) (cs : List Call) (st : State W)
      → Holds Sound st.anti_bot
      → Holds Sound (after_calls cs st).anti_bot
  after_calls-Sound shrink_le cs st s = Reach-Sound shrink_le (after_calls-Moves cs st) s
