-- ===== src/Tests/Routes.antt =====
-- A request through a pool of proxies.
use goddgs.Prelude.{ℕ, ◌≡◌, refl, ◌⊎◌, inl, String, true, Option, none, some, List, [], ◌∷◌}
use goddgs.Prelude.Int.{pos}
use goddgs.Failure.{GoError}
use goddgs.Net.{HttpRequest}
use goddgs.Proxy.{ProxyPool, ProxyEntry, rotate_round_robin, panics, next}
use goddgs.Browser.Transport.{UrlParts, Response, Decoders, AntiBotTransport, round_trip}
use goddgs.Browser.Transport.Routes.{Proxied, round_trip-Proxied}

abbrev entry : String → ProxyEntry
entry url = record {
  url = url;
  weight = pos 1;
  consecutive_fails = 0;
  last_fail = 0;
  requests = 0;
  failures = 0;
}

abbrev proxies : ProxyPool
proxies = record {
  entries = entry "http://a:1" ∷ entry "http://b:2" ∷ [];
  strategy = rotate_round_robin;
  cooldown = pos 60;
  max_fails = pos 3;
  rr_index = pos 1;
  total = pos 2;
}

abbrev transport : AntiBotTransport
transport = record {
  ua_pool = none;
  proxy_pool = some proxies;
  active_proxy = none;
  last_proxy = some 0;
}

abbrev parts : UrlParts
parts = record {
  host_of = λ s. "duckduckgo.com";
  path_of = λ s. "/";
  lower = λ s. s;
  has_suffix = λ s t. true;
}

abbrev readers : Decoders String
readers = record { gzip = λ b. (none, b); brotli = λ b. b; zstd = λ b. (none, b) }

abbrev asked : HttpRequest
asked = record { method = "GET"; url = "https://duckduckgo.com/"; headers = []; body = "" }

-- A network that notes the proxy of each request.
abbrev network :
    Option ℕ → HttpRequest → List (Option ℕ) → (Response String ⊎ GoError) × List (Option ℕ)
network via req seen = (
  inl (record {
    status_code = 200;
    headers = [];
    body = some "ok";
    length = pos 2;
    uncompressed = true;
  }),
  via ∷ seen,
)

round_trip-Proxied_example :
    ((round_trip parts readers network (λ n. 0) (λ i. 1000) 0 asked transport [] ≡ none)
      × ((next (λ n. 0) proxies (λ i. 1000)).0 ≡ panics))
    ⊎ ((out : ((Response String ⊎ GoError) × AntiBotTransport) × List (Option ℕ)) × (round_trip
            parts readers network
            (λ n. 0)
            (λ i. 1000)
            0
            asked
            transport
            []
          ≡ some out)
        × Proxied parts readers network (λ i. 1000) proxies 0 asked transport [] out)
round_trip-Proxied_example =
    round_trip-Proxied parts readers network (λ n. 0) (λ i. 1000) proxies 0 asked transport [] refl
