-- ===== src/Browser/HttpClient.antt =====
-- httpclient.go, and the constructor of transport.go. `parse_url` stands for `url.Parse` and gives its
-- error; a cookie jar is the number under which it was made.
use text.Mathlib.Text.{◌==◌ as str_eq}
use goddgs.Prelude.{ℕ, ◌*◌, ◌⊎◌, inl, inr, String, Option, none, some, if◌then◌else◌}
use goddgs.Prelude.Int.{ℤ, positive_or}
use goddgs.Failure.{GoError, is_nil, wrapped}
use goddgs.Proxy.{ProxyPool}
use goddgs.Browser.{new_user_agent_pool}
use goddgs.Browser.Transport.{AntiBotTransport}

-- `newAntiBotTransport`, without the limits of the transport below it.
unfoldable pub new_anti_bot_transport : Option ProxyPool → AntiBotTransport
new_anti_bot_transport pool = record {
  ua_pool = none;
  proxy_pool = pool;
  active_proxy = none;
  last_proxy = none;
}

-- The transport of an `http.Client`: the library's, with the URL of its proxy if it has one, or this one.
pub data RoundTripper : Type 0 where
  standard : Option String → RoundTripper
  anti_bot : AntiBotTransport → RoundTripper

-- The fields of `http.Client` that are set here.
pub record HttpClient : Type 0 where
  pub timeout : ℕ
  pub jar : Option ℕ
  pub transport : RoundTripper

abbrev pub default_timeout : ℕ
default_timeout = 15 * 1_000_000_000

abbrev pub plain_client : ℤ → Option String → HttpClient
unfolding positive_or
plain_client timeout proxy = record {
  timeout = positive_or timeout default_timeout;
  jar = none;
  transport = standard proxy;
}

-- `NewHTTPClient`.
unfoldable pub new_http_client : (String → GoError) → ℤ → String → HttpClient ⊎ GoError
new_http_client parse_url timeout proxy_url =
    if str_eq proxy_url ""
    then inl (plain_client timeout none)
    else if is_nil (parse_url proxy_url)
    then inl (plain_client timeout (some proxy_url))
    else inr (wrapped "invalid proxy url: " (parse_url proxy_url) "")

-- `NewAntiBotHTTPClient`, with the number of the jar that it makes.
unfoldable pub new_anti_bot_http_client : ℤ → Option ProxyPool → ℕ → HttpClient
unfolding positive_or new_anti_bot_transport new_user_agent_pool
new_anti_bot_http_client timeout pool jar = record {
  timeout = positive_or timeout default_timeout;
  jar = some jar;
  transport =
      anti_bot (record (new_anti_bot_transport pool) { ua_pool = some new_user_agent_pool });
}
