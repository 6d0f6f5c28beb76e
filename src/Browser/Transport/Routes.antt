-- ===== src/Browser/Transport/Routes.antt =====
-- transport.go: the proxy by which `RoundTrip` sends a request, over the proxies of proxypool.go.
use goddgs.Prelude.{
  ℕ, ◌≡◌, refl, ◌⊎◌, inl, inr, Option, none, some, false, get_elem?, ◌∙◌, ap, arith,
}
use goddgs.Failure.{GoError}
use goddgs.Net.{HttpRequest}
use goddgs.Proxy.{ProxyPool, ProxyEntry, usable, Picked, picked, nobody, panics, next}
use goddgs.Proxy.Choice.{Usable, next-Usable, next-entries}
use goddgs.Proxy.Outcome.{next-nobody}
use goddgs.Browser.Transport.{
  UrlParts, Response, Decoders, AntiBotTransport, prepare, drawn_agent, decompress_response, stored,
  pick_and_store_proxy, proxy_func, round_trip,
}

-- A transport that has settled on the proxy that it will report.
pub record Routed (clock : ℕ → ℕ) (p : ProxyPool) (t t1 : AntiBotTransport) : Type 0 where
  pub agents : t1.ua_pool ≡ t.ua_pool
  pub same : proxy_func t1 ≡ t1.last_proxy
  pub fit : (i : ℕ) → t1.last_proxy ≡ some i → Usable p clock i
  pub none_left :
      t1.last_proxy ≡ none
      → (i : ℕ) (e : ProxyEntry) → get_elem? p.entries i ≡ some e
      → usable p (clock i) e ≡ false
  pub pool : (q : ProxyPool) × (t1.proxy_pool ≡ some q) × (q.entries ≡ p.entries)

module _ (intn clock : ℕ → ℕ) (p : ProxyPool) (t : AntiBotTransport) where
  stored-Routed :
      (t1 : AntiBotTransport) (out : Picked × ProxyPool)
      → out ≡ next intn p clock
      → out.1.entries ≡ p.entries
      → stored t out ≡ some t1
      → Routed clock p t t1
  unfolding proxy_func
  stored-Routed t1 (picked i, q) at entries h = record {
    agents = ground arith;
    same = ground arith;
    fit = λ j e. next-Usable intn p clock j (ground arith);
    none_left = λ e. cc (e, h);
    pool = (q, ground arith, entries);
  }
  stored-Routed t1 (nobody, q) at entries h = record {
    agents = ground arith;
    same = ground arith;
    fit = λ j e. cc (e, h);
    none_left = λ e. next-nobody intn p clock (ground arith);
    pool = (q, ground arith, entries);
  }
  stored-Routed t1 (panics, q) at entries h = cc h

  pick-stored :
      t.proxy_pool ≡ some p → pick_and_store_proxy intn clock t ≡ stored t (next intn p clock)
  unfolding pick_and_store_proxy
  pick-stored e = by_pool t.proxy_pool e
    where
      by_pool :
          (pool : Option ProxyPool)
          → pool ≡ some p
          → (elim pool as (λ x. Option AntiBotTransport) [
            | none ↦ some t
            | some q ↦ stored t (next intn q clock)
          ])
            ≡ stored t (next intn p clock)
      by_pool none h = cc h
      by_pool (some q) h = cc h

  -- A choice ends in a panic of `Next` or in a transport that has settled.
  pick-Routed :
      t.proxy_pool ≡ some p
      → ((pick_and_store_proxy intn clock t ≡ none) × ((next intn p clock).0 ≡ panics))
        ⊎ ((t1 : AntiBotTransport) × (pick_and_store_proxy intn clock t ≡ some t1)
            × Routed clock p t t1)
  pick-Routed pool =
      rw (pick-stored pool) (settle (next intn p clock) refl (next-entries intn p clock))
    where
      settle :
          (out : Picked × ProxyPool)
          → out ≡ next intn p clock
          → out.1.entries ≡ p.entries
          → ((stored t out ≡ none) × ((next intn p clock).0 ≡ panics))
            ⊎ ((t1 : AntiBotTransport) × (stored t out ≡ some t1) × Routed clock p t t1)
      settle (picked i, q) at entries = inr (_, refl, stored-Routed _ (picked i, q) at entries refl)
      settle (nobody, q) at entries = inr (_, refl, stored-Routed _ (nobody, q) at entries refl)
      settle (panics, q) at entries = inl (refl, ground arith)

module _ {B W : Type 0} (url : UrlParts) (decoders : Decoders B)
    (base : Option ℕ → HttpRequest → W → (Response B ⊎ GoError) × W) where
  abbrev readable : Response B ⊎ GoError → Response B ⊎ GoError
  readable (inl resp) = inl (decompress_response url.lower decoders resp)
  readable (inr err) = inr err

  -- The request went out once, by way of the proxy that the transport reports afterwards.
  pub record Proxied (clock : ℕ → ℕ) (p : ProxyPool) (n : ℕ) (req : HttpRequest)
      (t : AntiBotTransport) (w : W) (out : ((Response B ⊎ GoError) × AntiBotTransport) × W)
      : Type 0 where
    pub routed : Routed clock p t out.0.1
    pub sent : out.1 ≡ (base out.0.1.last_proxy (prepare url (drawn_agent n t) req) w).1
    pub answered :
        out.0.0 ≡ readable (base out.0.1.last_proxy (prepare url (drawn_agent n t) req) w).0

  -- What `RoundTrip` makes of a reply of the underlying transport.
  abbrev delivered :
      AntiBotTransport
      → (Response B ⊎ GoError) × W
      → Option (((Response B ⊎ GoError) × AntiBotTransport) × W)
  delivered t1 (reply, w1) = elim reply [
    | inl resp ↦ some ((inl (decompress_response url.lower decoders resp), t1), w1)
    | inr err ↦ some ((inr err, t1), w1)
  ]

  delivered-readable :
      (t1 : AntiBotTransport) (reply : (Response B ⊎ GoError) × W)
      → delivered t1 reply ≡ some ((readable reply.0, t1), reply.1)
  delivered-readable t1 (inl resp, w1) = refl
  delivered-readable t1 (inr err, w1) = refl

  round_trip-panic :
      (intn clock : ℕ → ℕ) (n : ℕ) (req : HttpRequest) (t : AntiBotTransport) (w : W)
      → pick_and_store_proxy intn clock t ≡ none
      → round_trip url decoders base intn clock n req t w ≡ none
  unfolding round_trip
  round_trip-panic intn clock n req t w e = rw (round_trip, e) refl

  round_trip-delivered :
      (intn clock : ℕ → ℕ) (n : ℕ) (req : HttpRequest) (t t1 : AntiBotTransport) (w : W)
      → pick_and_store_proxy intn clock t ≡ some t1
      → round_trip url decoders base intn clock n req t w
        ≡ delivered t1 (base (proxy_func t1) (prepare url (drawn_agent n t1) req) w)
  unfolding round_trip
  round_trip-delivered intn clock n req t t1 w e = rw (round_trip, e) refl

  -- With a pool of proxies `RoundTrip` sends the request once, by way of the proxy that `LastProxy`
  -- reports afterwards: an entry of the pool that is not in cooldown, or none where every entry is in
  -- cooldown; it fails to only where `Next` panics.
  pub round_trip-Proxied :
      (intn clock : ℕ → ℕ) (p : ProxyPool) (n : ℕ) (req : HttpRequest) (t : AntiBotTransport)
      (w : W)
      → t.proxy_pool ≡ some p
      → ((round_trip url decoders base intn clock n req t w ≡ none)
          × ((next intn p clock).0 ≡ panics))
        ⊎ ((out : ((Response B ⊎ GoError) × AntiBotTransport) × W) × (round_trip url decoders base
                intn clock n req t w
              ≡ some out)
            × Proxied clock p n req t w out)
  round_trip-Proxied intn clock p n req t w pool = elim (pick-Routed intn clock p t pool) [
    | inl (e, bad) ↦ inl (round_trip-panic intn clock n req t w e, bad)
    | inr (t1, e, routed) ↦
        let drawn = ap (λ o. drawn_agent n (record t { ua_pool = o })) routed.agents in
        let asked : base (proxy_func t1) (prepare url (drawn_agent n t1) req) w
            ≡ base t1.last_proxy (prepare url (drawn_agent n t) req) w =
          cc (routed.same, drawn) in
        inr (
          _,
          round_trip-delivered intn clock n req t t1 w e
              ∙ delivered-readable t1 (base (proxy_func t1) (prepare url (drawn_agent n t1) req) w),
          record {
            routed = routed;
            sent = ap (λ r. r.1) asked;
            answered = ap (λ r. readable r.0) asked;
          },
        )
  ]
