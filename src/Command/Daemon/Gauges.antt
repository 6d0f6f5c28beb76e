-- ===== src/Command/Daemon/Gauges.antt =====
-- cmd/goddgsd/main.go over the default engine: that the daemon comes up, and its gauges.
use text.Mathlib.Text.{◌==◌ as str_eq}
use text.Mathlib.TextEquality.{eq_iff}
use goddgs.Prelude.{
  ℕ, String, ◌≡◌, refl, ap, ◌∙◌, inl, inr, Bool, true, false, ◌&&◌, ◌||◌, not, Option, some, List,
  [], ◌∷◌, arith, Bool-cases, if◌then◌else◌,
}
use goddgs.Prelude.Text.{is_blank}
use goddgs.Failure.{GoError}
use goddgs.Net.{Net}
use goddgs.Engine.{Engine, Hook, Run, enabled_providers}
use goddgs.Backend.{RawItem, ddg_provider, brave_provider, serpapi_provider, tavily_provider}
use goddgs.Client.{State, Io}
use goddgs.Client.Parse.{Library}
use goddgs.Config.{Config, Providers, lookup, member, new_default_engine}
use goddgs.Config.Enabled.{is_on, IsNamed, new_default_engine-enabled}
use goddgs.Config.Defaults.{default_providers}
use goddgs.Metrics.{PrometheusCollector, Key, same_key, value_of, set_provider_enabled}
use goddgs.Metrics.Counts.{value_of-set_value}
use goddgs.Service.{ServiceSearchRequest, Incoming, handle, handle_ready}
use goddgs.Command.Daemon.{Server, mark_enabled, provider_names, server, run_with_serve}

abbrev pub gauge : String → Key
gauge name = "goddgs_provider_enabled" ∷ name ∷ []

abbrev pub bit : Bool → ℕ
bit b = if b then 1 else 0

same_gauge : (p n : String) → same_key (gauge p) (gauge n) ≡ str_eq p n
same_gauge p n = ground (arith, eq_iff p n)

set_provider_enabled-gauge :
    (p n : String) (b : Bool) (c : PrometheusCollector)
    → value_of (gauge n) (set_provider_enabled p b c).gauges
      ≡ (if str_eq p n then bit b else value_of (gauge n) c.gauges)
unfolding set_provider_enabled
set_provider_enabled-gauge p n b c =
    value_of-set_value (gauge p) (gauge n) (bit b) c.gauges ∙ rw (same_gauge p n) refl

-- The gauge of a name that the loop goes over tells whether the name is enabled; others stay.
mark_enabled-gauge :
    {W : Type 0} (e : Engine W) (n : String) (ps : List String) (c : PrometheusCollector)
    → value_of (gauge n) (mark_enabled e ps c).gauges
      ≡ (if member n ps then bit (member n (enabled_providers e)) else value_of (gauge n) c.gauges)
unfolding mark_enabled
mark_enabled-gauge e n [] c = refl
mark_enabled-gauge e n (p ∷ ps) c =
    let on = member p (enabled_providers e) in
    mark_enabled-gauge e n ps (set_provider_enabled p on c) ∙ elim (Bool-cases (str_eq p n)) [
      | inl here ↦
          let same : on ≡ member n (enabled_providers e) =
            ap (λ x. member x (enabled_providers e)) (ground (arith, eq_iff p n)) in
          ground (arith, here, same, set_provider_enabled-gauge p n on c)
      | inr apart ↦ ground (arith, apart, set_provider_enabled-gauge p n on c)
    ]

-- The providers that can work: DuckDuckGo, and those with a key.
abbrev pub can_work : Config → String → Bool
can_work cfg name =
    if str_eq name "ddg"
    then true
    else if str_eq name "brave"
    then not (is_blank cfg.brave_api_key)
    else if str_eq name "tavily"
    then not (is_blank cfg.tavily_api_key)
    else if str_eq name "serpapi"
    then not (is_blank cfg.serp_api_key)
    else false

-- The name is known to the configuration, of a provider that can work, and asked for.
abbrev pub takes_part : Config → String → Bool
takes_part cfg name = can_work cfg name && (str_eq "ddg" name || member name cfg.provider_order)

module _ {W : Type 0} (io : Io W) (lib : Library) (cfg : Config) (net : Net W)
    (brave_items serp_items tavily_items : String → List RawItem × GoError)
    (quote : String → String) where
  abbrev defaults : Providers (State W)
  defaults = default_providers io lib cfg net brave_items serp_items tavily_items quote

  defaults-IsNamed : IsNamed defaults
  unfolding default_providers ddg_provider brave_provider tavily_provider serpapi_provider
  defaults-IsNamed = (refl, refl, refl, refl)

  is_on-defaults : (name : String) → is_on defaults name ≡ can_work cfg name
  unfolding default_providers ddg_provider brave_provider tavily_provider serpapi_provider lookup
  is_on-defaults name = ground arith

-- With a provider that is enabled, `/readyz` answers 200.
ready :
    {W : Type 0} (now : W → ℕ × W) (decode : String → Option ServiceSearchRequest)
    (page : W → String) (e : Engine W) (name : String) (r : Incoming) (run : Run W)
    → member name (enabled_providers e) ≡ true
    → (handle now decode (some e) (some page) (record r { path = "/readyz" }) run).0.status ≡ 200
unfolding handle handle_ready
ready now decode page e name r run listed = ground (arith, listed)

-- goddgsd comes up, whatever its configuration is. By then `/readyz` answers 200, the gauge of the
-- DuckDuckGo provider is 1, and that of each other provider is 1 if its key is not blank and the order
-- of the configuration names it, and 0 if not; no other gauge of a provider has changed.
pub run_with_serve-Shows :
    {W : Type 0} (io : Io W) (lib : Library) (cfg : Config) (net : Net W)
    (brave_items serp_items tavily_items : String → List RawItem × GoError)
    (quote : String → String) (hooks : List (Option (Hook (State W)))) (now : State W → ℕ × State W)
    (decode : String → Option ServiceSearchRequest) (env : String → String)
    (page : State W → String) (c : PrometheusCollector) (r : Incoming) (run : Run (State W))
    (name : String)
    → (s : Server (State W)) × (run_with_serve now decode env page
          (new_default_engine
            (default_providers io lib cfg net brave_items serp_items tavily_items quote)
            cfg
            hooks)
          c
        ≡ inl s)
      × ((s.handler (record r { path = "/readyz" }) run).0.status ≡ 200)
      × (value_of (gauge name) s.collector.gauges ≡ (
          if member name ("ddg" ∷ "brave" ∷ "tavily" ∷ "serpapi" ∷ [])
          then bit (takes_part cfg name)
          else value_of (gauge name) c.gauges))
unfolding server run_with_serve
run_with_serve-Shows io lib cfg net brave_items serp_items tavily_items quote hooks now decode env
      page c r run name =
    let ps = default_providers io lib cfg net brave_items serp_items tavily_items quote in
    let (e, built, members) =
      new_default_engine-enabled ps
        (defaults-IsNamed io lib cfg net brave_items serp_items tavily_items quote) cfg hooks in
    let on = is_on-defaults io lib cfg net brave_items serp_items tavily_items quote in
    (
      server now decode env page e c,
      rw built refl,
      ready now decode page e "ddg" r run (ground (arith, members "ddg", on "ddg")),
      mark_enabled-gauge e name provider_names c ∙ ground (arith, members name, on name),
    )
