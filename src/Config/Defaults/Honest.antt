-- ===== src/Config/Defaults/Honest.antt =====
-- config.go and provider.go together: the providers of the default engine.
use text.Mathlib.Text.{◌==◌ as str_eq}
use goddgs.Prelude.{
  String, ◌≡◌, ◌≢◌, ◌⊎◌, subst, refl, sym, inl, inr, true, Option, none, some, List, [], ◌∷◌, arith,
  All, Bool-cases,
}
use goddgs.Failure.{GoError, nil}
use goddgs.Net.{Net}
use goddgs.Engine.{Provider, Hook, Engine, enabled_names, enabled_providers}
use goddgs.Backend.{RawItem, ddg_provider}
use goddgs.Backend.Addresses.{IsHonest, services-IsHonest}
use goddgs.Client.{Io}
use goddgs.Client.Parse.{Library}
use goddgs.Config.{
  Config, Providers, lookup, chosen, member, names_of, providers_of, arranged, new_default_engine,
}
use goddgs.Config.Order.{chosen-step, new_default_engine-arranged}
use goddgs.Config.Defaults.{beside, default_providers}
use goddgs.Config.Defaults.Answers.{default_providers-Served}

abbrev pub IsHonestOption : {W : Type 0} → Option (Provider W) → Type 0
IsHonestOption none = Unit {0}
IsHonestOption (some p) = IsHonest p

enabled_some :
    {W : Type 0} (p : Provider W) (ps : List (Option (Provider W)))
    → (p.enabled ≡ true) ⊎ (enabled_names ps ≢ [])
    → enabled_names (some p ∷ ps) ≢ []
enabled_some p ps some_one = ground arith

module _ {W : Type 0} (ps : Providers W) where
  -- Every provider of the map is honest, and the DuckDuckGo provider is enabled.
  pub record IsServing : Type 0 where
    pub ddg : IsHonest ps.ddg
    pub brave : IsHonest ps.brave
    pub tavily : IsHonest ps.tavily
    pub serpapi : IsHonest ps.serpapi
    pub on : ps.ddg.enabled ≡ true

  lookup-cases :
      (name : String) (p : Provider W)
      → lookup ps name ≡ some p
      → (p ≡ ps.ddg) ⊎ ((p ≡ ps.brave) ⊎ ((p ≡ ps.tavily) ⊎ (p ≡ ps.serpapi)))
  unfolding lookup
  lookup-cases name p h = ground arith

  lookup-ddg :
      (name : String) (p : Provider W)
      → str_eq name "ddg" ≡ true
      → lookup ps name ≡ some p
      → p ≡ ps.ddg
  unfolding lookup
  lookup-ddg name p same h = ground arith

  lookup-IsHonest :
      IsServing → (name : String) (p : Provider W) → lookup ps name ≡ some p → IsHonest p
  lookup-IsHonest ok name p h = elim (lookup-cases name p h) [
    | inl e ↦ subst IsHonest (sym e) ok.ddg
    | inr (inl e) ↦ subst IsHonest (sym e) ok.brave
    | inr (inr (inl e)) ↦ subst IsHonest (sym e) ok.tavily
    | inr (inr (inr e)) ↦ subst IsHonest (sym e) ok.serpapi
  ]

  chosen-IsHonest :
      IsServing
      → (seen order : List String) → All IsHonestOption (providers_of (chosen ps seen order))
  chosen-IsHonest ok seen [] = unfold chosen in tt
  chosen-IsHonest ok seen (name ∷ names) = elim (chosen-step ps seen name names) [
    | inl (same, _) ↦ rw same (chosen-IsHonest ok seen names)
    | inr (p, known, first, same) ↦
        rw same (lookup-IsHonest ok name p known, chosen-IsHonest ok (name ∷ seen) names)
  ]

  chosen-enabled :
      IsServing
      → (seen order : List String) → member "ddg" (names_of (chosen ps seen order)) ≡ true
      → enabled_names (providers_of (chosen ps seen order)) ≢ []
  chosen-enabled ok seen [] h = unfold chosen in cc h
  chosen-enabled ok seen (name ∷ names) h = elim (chosen-step ps seen name names) [
    | inl (same, _) ↦ rw same (chosen-enabled ok seen names (rw same at h))
    | inr (p, known, first, same) ↦
        let rest = providers_of (chosen ps (name ∷ seen) names) in
        rw same (elim (Bool-cases (str_eq name "ddg")) [
          | inl ddg ↦ enabled_some p rest (inl (ground (arith, ok.on, lookup-ddg name p ddg known)))
          | inr other ↦
              enabled_some p rest
                (inr (chosen-enabled ok (name ∷ seen) names (ground (arith, same, other))))
        ])
  ]

  arranged-IsHonest :
      IsServing → (order : List String) → All IsHonestOption (providers_of (arranged ps order))
  unfolding arranged
  arranged-IsHonest ok order = elim (Bool-cases (member "ddg" (names_of (chosen ps [] order)))) [
    | inl listed ↦ rw listed (chosen-IsHonest ok [] order)
    | inr missing ↦ rw missing (ok.ddg, chosen-IsHonest ok [] order)
  ]

  arranged-enabled :
      IsServing → (order : List String) → enabled_names (providers_of (arranged ps order)) ≢ []
  unfolding arranged
  arranged-enabled ok order = elim (Bool-cases (member "ddg" (names_of (chosen ps [] order)))) [
    | inl listed ↦ rw listed (chosen-enabled ok [] order listed)
    | inr missing ↦ rw missing (enabled_some ps.ddg (providers_of (chosen ps [] order)) (inl ok.on))
  ]

  -- What a service can count on: an engine whose providers are honest and one of which is enabled.
  pub new_default_engine-serves :
      IsServing
      → (cfg : Config) (hooks : List (Option (Hook W)))
      → (e : Engine W) × (new_default_engine ps cfg hooks ≡ (some e, nil))
        × All IsHonestOption e.providers
        × (enabled_providers e ≢ [])
  unfolding enabled_providers
  new_default_engine-serves ok cfg hooks =
      let (e, built, listed, _, _) = new_default_engine-arranged ps cfg hooks in
      (
        e,
        built,
        rw listed (arranged-IsHonest ok cfg.provider_order),
        rw listed (arranged-enabled ok cfg.provider_order),
      )

module _ {W : Type 0} (io : Io W) (unsolved : io.solve ≡ none) (lib : Library) (cfg : Config)
    (net : Net W) (brave_items serp_items tavily_items : String → List RawItem × GoError)
    (quote : String → String) where
  pub default_providers-IsServing :
      IsServing (default_providers io lib cfg net brave_items serp_items tavily_items quote)
  default_providers-IsServing = record {
    ddg = λ req st.
        (default_providers-Served io unsolved lib cfg net brave_items serp_items tavily_items quote
          req st).addresses;
    brave =
        unfold default_providers in
        (services-IsHonest (beside net) brave_items quote cfg.brave_api_key).0;
    tavily =
        unfold default_providers in
        (services-IsHonest (beside net) tavily_items quote cfg.tavily_api_key).2;
    serpapi =
        unfold default_providers in
        (services-IsHonest (beside net) serp_items quote cfg.serp_api_key).1;
    on = unfold default_providers ddg_provider in refl;
  }
