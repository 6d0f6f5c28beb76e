-- ===== src/Config/Enabled.antt =====
-- config.go and engine.go together: which names `EnabledProviders` of the default engine lists.
use text.Mathlib.Text.{◌==◌ as str_eq}
use text.Mathlib.TextEquality.{eq_iff}
use goddgs.Prelude.{
  String, ◌≡◌, refl, ap, ◌∙◌, sym, inl, inr, Bool, true, false, ◌&&◌, ◌||◌, Option, none, some,
  List, [], ◌∷◌, arith, Bool-cases, Option-cases,
}
use goddgs.Failure.{nil}
use goddgs.Engine.{Provider, Hook, Engine, enabled_names, enabled_providers}
use goddgs.Config.{
  Config, Providers, lookup, chosen, member, names_of, providers_of, arranged, new_default_engine,
}
use goddgs.Config.Order.{is_known, chosen-step, new_default_engine-arranged}

-- The provider of a name is there, and enabled.
abbrev pub is_on : {W : Type 0} → Providers W → String → Bool
is_on ps name = elim (lookup ps name) [ none ↦ false | some p ↦ p.enabled ]

module _ {W : Type 0} (ps : Providers W) where
  -- Every provider of the map has the name that it stands under.
  abbrev pub IsNamed : Type 0
  IsNamed =
      (ps.ddg.name ≡ "ddg")
      × (ps.brave.name ≡ "brave")
      × (ps.tavily.name ≡ "tavily")
      × (ps.serpapi.name ≡ "serpapi")

  lookup-name : IsNamed → (name : String) (p : Provider W) → lookup ps name ≡ some p → p.name ≡ name
  unfolding lookup
  lookup-name (d, b, t, s) name p h =
      ground
        (arith, eq_iff name "ddg", eq_iff name "brave", eq_iff name "tavily", eq_iff name "serpapi")

  member-enabled :
      (n name : String) (p : Provider W) (rest : List (Option (Provider W)))
      → p.name ≡ name
      → member n (enabled_names (some p ∷ rest))
        ≡ ((p.enabled && str_eq name n) || member n (enabled_names rest))
  member-enabled n name p rest same = ground arith

  -- One more provider of the map at the head of a list.
  one_more :
      (n name : String) (p : Provider W) (xs : List (String × Provider W))
      → IsNamed
      → lookup ps name ≡ some p
      → member n (enabled_names (providers_of xs)) ≡ (member n (names_of xs) && is_on ps n)
      → member n (enabled_names (providers_of ((name, p) ∷ xs)))
        ≡ (member n (names_of ((name, p) ∷ xs)) && is_on ps n)
  one_more n name p xs named known rest = elim (Bool-cases (str_eq name n)) [
    | inl here ↦
        let on : is_on ps n ≡ p.enabled =
          ap (is_on ps) (sym (eq_here here)) ∙ rw (known, is_on) refl in
        ground (
          arith,
          here,
          on,
          rest,
          member-enabled n name p (providers_of xs) (lookup-name named name p known),
        )
    | inr apart ↦ ground (
      arith,
      apart,
      rest,
      member-enabled n name p (providers_of xs) (lookup-name named name p known),
    )
  ]
    where
      eq_here : str_eq name n ≡ true → name ≡ n
      eq_here h = ground (arith, eq_iff name n)

  chosen-enabled :
      IsNamed
      → (n : String) (seen order : List String)
      → member n (enabled_names (providers_of (chosen ps seen order)))
        ≡ (member n (names_of (chosen ps seen order)) && is_on ps n)
  chosen-enabled named n seen [] = unfold chosen in refl
  chosen-enabled named n seen (name ∷ names) = elim (chosen-step ps seen name names) [
    | inl (same, _) ↦ rw same (chosen-enabled named n seen names)
    | inr (p, known, first, same) ↦ rw same (
        one_more n name p (chosen ps (name ∷ seen) names) named known
          (chosen-enabled named n (name ∷ seen) names))
  ]

  arranged-enabled :
      IsNamed
      → (n : String) (order : List String)
      → member n (enabled_names (providers_of (arranged ps order)))
        ≡ (member n (names_of (arranged ps order)) && is_on ps n)
  unfolding arranged
  arranged-enabled named n order =
      elim (Bool-cases (member "ddg" (names_of (chosen ps [] order)))) [
        | inl listed ↦ rw listed (chosen-enabled named n [] order)
        | inr missing ↦ rw missing (
            one_more n "ddg" ps.ddg (chosen ps [] order) named (unfold lookup in refl)
              (chosen-enabled named n [] order))
      ]

  on-known : (n : String) (b : Bool) → ((is_known ps n && b) && is_on ps n) ≡ (is_on ps n && b)
  on-known n b = elim (Option-cases (lookup ps n)) [
    | inl missing ↦ ground (arith, missing)
    | inr (p, known) ↦ ground (arith, known)
  ]

  -- A name is listed by `EnabledProviders` of the default engine exactly if its provider is enabled and
  -- it is "ddg" or in the order of the configuration.
  pub new_default_engine-enabled :
      IsNamed
      → (cfg : Config) (hooks : List (Option (Hook W)))
      → (e : Engine W) × (new_default_engine ps cfg hooks ≡ (some e, nil))
        × ((n : String)
            → member n (enabled_providers e)
              ≡ (is_on ps n && (str_eq "ddg" n || member n cfg.provider_order)))
  unfolding enabled_providers
  new_default_engine-enabled named cfg hooks =
      let (e, built, listed, _, members) = new_default_engine-arranged ps cfg hooks in
      (
        e,
        built,
        λ n.
            ap (λ xs. member n (enabled_names xs)) listed
            ∙ arranged-enabled named n cfg.provider_order
            ∙ ap (λ b. b && is_on ps n) (members n)
            ∙ ground (arith, on-known n (member n cfg.provider_order)),
      )
