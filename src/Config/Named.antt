-- ===== src/Config/Named.antt =====
-- config.go: the providers of the default engine, by their names.
use text.Mathlib.Text.{◌==◌ as str_eq}
use text.Mathlib.TextEquality.{eq_iff}
use goddgs.Prelude.{
  String, ◌≡◌, refl, sym, subst, inl, inr, true, ◌&&◌, ◌||◌, Option, some, List, [], ◌∷◌, arith,
  Bool-cases,
}
use goddgs.Failure.{nil}
use goddgs.Engine.{Provider, Hook, Engine}
use goddgs.Config.{
  Config, member, Providers, lookup, chosen, names_of, providers_of, arranged, new_default_engine,
}
use goddgs.Config.Order.{
  is_known, Distinct, chosen-step, arranged-member, arranged-Distinct, arranged-some, built,
}

-- The providers of a list of names, by the fields of the map.
pub data Listed {W : Type 0} (ps : Providers W)
    : List String → List (Option (Provider W)) → Type 0 where
  done : Listed ps [] []
  ddg :
      (ns : List String) (qs : List (Option (Provider W)))
      → Listed ps ns qs
      → Listed ps ("ddg" ∷ ns) (some ps.ddg ∷ qs)
  brave :
      (ns : List String) (qs : List (Option (Provider W)))
      → Listed ps ns qs
      → Listed ps ("brave" ∷ ns) (some ps.brave ∷ qs)
  tavily :
      (ns : List String) (qs : List (Option (Provider W)))
      → Listed ps ns qs
      → Listed ps ("tavily" ∷ ns) (some ps.tavily ∷ qs)
  serpapi :
      (ns : List String) (qs : List (Option (Provider W)))
      → Listed ps ns qs
      → Listed ps ("serpapi" ∷ ns) (some ps.serpapi ∷ qs)

-- The names of the map.
abbrev pub map_names : List String
map_names = "ddg" ∷ "brave" ∷ "tavily" ∷ "serpapi" ∷ []

-- A name of the map has this provider.
abbrev FieldOf : {W : Type 0} → Providers W → String → Option (Provider W) → Type 0
FieldOf ps name p =
    (ns : List String) (qs : List (Option (Provider _)))
    → Listed ps ns qs
    → Listed ps (name ∷ ns) (p ∷ qs)

eq_of_str_eq : (a b : String) → str_eq a b ≡ true → a ≡ b
eq_of_str_eq a b h = ground (arith, eq_iff a b)

module _ {W : Type 0} (ps : Providers W) where
  named :
      (name key : String) (p q : Provider W)
      → str_eq name key ≡ true
      → q ≡ p
      → FieldOf ps key (some q)
      → FieldOf ps name (some p)
  named name key p q same taken field =
      let at : key ≡ name = sym (eq_of_str_eq name key same) in
      subst (λ x. FieldOf ps x (some p)) at (subst (λ x. FieldOf ps key (some x)) taken field)

  lookup-Listed :
      (name : String) (p : Provider W) → lookup ps name ≡ some p → FieldOf ps name (some p)
  unfolding lookup
  lookup-Listed name p found = elim (Bool-cases (str_eq name "ddg")) [
    | inl hit ↦ named name "ddg" p ps.ddg hit (ground (arith, found, hit)) ddg
    | inr a ↦ elim (Bool-cases (str_eq name "brave")) [
      | inl hit ↦ named name "brave" p ps.brave hit (ground (arith, found, a, hit)) brave
      | inr b ↦ elim (Bool-cases (str_eq name "tavily")) [
        | inl hit ↦ named name "tavily" p ps.tavily hit (ground (arith, found, a, b, hit)) tavily
        | inr c ↦ elim (Bool-cases (str_eq name "serpapi")) [
          | inl hit ↦
              named name "serpapi" p ps.serpapi hit (ground (arith, found, a, b, c, hit)) serpapi
          | inr d ↦ absurd (ground (arith, found, a, b, c, d))
        ]
      ]
    ]
  ]

  chosen-Listed :
      (seen order : List String)
      → Listed ps (names_of (chosen ps seen order)) (providers_of (chosen ps seen order))
  chosen-Listed seen [] = unfold chosen in done
  chosen-Listed seen (name ∷ names) = elim (chosen-step ps seen name names) [
    | inl (same, _) ↦ rw same (chosen-Listed seen names)
    | inr (p, known, _, same) ↦
        rw same (lookup-Listed name p known _ _ (chosen-Listed (name ∷ seen) names))
  ]

  arranged-Listed :
      (order : List String)
      → Listed ps (names_of (arranged ps order)) (providers_of (arranged ps order))
  unfolding arranged
  arranged-Listed order = elim (Bool-cases (member "ddg" (names_of (chosen ps [] order)))) [
    | inl listed ↦ rw listed (chosen-Listed [] order)
    | inr missing ↦ rw missing (ddg _ _ (chosen-Listed [] order))
  ]

  is_known-member : (n : String) → is_known ps n ≡ member n map_names
  unfolding lookup
  is_known-member n = ground (
    arith,
    eq_iff n "ddg",
    eq_iff "ddg" n,
    eq_iff n "brave",
    eq_iff "brave" n,
    eq_iff n "tavily",
    eq_iff "tavily" n,
    eq_iff n "serpapi",
    eq_iff "serpapi" n,
  )

  -- The default engine always comes about, with the hooks it is given. Its providers are those that the
  -- map has under a list of names without a repetition: the names of the order that the map knows, and
  -- `ddg` even when the order leaves it out.
  pub new_default_engine-Listed :
      (cfg : Config) (hooks : List (Option (Hook W)))
      → (e : Engine W) × (names : List String) × (new_default_engine ps cfg hooks ≡ (some e, nil))
        × (e.hooks ≡ hooks)
        × Listed ps names e.providers
        × Distinct names
        × ((n : String)
            → member n names
              ≡ (str_eq "ddg" n || (member n map_names && member n cfg.provider_order)))
  unfolding new_default_engine
  new_default_engine-Listed cfg hooks = (
    record { providers = providers_of (arranged ps cfg.provider_order); hooks = hooks },
    names_of (arranged ps cfg.provider_order),
    built ps (arranged ps cfg.provider_order) hooks (arranged-some ps cfg.provider_order),
    refl,
    arranged-Listed cfg.provider_order,
    arranged-Distinct ps cfg.provider_order,
    λ n. rw (sym (is_known-member n)) (arranged-member ps n cfg.provider_order),
  )
