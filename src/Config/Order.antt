-- ===== src/Config/Order.antt =====
-- The settings that the environment leads to, and the providers of the default engine.
use text.Mathlib.Text.{◌==◌ as str_eq}
use text.Mathlib.TextEquality.{eq_iff}
use goddgs.Prelude.{
  String, ◌≡◌, refl, ap, ◌≢◌, ◌⊎◌, inl, inr, Bool, true, false, ◌&&◌, not, ◌||◌, Option, none, some,
  List, [], ◌∷◌, arith, Bool-cases, Option-cases,
}
use goddgs.Prelude.Int.{ℤ, pos, ◌<ℤ◌}
use goddgs.Failure.{nil}
use goddgs.Engine.{Provider, Hook, Engine, new_engine, non_nil, is_empty}
use goddgs.Config.{
  Config, Env, order_of, positive_setting, load_config, member, Providers, lookup, chosen, names_of,
  providers_of, arranged, new_default_engine,
}

abbrev pub is_known : {W : Type 0} → Providers W → String → Bool
is_known ps name = elim (lookup ps name) [ none ↦ false | some p ↦ true ]

abbrev pub Distinct : List String → Type 0
Distinct [] = Unit
Distinct (n ∷ ns) = (member n ns ≡ false) × Distinct ns

module _ {W : Type 0} (ps : Providers W) where
  pub chosen-step :
      (seen : List String) (name : String) (names : List String)
      → ((chosen ps seen (name ∷ names) ≡ chosen ps seen names)
          × ((is_known ps name ≡ false) ⊎ (member name seen ≡ true)))
        ⊎ ((p : Provider W) × (lookup ps name ≡ some p)
            × (member name seen ≡ false)
            × (chosen ps seen (name ∷ names) ≡ (name, p) ∷ chosen ps (name ∷ seen) names))
  unfolding chosen
  chosen-step seen name names = elim (Option-cases (lookup ps name)) [
    | inl unknown ↦ inl (ground arith, inl (rw (unknown, is_known)))
    | inr (p, known) ↦ elim (Bool-cases (member name seen)) [
      | inl again ↦ inl (ground arith, inr again)
      | inr first ↦ inr (p, known, first, ground arith)
    ]
  ]

  -- What the tests say of two names that are equal.
  same_name :
      (name n : String) (seen : List String)
      → str_eq name n ≡ true
      → (is_known ps name ≡ is_known ps n) × (member name seen ≡ member n seen)
  same_name name n seen h =
      let e : name ≡ n = ground (arith, eq_iff name n) in
      (ap (is_known ps) e, ap (λ x. member x seen) e)

  chosen-member :
      (n : String) (seen order : List String)
      → member n (names_of (chosen ps seen order))
        ≡ is_known ps n && (member n order && not (member n seen))
  chosen-member n seen [] = unfold chosen in ground arith
  chosen-member n seen (name ∷ names) = elim (chosen-step seen name names) [
    | inl (same, why) ↦ rw same (elim (Bool-cases (str_eq name n)) [
      | inl eq ↦ ground (arith, eq, why, same_name name n seen eq, chosen-member n seen names)
      | inr ne ↦ ground (arith, ne, chosen-member n seen names)
    ])
    | inr (p, known, first, same) ↦ rw same (elim (Bool-cases (str_eq name n)) [
      | inl eq ↦ ground (arith, eq, known, first, same_name name n seen eq)
      | inr ne ↦ ground (arith, ne, chosen-member n (name ∷ seen) names)
    ])
  ]

  chosen-Distinct : (seen order : List String) → Distinct (names_of (chosen ps seen order))
  chosen-Distinct seen [] = unfold chosen in tt
  chosen-Distinct seen (name ∷ names) = elim (chosen-step seen name names) [
    | inl (same, _) ↦ rw same (chosen-Distinct seen names)
    | inr (p, known, first, same) ↦ rw same (
        (
          ground (arith, eq_iff name name, chosen-member name (name ∷ seen) names),
          chosen-Distinct (name ∷ seen) names,
        ))
  ]

  pub arranged-member :
      (n : String) (order : List String)
      → member n (names_of (arranged ps order))
        ≡ (str_eq "ddg" n || (is_known ps n && member n order))
  unfolding arranged
  arranged-member n order = elim (Bool-cases (member "ddg" names)) [
    | inl listed ↦ rw listed (elim (Bool-cases (str_eq "ddg" n)) [
      | inl eq ↦ ground (arith, eq, listed, same_name "ddg" n names eq)
      | inr ne ↦ ground (arith, ne, chosen-member n [] order)
    ])
    | inr missing ↦ rw missing (elim (Bool-cases (str_eq "ddg" n)) [
      | inl eq ↦ ground (arith, eq)
      | inr ne ↦ ground (arith, ne, chosen-member n [] order)
    ])
  ]
    where
      names : List String
      names = names_of (chosen ps [] order)

  pub arranged-Distinct : (order : List String) → Distinct (names_of (arranged ps order))
  unfolding arranged
  arranged-Distinct order = elim (Bool-cases (member "ddg" (names_of (chosen ps [] order)))) [
    | inl listed ↦ rw listed (chosen-Distinct [] order)
    | inr missing ↦ rw missing ((missing, chosen-Distinct [] order))
  ]

  member-some :
      (xs : List (String × Provider W)) → member "ddg" (names_of xs) ≡ true → is_empty xs ≡ false
  member-some [] h = cc
  member-some (x ∷ xs) h = refl

  pub arranged-some : (order : List String) → is_empty (arranged ps order) ≡ false
  unfolding arranged
  arranged-some order = elim (Bool-cases (member "ddg" (names_of (chosen ps [] order)))) [
    | inl listed ↦ rw listed (member-some (chosen ps [] order) listed)
    | inr missing ↦ rw missing
  ]

  non_nil-providers_of :
      (xs : List (String × Provider W)) → non_nil (providers_of xs) ≡ providers_of xs
  unfolding non_nil
  non_nil-providers_of [] = refl
  non_nil-providers_of ((name, p) ∷ xs) = ap (◌∷◌ (some p)) (non_nil-providers_of xs)

  pub built :
      (xs : List (String × Provider W)) (hooks : List (Option (Hook W)))
      → is_empty xs ≡ false
      → new_engine (record { providers = providers_of xs; hooks = hooks })
        ≡ (some (record { providers = providers_of xs; hooks = hooks }), nil)
  unfolding new_engine
  built [] hooks h = cc
  built ((name, p) ∷ xs) hooks h = rw (non_nil-providers_of xs) refl

  -- The default engine always comes about, with the providers that are arranged by the order.
  pub new_default_engine-arranged :
      (cfg : Config) (hooks : List (Option (Hook W)))
      → (e : Engine W) × (new_default_engine ps cfg hooks ≡ (some e, nil))
        × (e.providers ≡ providers_of (arranged ps cfg.provider_order))
        × Distinct (names_of (arranged ps cfg.provider_order))
        × ((n : String)
            → member n (names_of (arranged ps cfg.provider_order))
              ≡ (str_eq "ddg" n || (is_known ps n && member n cfg.provider_order)))
  unfolding new_default_engine
  new_default_engine-arranged cfg hooks = (
    record { providers = providers_of (arranged ps cfg.provider_order); hooks = hooks },
    built (arranged ps cfg.provider_order) hooks (arranged-some cfg.provider_order),
    refl,
    arranged-Distinct cfg.provider_order,
    λ n. arranged-member n cfg.provider_order,
  )

positive_setting-pos :
    (parse : String → Option ℤ) (s : String) (default : ℤ)
    → pos 0 <ℤ default
    → pos 0 <ℤ positive_setting parse s default
unfolding positive_setting
positive_setting-pos parse s default h = ground arith

module _ (env : Env) where
  order_of-some : (s : String) → order_of env s ≢ []
  unfolding order_of
  order_of-some s h = ground arith

  -- Whatever the environment holds, the configuration has a positive timeout, a positive number of
  -- tries, and an order that names a provider.
  pub load_config-positive :
      (pos 0 <ℤ (load_config env).timeout)
      × (pos 0 <ℤ (load_config env).max_retries)
      × ((load_config env).provider_order ≢ [])
  unfolding load_config
  load_config-positive = (
    positive_setting-pos env.parse_duration _ (pos 20_000_000_000) (omega arith),
    positive_setting-pos env.atoi _ (pos 3) (omega arith),
    order_of-some _,
  )
