-- ===== src/Config/Listed.antt =====
-- config.go: a provider order that is written with commas is read back.
use text.Mathlib.Text.{◌==◌ as str_eq}
use Prim.Native.String
use Prim.Native.String.append
use Prim.Native.String.compare
use goddgs.Prelude.{String, ◌≡◌, ◌≢◌, refl, ap, ◌∙◌, true, false, List, [], ◌∷◌, All}
use goddgs.Prelude.Text.{is_space}
use goddgs.Prelude.Text.Plain.{is_plain, is_plain-append, trim_space-plain}
use goddgs.Prelude.Format.{concat, join}
use goddgs.Prelude.Split.{split_comma}
use goddgs.Prelude.Split.Joined.{no_comma, split_comma-join}
use goddgs.Engine.{is_empty}
use goddgs.Config.{Config, Env, listed_names, order_of, load_config}

-- A name in lower case, not empty, without white space or a comma.
abbrev pub IsName : Env → String → Type 0
IsName env name =
    (str_eq name "" ≡ false)
    × (is_plain name ≡ true)
    × (no_comma name ≡ true)
    × (env.lower name ≡ name)

module _ (env : Env) where
  listed_names-names :
      (names : List String) → All (IsName env) names → listed_names env names ≡ names
  unfolding listed_names
  listed_names-names [] h = refl
  listed_names-names (n ∷ ns) ((some_text, plain, _, low), h) =
      rw (trim_space-plain n plain, low, some_text) (ap (◌∷◌ n) (listed_names-names ns h))

  All-no_comma : (names : List String) → All (IsName env) names → All (λ x. no_comma x ≡ true) names
  All-no_comma [] h = tt
  All-no_comma (n ∷ ns) ((_, _, plain, _), h) = (plain, All-no_comma ns h)

  join-plain : (names : List String) → All (IsName env) names → is_plain (join "," names) ≡ true
  unfolding join concat is_space
  join-plain [] h = refl
  join-plain (n ∷ []) ((_, plain, _, _), _) = plain
  join-plain (n ∷ m ∷ ns) ((_, plain, _, _), h) =
      let rest = join "," (m ∷ ns) in
      rw
        (
          is_plain-append n (String.◌++◌ "," (String.◌++◌ rest "")),
          plain,
          is_plain-append "," (String.◌++◌ rest ""),
          is_plain-append rest "",
          join-plain (m ∷ ns) h,
        )
        refl

  join-text :
      (n : String) (ns : List String) → str_eq n "" ≡ false → str_eq (join "," (n ∷ ns)) "" ≡ false
  unfolding join concat
  join-text String.[] ns h = cc h
  join-text n [] h = h
  join-text (String.◌∷◌ c s) (m ∷ ns) h = rw (append.cons c s _, compare.cons-nil c _) refl

  order_of-listed :
      (s : String) (order : List String)
      → str_eq s "" ≡ false
      → listed_names env (split_comma s) ≡ order
      → is_empty order ≡ false
      → order_of env s ≡ order
  unfolding order_of listed_names split_comma
  order_of-listed s order text same some_name = rw (text, same, some_name) refl

  order_of-join :
      (names : List String)
      → names ≢ []
      → All (IsName env) names
      → order_of env (join "," names) ≡ names
  order_of-join [] some_name h = absurd (some_name refl)
  order_of-join (n ∷ ns) some_name h =
      let parts = split_comma-join n ns (All-no_comma (n ∷ ns) h) in
      order_of-listed (join "," (n ∷ ns)) (n ∷ ns) (join-text n ns h.0.0)
        (ap (listed_names env) parts ∙ listed_names-names (n ∷ ns) h) refl

  -- A provider order that is written as its names with commas between them, the way `goddgs doctor` prints
  -- it, is read back: with it in `GODDGS_PROVIDER_ORDER` the configuration has the same order, if
  -- that names a provider and each name is in lower case, not empty, and without white space or a comma.
  pub load_config-join :
      (cfg : Config)
      → cfg.provider_order ≢ []
      → All (IsName env) cfg.provider_order
      → env.getenv "GODDGS_PROVIDER_ORDER" ≡ join "," cfg.provider_order
      → (load_config env).provider_order ≡ cfg.provider_order
  unfolding load_config
  load_config-join cfg some_name names set =
      rw (set, trim_space-plain (join "," cfg.provider_order) (join-plain cfg.provider_order names))
        (order_of-join cfg.provider_order some_name names)
