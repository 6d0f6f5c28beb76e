-- ===== src/Client/Setup/Filled.antt =====
-- client.go and antibot.go: what `NewClient` makes of settings that are missing or odd.
use Prim.Native.Char.{code}
use Prim.Native.String.{[], ◌∷◌}
use text.Mathlib.Text.{◌==◌ as str_eq}
use text.Mathlib.TextEquality.{eq_iff}
use goddgs.Prelude.{
  ℕ, zero, suc, ◌⊎◌, ◌*◌, ◌<◌, String, ◌≡◌, ◌≢◌, refl, ap, inl, inr, Bool, false, arith, ◌==◌,
  if◌then◌else◌, Bool-cases,
}
use goddgs.Prelude.Int.{
  ℤ, pos, negsuc, ◌<ℤ◌, ◌≤ℤ◌, positive_or, positive_or-pos, positive_or-of_pos,
}
use goddgs.Circuit.{second}
use goddgs.Client.{Settings}
use goddgs.Client.Setup.{millisecond, Options, trim_slashes, or_default, new_settings}

-- `strings.HasSuffix(s, "/")`.
unfoldable pub ends_in_slash : String → Bool
ends_in_slash [] = false
ends_in_slash (c ∷ s) = if str_eq s "" then code c == 47 else ends_in_slash s

trim_slashes-bare : (s : String) → ends_in_slash (trim_slashes s) ≡ false
unfolding trim_slashes ends_in_slash
trim_slashes-bare [] = refl
trim_slashes-bare (c ∷ s) = elim (Bool-cases (str_eq (trim_slashes s) "")) [
  | inr more ↦ rw (more, trim_slashes, ends_in_slash) (ground (arith, more, trim_slashes-bare s))
  | inl last ↦ elim (Bool-cases (code c == 47)) [
    | inl slash ↦ rw (last, slash, trim_slashes, ends_in_slash) refl
    | inr other ↦ rw (last, other, trim_slashes, ends_in_slash) (ground (arith, last, other))
  ]
]

-- An address to which a path can be joined.
abbrev pub Base : String → Type 0
Base s = (s ≢ "") × (ends_in_slash s ≡ false)

or_default-Base : (s default : String) → Base default → Base (or_default (trim_slashes s) default)
or_default-Base s default ok = elim (Bool-cases (str_eq (trim_slashes s) "")) [
  | inl blank ↦ rw blank ok
  | inr given ↦ rw given (ground (arith, given, eq_iff (trim_slashes s) ""), trim_slashes-bare s)
]

-- A setting that was given, where it is positive, and the default in its place where it is not.
abbrev pub Kept : ℤ → ℕ → ℕ → Type 0
Kept given default value =
    ((pos 0 <ℤ given) × (pos value ≡ given)) ⊎ ((given ≤ℤ pos 0) × (value ≡ default))

positive_or-Kept : (given : ℤ) (default : ℕ) → Kept given default (positive_or given default)
unfolding positive_or
positive_or-Kept (pos zero) default = inr (omega arith, ground arith)
positive_or-Kept (pos (suc n)) default =
    inl (omega arith, ap pos (positive_or-of_pos (suc n) default (omega arith)))
positive_or-Kept (negsuc n) default = inr (omega arith, ground arith)

-- Settings with which the client can work.
pub record Ready (opts : Options) (cfg : Settings) : Type 0 where
  pub tries : 0 < cfg.retry_max
  pub delays : 0 < cfg.base_delay
  pub keeps : 0 < cfg.vqd_ttl
  pub kept_tries : Kept opts.retry_max 3 cfg.retry_max
  pub kept_delay : Kept opts.retry_base_delay 250_000_000 cfg.base_delay
  pub kept_ttl : Kept opts.vqd_ttl 600_000_000_000 cfg.vqd_ttl
  pub ddg : Base cfg.ddg_base
  pub links : Base cfg.links_base
  pub html : Base cfg.html_base

-- Whatever options it gets, `NewClient` sets a positive number of tries, a positive base delay of the
-- backoff and a positive lifetime of tokens: each is the one of the options where that is positive, and
-- 3, 250 milliseconds and 10 minutes where it is not. Its three addresses are not empty and do not end
-- in a slash.
pub new_settings-Ready : (opts : Options) → Ready opts (new_settings opts)
unfolding new_settings ends_in_slash
new_settings-Ready opts = record {
  tries = positive_or-pos opts.retry_max 3 (omega arith);
  delays = positive_or-pos opts.retry_base_delay (250 * millisecond) (omega arith);
  keeps = positive_or-pos opts.vqd_ttl (10 * 60 * second) (omega arith);
  kept_tries = positive_or-Kept opts.retry_max 3;
  kept_delay = positive_or-Kept opts.retry_base_delay (250 * millisecond);
  kept_ttl = positive_or-Kept opts.vqd_ttl (10 * 60 * second);
  ddg = or_default-Base opts.duck_duck_go_base "https://duckduckgo.com" (λ e. cc, refl);
  links = or_default-Base opts.links_base "https://links.duckduckgo.com" (λ e. cc, refl);
  html = or_default-Base opts.html_base "https://html.duckduckgo.com" (λ e. cc, refl);
}
