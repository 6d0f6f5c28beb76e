-- ===== src/Browser/Agents.antt =====
-- ua.go: which user agents are drawn.
use text.Mathlib.Text.{◌==◌ as str_eq}
use goddgs.Prelude.{
  ℕ, ◌-◌, ◌<◌, ◌≡◌, refl, inl, inr, Bool, true, false, not, ◌&&◌, some, List, [], ◌∷◌, All, arith,
  ltb, Bool-cases,
}
use goddgs.Prelude.Text.{has_prefix, contains}
use goddgs.Prelude.Format.{concat}
use goddgs.Browser.{
  Family, chrome, edge, firefox, safari, UaEntry, default_uas, total_weight, new_user_agent_pool,
  pick_from, pick,
}
use goddgs.Browser.Hints.{ua_family, sec_ch_ua, chrome_major, digits_to_dot}

pick_from-All :
    (P : UaEntry → Type 0) (es : List UaEntry) (n : ℕ)
    → All P es
    → n < total_weight es
    → (e : UaEntry) × (pick_from n es ≡ some e) × P e
unfolding pick_from
pick_from-All P [] n h low = absurd (omega arith)
pick_from-All P (e ∷ []) n (h, hs) low = (e, refl, h)
pick_from-All P (e ∷ f ∷ es) n (h, hs) low = elim (Bool-cases (ltb n e.weight)) [
  | inl here ↦ (e, rw (here, pick_from) refl, h)
  | inr later ↦
      rw (later, pick_from)
        (pick_from-All P (f ∷ es) (n - e.weight) hs (ground (arith, later, low)))
]

abbrev is_chromium : Family → Bool
is_chromium chrome = true
is_chromium edge = true
is_chromium _ = false

abbrev same_family : Family → Family → Bool
same_family chrome chrome = true
same_family edge edge = true
same_family firefox firefox = true
same_family safari safari = true
same_family _ _ = false

-- The user agent is taken for one of its own family, and has the hint of a Chromium browser exactly
-- if it is one.
pub record Consistent (e : UaEntry) : Type 0 where
  pub classified : ua_family e.ua ≡ e.family
  pub hinted : str_eq (sec_ch_ua e.ua) "" ≡ not (is_chromium e.family)
  pub weighted : 0 < e.weight

abbrev same_bool : Bool → Bool → Bool
same_bool true b = b
same_bool false b = not b

fits : UaEntry → Bool
fits e =
    same_family (ua_family e.ua) e.family
    && same_bool (str_eq (sec_ch_ua e.ua) "") (not (is_chromium e.family))
    && ltb 0 e.weight

fits-Consistent : (e : UaEntry) → fits e ≡ true → Consistent e
unfolding fits
fits-Consistent e h = record {
  classified = ground arith;
  hinted = ground arith;
  weighted = ground arith;
}

all_fit : List UaEntry → Bool
unfolding fits
all_fit [] = true
all_fit (e ∷ es) = fits e && all_fit es

all_fit-All : (es : List UaEntry) → all_fit es ≡ true → All Consistent es
unfolding all_fit
all_fit-All [] h = tt
all_fit-All (e ∷ es) h = (fits-Consistent e (ground arith), all_fit-All es (ground arith))

all_fit-default_uas : all_fit default_uas ≡ true
unfolding all_fit fits ua_family sec_ch_ua chrome_major digits_to_dot has_prefix contains concat
all_fit-default_uas = refl

-- Whatever number is drawn for the pool of `NewUserAgentPool`, it gives a user agent, which
-- `uaFamily` takes for one of its own family, and for which `SecCHUA` gives a value exactly if it is
-- a Chromium browser.
pub pick-Consistent :
    (n : ℕ)
    → n < (new_user_agent_pool).total
    → (e : UaEntry) × (pick n new_user_agent_pool ≡ some e) × Consistent e
unfolding pick new_user_agent_pool
pick-Consistent n low =
    pick_from-All Consistent default_uas n (all_fit-All default_uas all_fit-default_uas) low
