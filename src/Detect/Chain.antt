-- ===== src/Detect/Chain.antt =====
-- The chain of the tests of `detectByHeaders`, over their outcomes.
use goddgs.Prelude.{
  ℕ, ◌≡◌, refl, ◌≢◌, ◌⊎◌, Bool, true, false, ◌&&◌, ◌||◌, arith, ◌==◌, if◌then◌else◌,
}
use goddgs.Signal.{
  generic, cloudflare, akamai, data_dome, perimeter_x, BlockInfo, is_detected, no_block,
}
use goddgs.Detect.{found_by}

abbrev pub chain : (a b c d e f g : Bool) → BlockInfo
chain a b c d e f g =
    if a
    then found_by cloudflare "cf_mitigated"
    else if b
    then found_by cloudflare "cf_ray"
    else if c
    then found_by akamai "akamai_server"
    else if d
    then found_by akamai "akamai_403"
    else if e
    then found_by data_dome "datadome_header"
    else if f
    then found_by perimeter_x "px_header"
    else if g
    then found_by generic "http_429"
    else no_block

pub chain-some :
    (P : BlockInfo → Type 0) (a b c d e f g : Bool)
    → (a ≡ true → P (found_by cloudflare "cf_mitigated"))
    → (b ≡ true → P (found_by cloudflare "cf_ray"))
    → (c ≡ true → P (found_by akamai "akamai_server"))
    → (d ≡ true → P (found_by akamai "akamai_403"))
    → (e ≡ true → P (found_by data_dome "datadome_header"))
    → (f ≡ true → P (found_by perimeter_x "px_header"))
    → (g ≡ true → P (found_by generic "http_429"))
    → is_detected (chain a b c d e f g) ≡ true
    → P (chain a b c d e f g)
unfolding is_detected
chain-some P true b c d e f g pa pb pc pd pe pf pg h = pa refl
chain-some P false true c d e f g pa pb pc pd pe pf pg h = pb refl
chain-some P false false true d e f g pa pb pc pd pe pf pg h = pc refl
chain-some P false false false true e f g pa pb pc pd pe pf pg h = pd refl
chain-some P false false false false true f g pa pb pc pd pe pf pg h = pe refl
chain-some P false false false false false true g pa pb pc pd pe pf pg h = pf refl
chain-some P false false false false false false true pa pb pc pd pe pf pg h = pg refl
chain-some P false false false false false false false pa pb pc pd pe pf pg h = cc

pub chain-none :
    (a b c d e f g : Bool)
    → is_detected (chain a b c d e f g) ≡ false
    → (a ≡ false)
      × (b ≡ false)
      × (c ≡ false)
      × (d ≡ false)
      × (e ≡ false)
      × (f ≡ false)
      × (g ≡ false)
unfolding is_detected
chain-none a b c d e f g h = ground arith

pub both : (a : Bool) (status : ℕ) → (a && status == 403) ≡ true → (a ≡ true) × (status ≡ 403)
both a status h = ground arith

pub both-not : (a : Bool) (status : ℕ) → a ≡ true → status ≡ 403 → (a && status == 403) ≢ false
both-not a status t u h = ground arith

pub ray :
    (a : Bool) (status : ℕ)
    → (a && (status == 403 || status == 503)) ≡ true
    → (a ≡ true) × ((status ≡ 403) ⊎ (status ≡ 503))
ray a status h = ground arith

pub ray-not :
    (a : Bool) (status : ℕ)
    → a ≡ true
    → (status ≡ 403) ⊎ (status ≡ 503)
    → (a && (status == 403 || status == 503)) ≢ false
ray-not a status t u h = ground arith
