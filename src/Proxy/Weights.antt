-- ===== src/Proxy/Weights.antt =====
-- The weights: the pool's total, and the weighted draw.
use text.Mathlib.Text.{◌==◌ as str_eq}
use goddgs.Prelude.{String, ◌≡◌, refl, Bool, some, List, [], ◌∷◌, ◌++◌, arith, inl, inr, Bool-cases}
use goddgs.Prelude.Int.{ℤ, pos, ◌+ℤ◌, int_laws, parts_of_eq}
use goddgs.Proxy.{
  ProxyPool, ProxyEntry, RotationStrategy, new_entry, add_urls, new_proxy_pool, set_weight, reweigh,
}

abbrev pub all_weights : List ProxyEntry → ℤ
all_weights [] = pos 0
all_weights (e ∷ es) = e.weight +ℤ all_weights es

all_weights-append :
    (es fs : List ProxyEntry) → all_weights (es ++ fs) ≡ all_weights es +ℤ all_weights fs
all_weights-append [] fs = omega int_laws
all_weights-append (e ∷ es) fs = rw (all_weights-append es fs) (omega int_laws)

add_urls-total :
    (parses : String → Bool) (urls : List String) (p q : ProxyPool)
    → p.total ≡ all_weights p.entries
    → add_urls parses urls p ≡ some q
    → q.total ≡ all_weights q.entries
unfolding add_urls new_entry
add_urls-total parses [] p q t h = ground arith
add_urls-total parses (url ∷ urls) p q t h = elim (Bool-cases (parses url)) [
  | inl ok ↦
      add_urls-total parses urls _ q
        (omega (
          int_laws,
          parts_of_eq _ _ t,
          parts_of_eq _ _ (all_weights-append p.entries (new_entry url ∷ [])),
        ))
        (rw (ok, add_urls) at h)
  | inr bad ↦ ground arith
]

reweigh-total :
    (url : String) (weight : ℤ) (es : List ProxyEntry) (total : ℤ)
    → (reweigh url weight es total).1 +ℤ all_weights es
      ≡ total +ℤ all_weights (reweigh url weight es total).0
unfolding reweigh
reweigh-total url weight [] total = refl
reweigh-total url weight (e ∷ es) total = elim (Bool-cases (str_eq e.url url)) [
  | inl hit ↦ rw hit (omega int_laws)
  | inr miss ↦ rw miss (omega (int_laws, parts_of_eq _ _ (reweigh-total url weight es total)))
]

-- A new pool's total is the sum of the weights of its entries.
pub new_proxy_pool-total :
    (parses : String → Bool) (urls : List String) (s : RotationStrategy) (q : ProxyPool)
    → new_proxy_pool parses urls s ≡ some q
    → q.total ≡ all_weights q.entries
unfolding new_proxy_pool
new_proxy_pool-total parses urls s q h = add_urls-total parses urls _ q refl h

-- `SetWeight` keeps the pool's total at the sum of the weights of its entries, whatever the weight
-- and whether the URL is in the pool or not.
pub set_weight-total :
    (p : ProxyPool) (url : String) (weight : ℤ)
    → p.total ≡ all_weights p.entries
    → (set_weight p url weight).total ≡ all_weights (set_weight p url weight).entries
unfolding set_weight
set_weight-total p url weight t =
    omega
      (int_laws, parts_of_eq _ _ t, parts_of_eq _ _ (reweigh-total url weight p.entries p.total))
