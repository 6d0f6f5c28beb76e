-- ===== src/Prelude/Lists.antt =====
-- Lists measured and indexed by native numbers, and predicates over their elements.
use Prim.Native.Nat.{ℕ, zero, suc, ◌≤◌, ◌+◌}
use mathlib.Core.List.{List, [], ◌∷◌, ◌++◌}
use mathlib.Core.Path.{◌≡◌, refl}
use mathlib.Core.Logic.{◌≢◌}
use native.Mathlib.Omega.{arith}
use mathlib.Core.Option.{Option, none, some}

-- A predicate at every element.
module _ {ℓ κ} {A : Type ℓ} (P : A → Type κ) where
  abbrev pub All : List A → Type κ
  All [] = Unit
  All (x ∷ xs) = P x × All xs

module _ {ℓ} {A : Type ℓ} where
  -- The element at a position, where there is one.
  abbrev pub get_elem? : List A → ℕ → Option A
  get_elem? [] at = none
  get_elem? (here ∷ rest) zero = some here
  get_elem? (here ∷ rest) (suc at) = get_elem? rest at

  abbrev pub length : List A → ℕ
  length [] = 0
  length (here ∷ rest) = suc (length rest)

  -- The slice `xs[:n]`, of a list that is long enough.
  abbrev pub take : ℕ → List A → List A
  take zero row = []
  take (suc n) [] = []
  take (suc n) (here ∷ rest) = here ∷ take n rest

-- What a slice keeps.
module _ {ℓ κ} {A : Type ℓ} (P : A → Type κ) where
  pub All-take : (n : ℕ) (row : List A) → All P row → All P (take n row)
  All-take zero row h = tt
  All-take (suc n) [] h = tt
  All-take (suc n) (here ∷ rest) (p, h) = (p, All-take n rest h)

module _ {ℓ κ} {A : Type ℓ} (P : A → Type κ) where
  pub All-++ : (xs ys : List A) → All P xs → All P ys → All P (xs ++ ys)
  All-++ [] ys hs ks = ks
  All-++ (x ∷ xs) ys (h, hs) ks = (h, All-++ xs ys hs ks)

pub length-++ {ℓ} : {A : Type ℓ} (xs ys : List A) → length (xs ++ ys) ≡ length xs + length ys
length-++ [] ys = omega arith
length-++ (x ∷ xs) ys = omega (arith, length-++ xs ys)

-- A slice with room for an element has one, of a list that has one.
pub take-ne-[] {ℓ} : {A : Type ℓ} (n : ℕ) (row : List A) → suc 0 ≤ n → row ≢ [] → take n row ≢ []
take-ne-[] zero row room h = absurd (omega arith)
take-ne-[] (suc n) [] room h = absurd (h refl)
take-ne-[] (suc n) (here ∷ rest) room h = λ e. cc

pub length-take {ℓ} : {A : Type ℓ} (n : ℕ) (row : List A) → length (take n row) ≤ n
length-take zero row = omega arith
length-take (suc n) [] = omega arith
length-take (suc n) (here ∷ rest) = omega (arith, length-take n rest)
