-- ===== src/Prelude/Text/Plain.antt =====
-- Strings in which no character is white space.
use Prim.Native.Char.{Char, code}
use Prim.Native.String.{String, [], ◌∷◌, ◌++◌}
use Prim.Native.String.append
use text.Mathlib.Text.{◌==◌ as str_eq}
use goddgs.Prelude.{◌≡◌, refl, ap, ◌∙◌, Bool, true, false, ◌&&◌, not, arith, if◌then◌else◌}
use goddgs.Prelude.Text.{is_space, trim_left, trim_right, trim_space}

abbrev pub is_plain : String → Bool
is_plain [] = true
is_plain (c ∷ s) = not (is_space (code c)) && is_plain s

pub is_plain-append : (s t : String) → is_plain (s ++ t) ≡ (is_plain s && is_plain t)
is_plain-append [] t = rw (append.nil t) refl
is_plain-append (c ∷ s) t = rw (append.cons c s t) (ground (arith, is_plain-append s t))

first_plain : (c : Char) (s : String) → is_plain (c ∷ s) ≡ true → is_space (code c) ≡ false
first_plain c s h = ground arith

trim_left-plain : (s : String) → is_plain s ≡ true → trim_left s ≡ s
unfolding trim_left
trim_left-plain [] h = refl
trim_left-plain (c ∷ s) h = rw (trim_left, first_plain c s h) refl

trim_right-first :
    (c : Char) (s : String) → is_space (code c) ≡ false → trim_right (c ∷ s) ≡ c ∷ trim_right s
unfolding trim_right
trim_right-first c s h =
    ap (λ (b : Bool). if b && str_eq (trim_right s) "" then [] else c ∷ trim_right s) h

trim_right-plain : (s : String) → is_plain s ≡ true → trim_right s ≡ s
trim_right-plain [] h = unfold trim_right in refl
trim_right-plain (c ∷ s) h =
    trim_right-first c s (first_plain c s h) ∙ ap (◌∷◌ c) (trim_right-plain s (ground arith))

pub trim_space-plain : (s : String) → is_plain s ≡ true → trim_space s ≡ s
unfolding trim_space
trim_space-plain s h = rw (trim_left-plain s h) (trim_right-plain s h)
