-- ===== src/Prelude/Split/Joined.antt =====
-- `strings.Split` of what `strings.Join` puts together.
use Prim.Native.Char.{code}
use Prim.Native.String
use Prim.Native.String.append
use Prim.Native.String.{String}
use goddgs.Prelude.{◌≡◌, refl, ap, ◌∙◌, Bool, true, ◌&&◌, not, List, [], ◌∷◌, arith, ◌==◌, All}
use goddgs.Prelude.Format.{join, concat}
use goddgs.Prelude.Split.{cut, split_comma}

-- No character is a comma.
abbrev pub no_comma : String → Bool
no_comma String.[] = true
no_comma (String.◌∷◌ c s) = not (code c == 44) && no_comma s

cut-last : (s : String) → no_comma s ≡ true → cut s ≡ (s, [])
unfolding cut
cut-last String.[] h = refl
cut-last (String.◌∷◌ c s) h = rw (cut-last s (ground arith)) (ground arith)

cut-part :
    (s t : String)
    → no_comma s ≡ true
    → cut (String.◌++◌ s (String.◌++◌ "," t)) ≡ (s, split_comma t)
unfolding cut split_comma
cut-part String.[] t h = rw (append.nil _, append.cons, append.nil t) refl
cut-part (String.◌∷◌ c s) t h = rw (append.cons c s _, cut-part s t (ground arith)) (ground arith)

append_nil : (s : String) → String.◌++◌ s "" ≡ s
append_nil String.[] = append.nil ""
append_nil (String.◌∷◌ c s) = append.cons c s "" ∙ ap (String.◌∷◌ c) (append_nil s)

-- Parts without a comma, of which there is one at least, come back from the text that joins them.
pub split_comma-join :
    (s : String) (ss : List String)
    → All (λ x. no_comma x ≡ true) (s ∷ ss)
    → split_comma (join "," (s ∷ ss)) ≡ s ∷ ss
unfolding join split_comma concat
split_comma-join s [] h = rw (cut-last s h.0) refl
split_comma-join s (t ∷ ss) h =
    rw (append_nil (join "," (t ∷ ss)), cut-part s (join "," (t ∷ ss)) h.0)
      (ap (◌∷◌ s) (split_comma-join t ss h.1))
