-- ===== src/Browser/Headers/Profile.antt =====
-- headers.go: which headers a request has after `applyProfile`.
use text.Mathlib.Text.{◌==◌ as str_eq}
use text.Mathlib.TextEquality.{eq_iff}
use goddgs.Prelude.{
  String, ◌≡◌, ◌≢◌, refl, ap, ◌∙◌, inl, inr, [], ◌∷◌, arith, if◌then◌else◌, Bool-cases,
}
use goddgs.Net.{get, put}
use goddgs.Failure.{Header}
use goddgs.Browser.Headers.{Pairs, BrowserProfile, fill_missing, override, apply_profile}

pub get-put : (k v : String) (hs : Header) → get (put k v hs) k ≡ v
unfolding get put
get-put k v [] = ground (arith, eq_iff k k)
get-put k v ((j, []) ∷ hs) = ground (arith, eq_iff j k, eq_iff k k, get-put k v hs)
get-put k v ((j, w ∷ ws) ∷ hs) = ground (arith, eq_iff j k, eq_iff k k, get-put k v hs)

pub get-put-other : (k j v : String) (hs : Header) → j ≢ k → get (put k v hs) j ≡ get hs j
unfolding get put
get-put-other k j v [] distinct = ground (arith, eq_iff k j)
get-put-other k j v ((i, []) ∷ hs) distinct =
    ground (arith, eq_iff i k, eq_iff i j, eq_iff k j, get-put-other k j v hs distinct)
get-put-other k j v ((i, w ∷ ws) ∷ hs) distinct =
    ground (arith, eq_iff i k, eq_iff i j, eq_iff k j, get-put-other k j v hs distinct)

pub get-put-either :
    (k v j : String) (hs : Header) → get (put k v hs) j ≡ (if str_eq k j then v else get hs j)
get-put-either k v j hs = ground (arith, eq_iff k j, get-put k v hs, get-put-other k j v hs)

-- What a list of pairs says of a key: the first value that is not empty, for the filling of gaps, and
-- the last value, or the one before the list.
abbrev pub first_value : String → Pairs → String
first_value key [] = ""
first_value key ((k, v) ∷ kvs) =
    if str_eq k key then (if str_eq v "" then first_value key kvs else v) else first_value key kvs

abbrev pub last_value : String → Pairs → String → String
last_value key [] old = old
last_value key ((k, v) ∷ kvs) old = last_value key kvs (if str_eq k key then v else old)

get-fill_missing :
    (key : String) (kvs : Pairs) (hs : Header)
    → get (fill_missing kvs hs) key
      ≡ (if str_eq (get hs key) "" then first_value key kvs else get hs key)
unfolding fill_missing
get-fill_missing key [] hs = ground (arith, eq_iff (get hs key) "")
get-fill_missing key ((k, v) ∷ kvs) hs = elim (Bool-cases (str_eq (get hs k) "")) [
  | inr kept ↦ rw (kept, get-fill_missing key kvs hs) (ground (arith, kept, eq_iff k key))
  | inl gap ↦
      rw (gap, get-fill_missing key kvs (put k v hs), get-put-either k v key hs)
        (ground (arith, gap, eq_iff k key))
]

get-override :
    (key : String) (kvs : Pairs) (hs : Header)
    → get (override kvs hs) key ≡ last_value key kvs (get hs key)
unfolding override
get-override key [] hs = refl
get-override key ((k, v) ∷ kvs) hs =
    get-override key kvs (put k v hs) ∙ ap (last_value key kvs) (get-put-either k v key hs)

-- After `applyProfile` a header has the value of the overriding map, where that has one; else the
-- value of the request, where that is not empty; and else the value of the profile.
pub get-apply_profile :
    (key : String) (hs : Header) (profile : BrowserProfile) (extra : Pairs)
    → get (apply_profile hs profile extra) key
      ≡ last_value key extra
          (if str_eq (get hs key) "" then first_value key profile.headers else get hs key)
unfolding apply_profile
get-apply_profile key hs profile extra =
    get-override key extra (fill_missing profile.headers hs)
    ∙ ap (last_value key extra) (get-fill_missing key profile.headers hs)
