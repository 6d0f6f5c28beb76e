-- ===== src/Net.antt =====
-- What the program uses of `net/http`: requests, responses, and the calls that build and send them.
use Prim.Native.String.{String}
use text.Mathlib.Text.{◌==◌ as str_eq}
use goddgs.Prelude.{ℕ, List, [], ◌∷◌, if◌then◌else◌}
use goddgs.Failure.{GoError, Header}

-- `Header.Get`: the first value of a canonical key, and "" where there is none.
unfoldable pub get : Header → String → String
get [] key = ""
get ((k, []) ∷ hs) key = if str_eq k key then "" else get hs key
get ((k, v ∷ vs) ∷ hs) key = if str_eq k key then v else get hs key

-- `Header.Set`.
unfoldable pub put : String → String → Header → Header
put key value [] = (key, value ∷ []) ∷ []
put key value ((k, vs) ∷ hs) =
    if str_eq k key then (k, value ∷ []) ∷ hs else (k, vs) ∷ put key value hs

pub record HttpRequest : Type 0 where
  pub method : String
  pub url : String
  pub headers : Header
  pub body : String

pub record HttpResponse : Type 0 where
  pub status_code : ℕ
  pub headers : Header
  pub body : String

-- A call of `http.Client.Do` and of `io.ReadAll` on the body: the response, its body as far as it
-- was read, with the error of the reading; or the error of the call.
pub data Reply : Type 0 where
  response : HttpResponse → GoError → Reply
  do_error : GoError → Reply

-- The parts of the library: `http.NewRequestWithContext` gives the error that a request meets, or
-- `nil`; `send` is `Do` with the reading of the body; `encode` is `url.Values.Encode`.
pub record Net (W : Type 0) : Type 0 where
  pub new_request : HttpRequest → GoError
  pub send : HttpRequest → W → Reply × W
  pub encode : List (String × String) → String
