-- ===== src/Tests/Service.antt =====
-- The HTTP handler, over an engine whose only provider is blocked.
use goddgs.Prelude.{ℕ, ◌+◌, String, ◌≡◌, refl, true, Option, some, [], ◌∷◌}
use goddgs.Prelude.Int.{pos}
use goddgs.Prelude.Text.{trim_space}
use goddgs.Failure.{blocked_error, classify_error}
use goddgs.Engine.{Engine, Provider, Run, search}
use goddgs.Service.{ServiceSearchRequest, Incoming, handle_search}
use goddgs.Service.Status.{Reason, handle_search-Reason}

abbrev tick : ℕ → ℕ × ℕ
tick w = (w, w + 1)

abbrev burned : Provider ℕ
burned = record {
  name = "ddg";
  enabled = true;
  search = λ req w. (
    (
      [],
      blocked_error (record {
        status_code = 403;
        headers = [];
        body_snippet = "";
        detector = "status";
        attempt = 3;
      }),
    ),
    w + 5,
  );
}

abbrev only : Option (Engine ℕ)
only = some (record { providers = some burned ∷ []; hooks = [] })

abbrev decode : String → Option ServiceSearchRequest
decode s = some (record { query = s; max_results = pos 5; region = "" })

abbrev incoming : Incoming
incoming = record { method = "POST"; path = "/v1/search"; body = "golang" }

abbrev begin : Run ℕ
begin = record { world = 0; emitted = [] }

blocked_run : (handle_search tick decode only incoming begin).0.status ≡ 404
unfolding handle_search trim_space classify_error search
blocked_run = refl

handle_search-Reason_example :
    Reason tick decode only incoming begin (handle_search tick decode only incoming begin).0.status
handle_search-Reason_example = handle_search-Reason tick decode only incoming begin
