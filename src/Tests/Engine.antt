-- ===== src/Tests/Engine.antt =====
-- The engine with three scripted providers; the world is a clock.
use goddgs.Prelude.{ℕ, ◌+◌, ◌≡◌, refl, ◌≢◌, true, false, some, List, [], ◌∷◌, map, arith}
use goddgs.Prelude.Int.{pos}
use goddgs.Prelude.Text.{trim_space, is_blank}
use goddgs.Failure.{classify_error, nil, blocked_error}
use goddgs.Api.{
  SearchResult, SearchRequest, SearchResponse, Event, EventType, search_start, search_finish,
  provider_start, provider_end, blocked_seen, fallback, safe_moderate,
}
use goddgs.Engine.{Provider, Engine, Run, search, normalize, empty}
use goddgs.Engine.Outcome.{Chosen}
use goddgs.Engine.Selection.{Refused, search-Chosen, search-Refused}
use goddgs.Engine.Liveness.{search-answers}

abbrev pub tick : ℕ → ℕ × ℕ
tick w = (w, w + 1)

abbrev pub hit : SearchResult
hit = record { title = "Go"; url = "https://go.dev"; snippet = "" }

abbrev off : Provider ℕ
off = record { name = "brave"; enabled = false; search = λ req w. (([], nil), w) }

abbrev burned : Provider ℕ
burned = record {
  name = "ddg";
  enabled = true;
  search = λ req w. (
    (
      [],
      blocked_error (record {
        status_code = 403;
        headers = [];
        body_snippet = "";
        detector = "status";
        attempt = 3;
      }),
    ),
    w + 5,
  );
}

abbrev good : Provider ℕ
good = record { name = "tavily"; enabled = true; search = λ req w. ((hit ∷ [], nil), w + 7) }

abbrev pub chain : Engine ℕ
chain = record { providers = some off ∷ some burned ∷ some good ∷ []; hooks = [] }

abbrev pub alone : Engine ℕ
alone = record { providers = some burned ∷ some off ∷ []; hooks = [] }

abbrev pub ask : SearchRequest
ask = record {
  query = "golang";
  max_results = pos 0;
  region = "";
  safe_search = safe_moderate;
  time_range = "";
  offset = pos 0;
}

abbrev pub begin : Run ℕ
begin = record { world = 100; emitted = [] }

abbrev kinds : List Event → List EventType
kinds = map (λ (e : Event). e.event_type)

search_run :
    kinds (search tick chain ask begin).1.emitted
    ≡ search_start ∷ provider_start ∷ blocked_seen ∷ provider_end ∷ fallback ∷ provider_start
      ∷ provider_end ∷ search_finish ∷ []
unfolding search trim_space classify_error
search_run = refl

chain_response : SearchResponse
unfolding search trim_space classify_error
chain_response = (search tick chain ask begin).0.0

search-Chosen_example : Chosen (normalize ask) 0 chain.providers empty chain_response
unfolding search trim_space classify_error chain_response
search-Chosen_example = search-Chosen tick chain ask begin chain_response refl

alone_fails : (search tick alone ask begin).0.1 ≢ nil
unfolding search trim_space classify_error
alone_fails h = ground arith

search-Refused_example : Refused alone ask (search tick alone ask begin).0
search-Refused_example = search-Refused tick alone ask begin alone_fails

ask_has_query : is_blank ask.query ≡ false
unfolding trim_space
ask_has_query = refl

search-answers_example : (search tick chain ask begin).0.1 ≡ nil
search-answers_example =
    search-answers tick chain ask begin (some off ∷ some burned ∷ []) good [] ask_has_query refl
      refl (λ w. (hit ∷ [], (λ h. cc), refl))
