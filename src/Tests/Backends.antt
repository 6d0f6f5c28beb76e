-- ===== src/Tests/Backends.antt =====
-- A search service that answers.
use goddgs.Prelude.{String, List, [], ◌∷◌}
use goddgs.Failure.{GoError, nil}
use goddgs.Net.{HttpResponse}
use goddgs.Backend.{RawItem, interpret}
use goddgs.Backend.Results.{Outcome, interpret-outcome}

abbrev item : RawItem
item = record { title = " Go "; url = "https://go.dev "; text = "lang" }

abbrev one_item : String → List RawItem × GoError
one_item body = (item ∷ [], nil)

abbrev accepted : HttpResponse
accepted = record { status_code = 200; headers = []; body = "{}" }

interpret-outcome_example : Outcome "brave" one_item accepted (interpret "brave" one_item accepted)
interpret-outcome_example = interpret-outcome "brave" one_item accepted
