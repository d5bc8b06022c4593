-- ===== src/Upstream/Examples.antt =====
-- internal/upstream at concrete inputs: a local endpoint that times out, and a frontier that answers.
use nexus_proxy.Shared.{◌≡◌, refl, true, false, [], ◌∷◌, none, some, String, ◌⊎◌}
use nexus_proxy.Shared.Int.{pos, ◌≤ℤ◌}
use nexus_proxy.Upstream.Retry.{new_cascade_err, classify_failure, should_retry}
use nexus_proxy.Upstream.Fetch.{
  CascadeStep, AssistantMessage, ToolCall, Codec, refused, replied, do_fetch_cascade_step,
  read_reply, extract_assistant_message,
}
use nexus_proxy.Upstream.Fetch.Outcomes.{
  Fails, do_fetch_cascade_step_status, unread, retried_status,
}
use nexus_proxy.Upstream.Cascade.{first_status, Try, Writer, Sink, run, run_buffered}
use nexus_proxy.Upstream.Cascade.Runs.{
  Served, Stopped, Exhausted, run_serves, run_stops, run_exhausts,
}
use nexus_proxy.Upstream.Cascade.Buffered.{
  SameReport, SameAttempts, run-run_buffered, run_buffered_status,
}
use nexus_proxy.Upstream.Prompt.{Encoder}
use nexus_proxy.Upstream.Timeout.{
  TimeoutConfig, effective_timeout, floor_of, ceiling_of, cascade_default_ceiling,
  effective_timeout_bounds,
}

abbrev step_named : String → CascadeStep
step_named n = record { name = n; url = "http://host"; api_key = ""; model = "model" }

abbrev call : ToolCall
call = record { id = "1"; kind = "function"; function_name = "ls"; arguments = "{}" }

abbrev message : AssistantMessage
message = record { content = "done"; tool_calls = call ∷ [] }

abbrev codec : Codec
codec = record {
  decode = λ b. some (record { model = "model"; choices = message ∷ [] });
  is_json = λ s. true;
  trim_space = λ s. s;
  atoi = λ s. none;
  parse_date = λ n s. none;
}

abbrev timed_out : Try
timed_out = record { step = step_named "local"; exchange = refused true; elapsed = 30 }

abbrev answered : Try
answered = record {
  step = step_named "frontier";
  exchange = replied 200 "" (some "body");
  elapsed = 2;
}

abbrev unauthorised : Try
unauthorised = record answered { exchange = replied 401 "" (some "no") }

abbrev blank : Writer
blank = record { content_type = ""; served_by_header = ""; status = none; body = [] }

abbrev sink : Sink
sink = record { marshals = true; writes_first = true; writes_second = false }

run_serves_example :
    Served codec sink blank [] false
      (timed_out ∷ [])
      answered
      message
      "model"
      (run codec sink blank (timed_out ∷ answered ∷ []))
unfolding do_fetch_cascade_step read_reply should_retry extract_assistant_message new_cascade_err
    classify_failure
run_serves_example =
    run_serves codec sink blank (timed_out ∷ []) answered [] message "model" "body" (refl, tt) refl

run_stops_example :
    Stopped codec sink blank [] false
      (timed_out ∷ [])
      unauthorised
      (new_cascade_err false "" "status")
      (run codec sink blank (timed_out ∷ unauthorised ∷ answered ∷ []))
unfolding do_fetch_cascade_step read_reply should_retry new_cascade_err classify_failure
run_stops_example =
    run_stops codec sink blank (timed_out ∷ []) unauthorised (answered ∷ [])
      (new_cascade_err false "" "status") (refl, tt) refl refl

run_exhausts_example :
    Exhausted codec sink blank [] false none
      (timed_out ∷ [])
      (run codec sink blank (timed_out ∷ []))
unfolding do_fetch_cascade_step new_cascade_err classify_failure
run_exhausts_example = run_exhausts codec sink blank timed_out [] (refl, tt)

run-run_buffered_example :
    let o = run codec sink blank (timed_out ∷ answered ∷ []) in
    let o' = run_buffered codec sink blank (timed_out ∷ answered ∷ []) in
    SameReport o.result o'.result × SameAttempts o.result o'.result
run-run_buffered_example = run-run_buffered codec sink blank blank (timed_out ∷ answered ∷ [])

run_buffered_status_example :
    (run_buffered codec sink blank (timed_out ∷ [])).writer.status ≡ some 200
unfolding first_status
run_buffered_status_example = run_buffered_status codec sink blank timed_out []

do_fetch_cascade_step_status_example :
    Fails (do_fetch_cascade_step codec answered.step (replied 501 "" (some "body"))) false
unfolding retried_status unread
do_fetch_cascade_step_status_example =
    do_fetch_cascade_step_status codec answered.step 501 "" (some "body") refl

-- A 401 is retried if its body cannot be read.
unread_401 : Fails (do_fetch_cascade_step codec answered.step (replied 401 "" none)) true
unfolding retried_status unread
unread_401 = do_fetch_cascade_step_status codec answered.step 401 "" none refl

abbrev encoder : Encoder
encoder = some (λ s. 7)

-- A floor of 200 s and a ceiling of 150 s.
abbrev steep : TimeoutConfig
steep = record {
  timeout = pos 0;
  timeout_floor = pos 200000000000;
  timeout_ceiling = pos 150000000000;
  timeout_per_1k_tokens = pos 1500000000;
}

effective_timeout_bounds_example :
    let t = effective_timeout steep 4000 in
    (t ≤ℤ ceiling_of steep)
    × ((floor_of steep ≤ℤ t) ⊎ ((t ≡ cascade_default_ceiling) × (true ≡ true)))
unfolding floor_of
effective_timeout_bounds_example = effective_timeout_bounds steep 4000 refl
