-- ===== src/Upstream/Cascade.antt =====
-- internal/upstream/cascade.go: the ordered fallback. Each step comes with the exchange that its endpoint
-- would have; the runners look at the exchanges of the steps that they reach. The response writer is its
-- headers, status and body, with a plan of which of its writes succeed.
pub mod Verdict
pub mod Runs
pub mod Buffered
use Prim.Native.String.{◌++◌}
use mathlib.Core.List.{◌++◌ as append_list}
use text.Mathlib.Text.{◌==◌ as str_eq}
use nexus_proxy.Shared.{
  ℕ, suc, String, Bool, true, false, ◌&&◌, List, [], ◌∷◌, Option, none, some, map, length,
  if◌then◌else◌,
}
use nexus_proxy.Upstream.Retry.{StepError, classify_failure, cascade_fallback_reason}
use nexus_proxy.Upstream.Fetch.{
  CascadeStep, ToolCall, AssistantMessage, Codec, Exchange, Fetched, fetched, failed,
  has_tool_calls, do_fetch_cascade_step,
}

-- A step, the exchange that its endpoint would have, and how long it would take.
pub record Try : Type 0 where
  pub step : CascadeStep
  pub exchange : Exchange
  pub elapsed : ℕ

pub record CascadeResult : Type 0 where
  pub route_attempted : String
  pub attempts : ℕ
  pub served_by : String
  pub succeeded : Bool
  pub local_step_failed : Bool
  pub tool_calls : List ToolCall
  pub fallback_reason : String
  pub fallback_latency : ℕ
  pub fallback_route : String

-- The delta of an SSE chunk: `content` is absent in a turn of tool calls alone.
pub record Chunk : Type 0 where
  pub id : String
  pub model : String
  pub delta_content : Option String
  pub delta_tool_calls : List ToolCall
  pub finish_reason : String

pub data Line : Type 0 where
  chunk_line : Chunk → Line
  done_line : Line
  raw_line : String → Line

pub record Writer : Type 0 where
  pub content_type : String
  pub served_by_header : String
  pub status : Option ℕ
  pub body : List Line

-- Which steps of writing succeed: the encoding of the chunk, the first and the second write.
pub record Sink : Type 0 where
  pub marshals : Bool
  pub writes_first : Bool
  pub writes_second : Bool

pub data RunError : Type 0 where
  no_steps not_attempted sse_partial_write marshal_failed write_failed : RunError
  step_failed : StepError → RunError
  all_failed : ℕ → StepError → RunError

pub record RunOutcome : Type 0 where
  pub result : CascadeResult
  pub writer : Writer
  pub error : Option RunError

unfoldable pub empty_result : CascadeResult
empty_result = record {
  route_attempted = "";
  attempts = 0;
  served_by = "";
  succeeded = false;
  local_step_failed = false;
  tool_calls = [];
  fallback_reason = "";
  fallback_latency = 0;
  fallback_route = "";
}

-- `joinStepNames`, with `strings.Join` over "->".
unfoldable pub join_step_names : List CascadeStep → String
join_step_names [] = ""
join_step_names (s ∷ []) = s.name
join_step_names (s ∷ t ∷ ss) = s.name ++ ("->" ++ join_step_names (t ∷ ss))

-- The chunk that `writeSSEResponse` builds.
unfoldable pub sse_chunk : String → String → AssistantMessage → Chunk
unfolding has_tool_calls
sse_chunk step_name served_model msg = record {
  id = "chatcmpl-cascade-" ++ step_name;
  model = if str_eq served_model "" then step_name else served_model;
  delta_content = if has_tool_calls msg && str_eq msg.content "" then none else some msg.content;
  delta_tool_calls = msg.tool_calls;
  finish_reason = if has_tool_calls msg then "tool_calls" else "stop";
}

-- `WriteHeader(200)`: net/http keeps a status that is already committed.
unfoldable pub first_status : Option ℕ → ℕ
first_status none = 200
first_status (some status) = status

-- `writeSSEResponse`.
unfoldable pub write_sse_response :
    Sink → Writer → String → String → AssistantMessage → Writer × Option RunError
unfolding sse_chunk first_status
write_sse_response sink w step_name served_model msg =
    let headed = record w {
      content_type = "text/event-stream";
      served_by_header = step_name;
      status = some (first_status w.status);
    } in
    let line = chunk_line (sse_chunk step_name served_model msg) in
    if sink.marshals
    then (if sink.writes_first
        then (if sink.writes_second
            then (record headed { body = append_list w.body (line ∷ done_line ∷ []) }, none)
            else (record headed { body = append_list w.body (line ∷ []) }, some sse_partial_write))
        else (headed, some sse_partial_write))
    else (headed, some marshal_failed)

-- The fields that `Run` and `RunBuffered` set before a step's call, and after it failed retryably.
unfoldable pub attempted : List CascadeStep → CascadeResult → CascadeResult
unfolding join_step_names
attempted steps res = record res {
  attempts = length steps;
  route_attempted = join_step_names steps;
}

unfoldable pub fell_back : Try → StepError → CascadeResult → CascadeResult
unfolding cascade_fallback_reason
fell_back t e res = record res {
  fallback_reason = cascade_fallback_reason (some e);
  fallback_latency = t.elapsed;
  fallback_route = t.step.name;
}

unfoldable pub note_local : Try → CascadeResult → CascadeResult
note_local t res = record res {
  local_step_failed = if str_eq t.step.name "local" then true else res.local_step_failed;
}

-- The end of a runner after its loop.
unfoldable pub last_error : Option StepError → List CascadeStep → RunError
last_error none tried = not_attempted
last_error (some e) tried = all_failed (length tried) e

-- The loop of `Run`: the steps that were tried, the result and the last error so far.
unfoldable pub run_from :
    Codec
    → Sink
    → List CascadeStep
    → CascadeResult
    → Option StepError
    → Writer
    → List Try
    → RunOutcome
unfolding write_sse_response attempted fell_back note_local last_error
run_from codec sink tried res last w [] = record {
  result = record res { fallback_reason = cascade_fallback_reason last };
  writer = w;
  error = some (last_error last tried);
}
run_from codec sink tried res last w (t ∷ ts) =
    let tried' = append_list tried (t.step ∷ []) in
    let res' = attempted tried' res in
    elim (do_fetch_cascade_step codec t.step t.exchange) [
      | fetched msg model body ↦
          let (w', err) = write_sse_response sink w t.step.name model msg in
          record {
            result = record res' {
              succeeded = true;
              served_by = t.step.name;
              tool_calls = msg.tool_calls;
            };
            writer = w';
            error = err;
          }
      | failed e ↦ elim (classify_failure e) [
        | true ↦ run_from codec sink tried' (fell_back t e (note_local t res')) (some e) w ts
        | false ↦ record { result = res'; writer = w; error = some (step_failed e) }
      ]
    ]

-- `Run`.
unfoldable pub run : Codec → Sink → Writer → List Try → RunOutcome
unfolding run_from empty_result
run codec sink w [] = record { result = empty_result; writer = w; error = some no_steps }
run codec sink w (t ∷ ts) = run_from codec sink [] empty_result none w (t ∷ ts)

-- The loop of `RunBuffered`. A step that fails for good, and the end of the steps, commit a 200, if no status is
-- committed yet.
unfoldable pub commit : Writer → String → Writer
unfolding first_status
commit w name = record w { served_by_header = name; status = some (first_status w.status) }

unfoldable pub last_name : List CascadeStep → String
last_name [] = ""
last_name (s ∷ []) = s.name
last_name (s ∷ t ∷ ss) = last_name (t ∷ ss)

unfoldable pub run_buffered_from :
    Codec
    → Sink
    → List CascadeStep
    → CascadeResult
    → Option StepError
    → Writer
    → List Try
    → RunOutcome
unfolding attempted fell_back last_error commit last_name
run_buffered_from codec sink tried res last w [] = record {
  result = record res {
    fallback_reason = cascade_fallback_reason last;
    served_by = last_name tried;
  };
  writer = commit w (last_name tried);
  error = some (last_error last tried);
}
run_buffered_from codec sink tried res last w (t ∷ ts) =
    let tried' = append_list tried (t.step ∷ []) in
    let res' = attempted tried' res in
    elim (do_fetch_cascade_step codec t.step t.exchange) [
      | fetched msg model body ↦
          let w' = record (commit w t.step.name) { content_type = "application/json" } in
          let res'' = record res' { succeeded = true; served_by = t.step.name } in
          elim sink.writes_first [
            | true ↦ record {
              result = res'';
              writer = record w' { body = append_list w.body (raw_line body ∷ []) };
              error = none;
            }
            | false ↦ record { result = res''; writer = w'; error = some write_failed }
          ]
      | failed e ↦ elim (classify_failure e) [
        | true ↦ run_buffered_from codec sink tried' (fell_back t e res') (some e) w ts
        | false ↦ record {
          result = record res' { served_by = t.step.name };
          writer = commit w t.step.name;
          error = some (step_failed e);
        }
      ]
    ]

-- `RunBuffered`.
unfoldable pub run_buffered : Codec → Sink → Writer → List Try → RunOutcome
unfolding run_buffered_from empty_result
run_buffered codec sink w [] = record { result = empty_result; writer = w; error = some no_steps }
run_buffered codec sink w (t ∷ ts) = run_buffered_from codec sink [] empty_result none w (t ∷ ts)
