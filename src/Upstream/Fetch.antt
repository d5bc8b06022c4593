-- ===== src/Upstream/Fetch.antt =====
-- internal/upstream/cascade.go: one call of one endpoint. The HTTP exchange is given; its JSON is read by
-- parameters that stand for encoding/json.
pub mod Outcomes
use text.Mathlib.Text.{◌==◌ as str_eq}
use nexus_proxy.Shared.{
  ℕ, ◌*◌, ◌%◌, ◌^◌, ◌≡◌, refl, String, Bool, true, false, ◌&&◌, ◌||◌, not, List, [], ◌∷◌, Option,
  none, some, ◌==◌, ltb, leb, if◌then◌else◌,
}
use nexus_proxy.Shared.Int.{wrap_int64, ℤ, pos, negsuc, sub_ℕ, nonpos, ltb_ℤ, ◌-ℤ◌}
use nexus_proxy.Upstream.Retry.{StepError, new_cascade_err, should_retry}

-- `AuthHeaders` and `URL` go into the request only; the answer is given.
pub record CascadeStep : Type 0 where
  pub name : String
  pub url : String
  pub api_key : String
  pub model : String

pub record ToolCall : Type 0 where
  pub id : String
  pub kind : String  -- Type
  pub function_name : String
  pub arguments : String

pub record AssistantMessage : Type 0 where
  pub content : String
  pub tool_calls : List ToolCall

-- `assistantResponse`, with the messages of its choices.
pub record AssistantResponse : Type 0 where
  pub model : String
  pub choices : List AssistantMessage

-- What the libraries compute: decoding and validity of JSON, and the reading of texts and dates.
pub record Codec : Type 0 where
  pub decode : String → Option AssistantResponse
  pub is_json : String → Bool
  pub trim_space : String → String
  pub atoi : String → Option ℤ
  -- time.Parse by the layout's index, as nanoseconds since the epoch.
  pub parse_date : ℕ → String → Option ℤ

-- The outcome of `client.Do`: the request could not be built, or was refused by the transport (with a
-- deadline exceeded or not), or was answered. A body that cannot be read is `none`.
pub data Exchange : Type 0 where
  not_built : Exchange
  refused : Bool → Exchange
  replied : (status : ℕ) (retry_after : String) (body : Option String) → Exchange

pub data Fetched : Type 0 where
  fetched : AssistantMessage → (model body : String) → Fetched
  failed : StepError → Fetched

unfoldable pub has_tool_calls : AssistantMessage → Bool
has_tool_calls m = elim m.tool_calls [ [] ↦ false | c ∷ cs ↦ true ]

-- The loop over the tool calls of `extractAssistantMessage`.
unfoldable pub check_tool_calls : Codec → List ToolCall → Option StepError
check_tool_calls codec [] = none
check_tool_calls codec (tc ∷ tcs) =
    if str_eq tc.id "" || (str_eq tc.kind "" || str_eq tc.function_name "")
    then some (new_cascade_err true "malformed_toolcall" "missing required fields")
    else (if not (str_eq tc.arguments "") && not (codec.is_json tc.arguments)
        then some (new_cascade_err true "malformed_toolcall" "arguments not valid JSON")
        else check_tool_calls codec tcs)

unfoldable pub extract_assistant_message : Codec → String → Fetched
unfolding check_tool_calls new_cascade_err
extract_assistant_message codec body = elim (codec.decode body) [
  | none ↦ failed (new_cascade_err true "malformed_response" "decode")
  | some raw ↦ elim raw.choices [
    | [] ↦ failed (new_cascade_err true "malformed_response" "empty choices")
    | msg ∷ rest ↦ elim (check_tool_calls codec msg.tool_calls) [
      | some e ↦ failed e
      | none ↦ fetched msg raw.model body
    ]
  ]
]

-- The three layouts of `parseRetryAfter`, in turn.
unfoldable pub parse_dates : Codec → ℤ → String → List ℕ → ℤ
parse_dates codec now value [] = pos 0
parse_dates codec now value (layout ∷ ls) =
    let rest = parse_dates codec now value ls in
    elim (codec.parse_date layout value) [
      | none ↦ rest
      | some t ↦ if ltb_ℤ t now then pos 0 else t -ℤ now
    ]

-- `parseRetryAfter`: the delay in nanoseconds.
unfoldable pub parse_retry_after : Codec → ℤ → String → ℤ
unfolding parse_dates
parse_retry_after codec now value =
    let trimmed = codec.trim_space value in
    let by_date = parse_dates codec now trimmed (0 ∷ 1 ∷ 2 ∷ []) in
    if str_eq value "" || str_eq trimmed "" then pos 0 else elim (codec.atoi trimmed) [
      | some (pos secs) ↦ if secs == 0 then pos 0 else wrap_int64 (pos (secs * 1000000000))
      | some (negsuc n) ↦ by_date
      | none ↦ by_date
    ]

-- What `doFetchCascadeStep` makes of an answer with a readable body.
unfoldable pub read_reply : Codec → CascadeStep → ℕ → String → Fetched
unfolding new_cascade_err
read_reply codec step status body =
    if status == 429
    then failed (new_cascade_err true "rate_limited" "status")
    else (if should_retry status false
        then failed (new_cascade_err true "http_error" "status")
        else (if status == 404 && str_eq step.name "local"
            then failed (new_cascade_err true "model_unavailable" "local model not found (404)")
            else (if not (status == 200)
                then failed (new_cascade_err false "" "status")
                else extract_assistant_message codec body)))

-- `doFetchCascadeStep`.
unfoldable pub do_fetch_cascade_step : Codec → CascadeStep → Exchange → Fetched
unfolding read_reply new_cascade_err
do_fetch_cascade_step codec step not_built = failed (new_cascade_err false "" "build request")
do_fetch_cascade_step codec step (refused deadline_exceeded) =
    failed (
      new_cascade_err true (if deadline_exceeded then "timeout" else "transport_error") "transport")
do_fetch_cascade_step codec step (replied status retry_after none) =
    failed (new_cascade_err true "transport_error" "body read")
do_fetch_cascade_step codec step (replied status retry_after (some body)) =
    read_reply codec step status body

-- The pause before a 429 is reported: the parsed delay if it is positive.
unfoldable pub slept : Codec → ℤ → Exchange → ℤ
unfolding parse_retry_after
slept codec now (replied status retry_after (some body)) =
    let delay = parse_retry_after codec now retry_after in
    if status == 429 && not (nonpos delay) then delay else pos 0
slept codec now _ = pos 0
