-- ===== src/Upstream/Fetch/Outcomes.antt =====
-- internal/upstream/cascade.go: which exchanges end in a message, which in another try, which for good.
use text.Mathlib.Text.{◌==◌ as str_eq}
use nexus_proxy.Shared.{
  ℕ, ◌≡◌, refl, ◌∙◌, String, Bool, true, false, ◌&&◌, ◌||◌, List, [], ◌∷◌, Option, none, some, ◌==◌,
  arith, inl, inr, ◌⊎◌, Bool-cases,
}
use nexus_proxy.Upstream.Retry.{classify_failure, should_retry}
use nexus_proxy.Upstream.Fetch.{
  CascadeStep, ToolCall, AssistantMessage, AssistantResponse, Codec, replied, Fetched, fetched,
  failed, read_reply, do_fetch_cascade_step,
}

-- A tool call with its three names, and with arguments that are absent or JSON.
abbrev pub ValidCall : Codec → ToolCall → Type 0
ValidCall codec tc =
    (str_eq tc.id "" ≡ false)
    × (str_eq tc.kind "" ≡ false)
    × (str_eq tc.function_name "" ≡ false)
    × ((str_eq tc.arguments "" ≡ true) ⊎ (codec.is_json tc.arguments ≡ true))

abbrev pub ValidCalls : Codec → List ToolCall → Type 0
ValidCalls codec [] = Unit {0}
ValidCalls codec (tc ∷ tcs) = ValidCall codec tc × ValidCalls codec tcs

-- What a message that is handed on was read from.
abbrev pub ReadFrom : Codec → AssistantMessage → String → String → Type 0
ReadFrom codec msg model body =
    (raw : AssistantResponse) × (rest : List AssistantMessage) × (codec.decode body ≡ some raw)
    × (raw.choices ≡ msg ∷ rest)
    × (raw.model ≡ model)
    × ValidCalls codec msg.tool_calls

unfoldable pub retried_status : ℕ → Bool
retried_status s = s == 408 || s == 429 || s == 500 || s == 502 || s == 503 || s == 504

status-should : (s : ℕ) → retried_status s ≡ should_retry s false
unfolding should_retry retried_status
status-should s = ground arith

status-429 : (s : ℕ) → (s == 429) ≡ true → retried_status s ≡ true
unfolding retried_status
status-429 s h = ground arith

-- The call failed, and whether that leads to the next step.
abbrev pub Fails : Fetched → Bool → Type 0
Fails (fetched msg model body) b = ⊥
Fails (failed e) b = classify_failure e ≡ b

read_reply_status :
    (codec : Codec) (step : CascadeStep) (status : ℕ) (body : String)
    → (status == 200) ≡ false
    → Fails
        (read_reply codec step status body)
        (retried_status status || (status == 404 && str_eq step.name "local"))
unfolding read_reply classify_failure
read_reply_status codec step status body h = elim (Bool-cases (status == 429)) [
  | inl a ↦ rw (a, read_reply) (rw (status-429 status a))
  | inr a ↦ elim (Bool-cases (should_retry status false)) [
    | inl b ↦ rw (a, read_reply) (rw (b, read_reply) (rw (status-should status ∙ b)))
    | inr b ↦ elim (Bool-cases (status == 404 && str_eq step.name "local")) [
      | inl c ↦
          rw (a, read_reply)
            (rw (b, read_reply) (rw (c, read_reply) (rw (status-should status ∙ b) refl)))
      | inr c ↦
          rw (a, read_reply)
            (rw (b, read_reply)
              (rw (c, read_reply) (rw (h, read_reply) (rw (status-should status ∙ b) refl))))
    ]
  ]
]

-- Whether the body of an answer could not be read.
unfoldable pub unread : Option String → Bool
unread none = true
unread (some body) = false

-- An answer with a status other than 200 always fails. It leads to the next step if its body cannot be read,
-- whatever the status, and otherwise exactly for 408, 429, 500, 502, 503 and 504, and for a 404 of the step
-- named "local"; with a readable body any other status, a 501 or a 505 among them, ends the cascade.
pub do_fetch_cascade_step_status :
    (codec : Codec) (step : CascadeStep) (status : ℕ) (retry_after : String) (body : Option String)
    → (status == 200) ≡ false
    → Fails
        (do_fetch_cascade_step codec step (replied status retry_after body))
        (unread body || (retried_status status || (status == 404 && str_eq step.name "local")))
unfolding do_fetch_cascade_step unread classify_failure
do_fetch_cascade_step_status codec step status retry_after none h = refl
do_fetch_cascade_step_status codec step status retry_after (some body) h =
    read_reply_status codec step status body h
