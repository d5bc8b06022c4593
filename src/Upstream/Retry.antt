-- ===== src/Upstream/Retry.antt =====
-- internal/upstream/cascade.go: which failures lead to the next step, and under which label.
use text.Mathlib.Text.{◌==◌ as str_eq}
use nexus_proxy.Shared.{ℕ, String, Bool, true, ◌||◌, Option, none, some, ◌==◌, if◌then◌else◌}

-- `cascadeErr`; of the formatted message only the fixed text is kept.
pub record CascadeErr : Type 0 where
  pub retry : Bool
  pub reason : String
  pub msg : String

-- An error of a step: a `cascadeErr`, or one that carries no tag.
pub data StepError : Type 0 where
  tagged : CascadeErr → StepError
  untagged : String → StepError

unfoldable pub new_cascade_err : Bool → String → String → StepError
new_cascade_err retry reason msg = tagged (record { retry = retry; reason = reason; msg = msg })

-- `ShouldRetry`; the flag says that an error is given, and then the status is not looked at.
unfoldable pub should_retry : ℕ → Bool → Bool
should_retry status_code err =
    err
    || (status_code == 408
        || (status_code == 429
            || (status_code == 500
                || (status_code == 502 || (status_code == 503 || status_code == 504)))))

unfoldable pub classify_failure : StepError → Bool
classify_failure (tagged e) = e.retry
classify_failure (untagged m) = true

-- `CascadeFallbackReason`; `none` is the nil error.
unfoldable pub cascade_fallback_reason : Option StepError → String
cascade_fallback_reason none = "unknown"
cascade_fallback_reason (some (tagged e)) =
    if str_eq e.reason ""
    then "unknown"
    else (if str_eq e.reason "model_unavailable" then "model_unavailable" else e.reason)
cascade_fallback_reason (some (untagged m)) = "unknown"
