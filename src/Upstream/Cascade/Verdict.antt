-- ===== src/Upstream/Cascade/Verdict.antt =====
-- internal/upstream/cascade.go: what one step tells a runner, apart from how the runners loop.
use text.Mathlib.Text.{◌==◌ as str_eq}
use nexus_proxy.Shared.{
  ◌≡◌, refl, ap, String, Bool, true, false, ◌||◌, List, [], ◌∷◌, ◌++◌, map, Option, none, some, inl,
  inr, ◌⊎◌, Bool-cases,
}
use nexus_proxy.Upstream.Retry.{StepError, classify_failure}
use nexus_proxy.Upstream.Fetch.{
  CascadeStep, AssistantMessage, Codec, Fetched, fetched, failed, do_fetch_cascade_step,
}
use nexus_proxy.Upstream.Cascade.{Try}

abbrev pub answer : Codec → Try → Fetched
answer codec t = do_fetch_cascade_step codec t.step t.exchange

abbrev pub retries_of : Fetched → Bool
retries_of (fetched msg model body) = false
retries_of (failed e) = classify_failure e

abbrev pub failure_of : Fetched → Option StepError
failure_of (fetched msg model body) = none
failure_of (failed e) = some e

-- The step fails, and its failure leads to the next step.
abbrev pub retries : Codec → Try → Bool
retries codec t = retries_of (answer codec t)

abbrev pub AllRetry : Codec → List Try → Type 0
AllRetry codec [] = Unit {0}
AllRetry codec (t ∷ ts) = (retries codec t ≡ true) × AllRetry codec ts

abbrev pub any_local : List Try → Bool
any_local [] = false
any_local (t ∷ ts) = str_eq t.step.name "local" || any_local ts

abbrev pub steps_of : List Try → List CascadeStep
steps_of = map λ (t : Try). t.step

pub retries_failed :
    (r : Fetched)
    → retries_of r ≡ true
    → (e : StepError) × (r ≡ failed e) × (classify_failure e ≡ true)
retries_failed (fetched msg model body) h = cc
retries_failed (failed e) h = (e, refl, h)

-- How a list of steps ends: in a step that answers, in a step that fails for good, or with all retried.
pub data Ending (codec : Codec) (ts : List Try) : Type 0 where
  answers :
      (pre : List Try) (t : Try) (post : List Try) (msg : AssistantMessage) (model body : String)
      → AllRetry codec pre
      → answer codec t ≡ fetched msg model body
      → ts ≡ pre ++ t ∷ post
      → Ending codec ts
  stops :
      (pre : List Try) (t : Try) (post : List Try) (e : StepError)
      → AllRetry codec pre
      → answer codec t ≡ failed e
      → classify_failure e ≡ false
      → ts ≡ pre ++ t ∷ post
      → Ending codec ts
  exhausts : AllRetry codec ts → Ending codec ts

Ending-cons :
    (codec : Codec) (t : Try) (ts : List Try)
    → retries codec t ≡ true
    → Ending codec ts
    → Ending codec (t ∷ ts)
Ending-cons codec t ts h (answers pre u post msg model body r a e) =
    answers (t ∷ pre) u post msg model body (h, r) a (ap (◌∷◌ t) e)
Ending-cons codec t ts h (stops pre u post x r a n e) =
    stops (t ∷ pre) u post x (h, r) a n (ap (◌∷◌ t) e)
Ending-cons codec t ts h (exhausts r) = exhausts (h, r)

Ending-head :
    (codec : Codec) (t : Try) (ts : List Try) (r : Fetched)
    → answer codec t ≡ r
    → (retries codec t ≡ true) ⊎ Ending codec (t ∷ ts)
Ending-head codec t ts (fetched msg model body) e = inr (answers [] t ts msg model body tt e refl)
Ending-head codec t ts (failed x) e = elim (Bool-cases (classify_failure x)) [
  | inl retry ↦ inl (rw e retry)
  | inr stop ↦ inr (stops [] t ts x tt e stop refl)
]

-- Every list of steps ends in one of the three ways.
pub ending : (codec : Codec) (ts : List Try) → Ending codec ts
ending codec [] = exhausts tt
ending codec (t ∷ ts) = elim (Ending-head codec t ts (answer codec t) refl) [
  | inl retry ↦ Ending-cons codec t ts retry (ending codec ts)
  | inr done ↦ done
]
