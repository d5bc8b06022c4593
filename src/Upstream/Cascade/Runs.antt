-- ===== src/Upstream/Cascade/Runs.antt =====
-- internal/upstream/cascade.go: `Run`, for each way in which a list of steps can end.
use mathlib.Core.List.{append_assoc, append-nil}
use text.Mathlib.Text.{◌==◌ as str_eq}
use nexus_proxy.Shared.{
  ◌≡◌, refl, String, Bool, true, false, ◌||◌, List, [], ◌∷◌, ◌++◌, Option, none, some, length,
  arith, ◌∙◌, if◌then◌else◌,
}
use nexus_proxy.Upstream.Retry.{StepError, classify_failure, cascade_fallback_reason}
use nexus_proxy.Upstream.Fetch.{CascadeStep, AssistantMessage, Codec, fetched, failed}
use nexus_proxy.Upstream.Cascade.{
  Try, CascadeResult, Writer, Sink, RunOutcome, step_failed, join_step_names, write_sse_response,
  attempted, fell_back, note_local, empty_result, last_error, run_from, run,
}
use nexus_proxy.Upstream.Cascade.Verdict.{
  answer, failure_of, retries, AllRetry, any_local, steps_of, retries_failed,
}

local_first :
    (here later before : Bool)
    → (later || (if here then true else before)) ≡ ((here || later) || before)
local_first here later before = ground arith

-- The result so far, after one more step was retried.
abbrev retried : List CascadeStep → CascadeResult → Try → StepError → CascadeResult
retried tried res t e = fell_back t e (note_local t (attempted (tried ++ t.step ∷ []) res))

module _ (codec : Codec) (sink : Sink) (w : Writer) where
  run_from-retry :
      (tried : List CascadeStep) (res : CascadeResult) (last : Option StepError) (t : Try)
      (ts : List Try)
      → retries codec t ≡ true
      → (e : StepError) × (answer codec t ≡ failed e)
        × (run_from codec sink tried res last w (t ∷ ts)
            ≡ run_from codec sink
                (tried ++ t.step ∷ [])
                (fell_back t e (note_local t (attempted (tried ++ t.step ∷ []) res)))
                (some e)
                w
                ts)
  unfolding run_from
  run_from-retry tried res last t ts h =
      let (e, is_failed, retry) = retries_failed (answer codec t) h in
      (e, is_failed, rw (is_failed, run_from) (rw (retry, run_from)))

  -- What `Run` returns and writes when a step answers behind the steps `pre` that were retried.
  abbrev pub Served :
      List CascadeStep → Bool → List Try → Try → AssistantMessage → String → RunOutcome → Type 0
  Served tried local_failed pre t msg model o =
      (o.result.succeeded ≡ true)
      × (o.result.served_by ≡ t.step.name)
      × (o.result.tool_calls ≡ msg.tool_calls)
      × (o.result.attempts ≡ length (tried ++ (steps_of pre ++ t.step ∷ [])))
      × (o.result.route_attempted ≡ join_step_names (tried ++ (steps_of pre ++ t.step ∷ [])))
      × (o.result.local_step_failed ≡ (any_local pre || local_failed))
      × (o.writer ≡ (write_sse_response sink w t.step.name model msg).0)
      × (o.error ≡ (write_sse_response sink w t.step.name model msg).1)

  run_from_serves :
      (tried : List CascadeStep) (res : CascadeResult) (last : Option StepError) (pre : List Try)
      (t : Try) (post : List Try) (msg : AssistantMessage) (model body : String)
      → AllRetry codec pre
      → answer codec t ≡ fetched msg model body
      → Served tried res.local_step_failed pre t msg model
          (run_from codec sink tried res last w (pre ++ t ∷ post))
  unfolding run_from
  run_from_serves tried res last [] t post msg model body r a =
      rw (a, run_from) (refl, refl, refl, refl, refl, refl, refl, refl)
  run_from_serves tried res last (u ∷ pre) t post msg model body r a =
      let (e, _, next) = run_from-retry tried res last u (pre ++ t ∷ post) r.0 in
      let ih =
        run_from_serves (tried ++ u.step ∷ []) (retried tried res u e) (some e) pre t post msg model
          body r.1 a in
      let (ok, name, calls, count, route, loc, writer, err) = ih in
      rw next (
        ok,
        name,
        calls,
        rw append_assoc at count,
        rw append_assoc at route,
        loc ∙ local_first (str_eq u.step.name "local") (any_local pre) res.local_step_failed,
        writer,
        err,
      )

  -- What `Run` returns when a step fails for good behind the steps `pre` that were retried.
  abbrev pub Stopped : List CascadeStep → Bool → List Try → Try → StepError → RunOutcome → Type 0
  Stopped tried local_failed pre t e o =
      (o.result.attempts ≡ length (tried ++ (steps_of pre ++ t.step ∷ [])))
      × (o.result.local_step_failed ≡ (any_local pre || local_failed))
      × (o.writer ≡ w)
      × (o.error ≡ some (step_failed e))

  run_from_stops :
      (tried : List CascadeStep) (res : CascadeResult) (last : Option StepError) (pre : List Try)
      (t : Try) (post : List Try) (e : StepError)
      → AllRetry codec pre
      → answer codec t ≡ failed e
      → classify_failure e ≡ false
      → Stopped tried res.local_step_failed pre t e
          (run_from codec sink tried res last w (pre ++ t ∷ post))
  unfolding run_from
  run_from_stops tried res last [] t post e r a n =
      rw (a, run_from) (rw (n, run_from) (refl, refl, refl, refl))
  run_from_stops tried res last (u ∷ pre) t post x r a n =
      let (e, _, next) = run_from-retry tried res last u (pre ++ t ∷ post) r.0 in
      let ih =
        run_from_stops (tried ++ u.step ∷ []) (retried tried res u e) (some e) pre t post x r.1 a
          n in
      let (count, loc, writer, err) = ih in
      rw next (
        rw append_assoc at count,
        loc ∙ local_first (str_eq u.step.name "local") (any_local pre) res.local_step_failed,
        writer,
        err,
      )

  -- The error of the last of a list of steps, all of which failed.
  abbrev pub last_failure : Option StepError → List Try → Option StepError
  last_failure last [] = last
  last_failure last (t ∷ ts) = last_failure (failure_of (answer codec t)) ts

  -- What `Run` returns when every step was retried.
  abbrev pub Exhausted : List CascadeStep → Bool → Option StepError → List Try → RunOutcome → Type 0
  Exhausted tried local_failed last ts o =
      (o.result.attempts ≡ length (tried ++ steps_of ts))
      × (o.result.local_step_failed ≡ (any_local ts || local_failed))
      × (o.result.fallback_reason ≡ cascade_fallback_reason (last_failure last ts))
      × (o.writer ≡ w)
      × (o.error ≡ some (last_error (last_failure last ts) (tried ++ steps_of ts)))

  run_from_exhausts :
      (tried : List CascadeStep) (res : CascadeResult) (last : Option StepError) (ts : List Try)
      → AllRetry codec ts
      → res.attempts ≡ length tried
      → Exhausted tried res.local_step_failed last ts (run_from codec sink tried res last w ts)
  unfolding run_from
  run_from_exhausts tried res last [] r c = rw append-nil (c, refl, refl, refl, refl)
  run_from_exhausts tried res last (u ∷ ts) r c =
      let (e, is_failed, next) = run_from-retry tried res last u ts r.0 in
      let ih =
        run_from_exhausts (tried ++ u.step ∷ []) (retried tried res u e) (some e) ts r.1 refl in
      let (count, loc, reason, writer, err) = ih in
      rw next (
        rw append_assoc at count,
        loc ∙ local_first (str_eq u.step.name "local") (any_local ts) res.local_step_failed,
        rw is_failed reason,
        writer,
        rw is_failed (rw append_assoc at err),
      )

  -- When the steps up to `t` fail retryably and `t` answers, `Run` succeeds with the answer of `t`: it
  -- counts and names exactly the steps up to `t`, says whether a step named "local" is among those that
  -- failed, and writes the one response of `t`, whatever the steps behind it would have answered.
  pub run_serves :
      (pre : List Try) (t : Try) (post : List Try) (msg : AssistantMessage) (model body : String)
      → AllRetry codec pre
      → answer codec t ≡ fetched msg model body
      → Served [] false pre t msg model (run codec sink w (pre ++ t ∷ post))
  unfolding run
  run_serves [] t post = run_from_serves [] empty_result none [] t post
  run_serves (u ∷ pre) t post = run_from_serves [] empty_result none (u ∷ pre) t post

  -- When the steps up to `t` fail retryably and `t` fails for good, `Run` returns the error of `t` and
  -- writes nothing: no later step is tried.
  pub run_stops :
      (pre : List Try) (t : Try) (post : List Try) (e : StepError)
      → AllRetry codec pre
      → answer codec t ≡ failed e
      → classify_failure e ≡ false
      → Stopped [] false pre t e (run codec sink w (pre ++ t ∷ post))
  unfolding run
  run_stops [] t post = run_from_stops [] empty_result none [] t post
  run_stops (u ∷ pre) t post = run_from_stops [] empty_result none (u ∷ pre) t post

  -- When every step of a cascade that has one fails retryably, `Run` tries them all, returns the last
  -- failure and its label, and writes nothing.
  pub run_exhausts :
      (t : Try) (ts : List Try)
      → AllRetry codec (t ∷ ts)
      → Exhausted [] false none (t ∷ ts) (run codec sink w (t ∷ ts))
  unfolding run
  run_exhausts t ts r = run_from_exhausts [] empty_result none (t ∷ ts) r refl
