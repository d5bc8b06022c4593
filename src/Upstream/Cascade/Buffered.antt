-- ===== src/Upstream/Cascade/Buffered.antt =====
-- internal/upstream/cascade.go: `RunBuffered` beside `Run`.
use nexus_proxy.Shared.{◌≡◌, refl, List, [], ◌∷◌, ◌++◌, Option, none, some, inl, inr, Bool-cases}
use nexus_proxy.Upstream.Retry.{StepError, classify_failure}
use nexus_proxy.Upstream.Fetch.{CascadeStep, Codec, Fetched, fetched, failed}
use nexus_proxy.Upstream.Cascade.{
  Try, CascadeResult, Writer, Sink, empty_result, run_from, run, run_buffered_from, run_buffered,
  first_status,
}
use nexus_proxy.Upstream.Cascade.Verdict.{answer}

-- What the two runners report alike.
abbrev pub SameReport : CascadeResult → CascadeResult → Type 0
SameReport r s =
    (r.succeeded ≡ s.succeeded)
    × (r.fallback_reason ≡ s.fallback_reason)
    × (r.fallback_latency ≡ s.fallback_latency)
    × (r.fallback_route ≡ s.fallback_route)

abbrev pub SameAttempts : CascadeResult → CascadeResult → Type 0
SameAttempts r s = (r.attempts ≡ s.attempts) × (r.route_attempted ≡ s.route_attempted)

module _ (codec : Codec) (sink : Sink) where
  report_step :
      (f : Fetched) (t : Try) (ts : List Try) (tried : List CascadeStep) (res res' : CascadeResult)
      (last : Option StepError) (w w' : Writer)
      → answer codec t ≡ f
      → SameReport res res'
      → ((r r' : CascadeResult) (e : StepError)
          → SameReport r r'
          → SameAttempts r r'
          → let o = run_from codec sink (tried ++ t.step ∷ []) r (some e) w ts in
            let o' = run_buffered_from codec sink (tried ++ t.step ∷ []) r' (some e) w' ts in
            SameReport o.result o'.result × SameAttempts o.result o'.result)
      → let o = run_from codec sink tried res last w (t ∷ ts) in
        let o' = run_buffered_from codec sink tried res' last w' (t ∷ ts) in
        SameReport o.result o'.result × SameAttempts o.result o'.result
  unfolding run_from run_buffered_from
  report_step (fetched msg model body) t ts tried res res' last w w' a same ih =
      elim (Bool-cases sink.writes_first) [
        | inl k ↦
            rw (a, run_from, run_buffered_from)
              (rw (k, run_buffered_from) ((refl, same.1, same.2, same.3), (refl, refl)))
        | inr k ↦
            rw (a, run_from, run_buffered_from)
              (rw (k, run_buffered_from) ((refl, same.1, same.2, same.3), (refl, refl)))
      ]
  report_step (failed e) t ts tried res res' last w w' a same ih =
      elim (Bool-cases (classify_failure e)) [
        | inl k ↦
            rw (a, run_from, run_buffered_from)
              (rw (k, run_from, run_buffered_from)
                (ih _ _ e (same.0, refl, refl, refl) (refl, refl)))
        | inr k ↦
            rw (a, run_from, run_buffered_from)
              (rw (k, run_from, run_buffered_from) (same, (refl, refl)))
      ]

  report_from :
      (ts : List Try) (tried : List CascadeStep) (res res' : CascadeResult)
      (last : Option StepError) (w w' : Writer)
      → SameReport res res'
      → SameAttempts res res'
      → let o = run_from codec sink tried res last w ts in
        let o' = run_buffered_from codec sink tried res' last w' ts in
        SameReport o.result o'.result × SameAttempts o.result o'.result
  unfolding run_from run_buffered_from
  report_from [] tried res res' last w w' same attempts = ((same.0, refl, same.2, same.3), attempts)
  report_from (t ∷ ts) tried res res' last w w' same attempts =
      report_step (answer codec t) t ts tried res res' last w w' refl same
        λ r r' e s n. report_from ts (tried ++ t.step ∷ []) r r' (some e) w w' s n

  -- On the same steps `Run` and `RunBuffered` agree on whether a step served, on how many and which steps
  -- were attempted, and on the label, the latency and the step of the last fallback.
  pub run-run_buffered :
      (w w' : Writer) (ts : List Try)
      → let o = run codec sink w ts in
        let o' = run_buffered codec sink w' ts in
        SameReport o.result o'.result × SameAttempts o.result o'.result
  unfolding run run_buffered
  run-run_buffered w w' [] = ((refl, refl, refl, refl), (refl, refl))
  run-run_buffered w w' (t ∷ ts) =
      report_from (t ∷ ts) [] empty_result empty_result none w w' (refl, refl, refl, refl)
        (refl, refl)

  status_step :
      (f : Fetched) (t : Try) (ts : List Try) (tried : List CascadeStep) (res : CascadeResult)
      (last : Option StepError) (w : Writer)
      → answer codec t ≡ f
      → ((r : CascadeResult) (e : StepError)
          → (run_buffered_from codec sink (tried ++ t.step ∷ []) r (some e) w ts).writer.status
            ≡ some (first_status w.status))
      → (run_buffered_from codec sink tried res last w (t ∷ ts)).writer.status
        ≡ some (first_status w.status)
  unfolding run_buffered_from
  status_step (fetched msg model body) t ts tried res last w a ih =
      elim (Bool-cases sink.writes_first) [
        | inl k ↦ rw (a, run_buffered_from) (rw (k, run_buffered_from))
        | inr k ↦ rw (a, run_buffered_from) (rw (k, run_buffered_from))
      ]
  status_step (failed e) t ts tried res last w a ih = elim (Bool-cases (classify_failure e)) [
    | inl k ↦ rw (a, run_buffered_from) (rw (k, run_buffered_from) (ih _ e))
    | inr k ↦ rw (a, run_buffered_from) (rw (k, run_buffered_from))
  ]

  status_from :
      (ts : List Try) (tried : List CascadeStep) (res : CascadeResult) (last : Option StepError)
      (w : Writer)
      → (run_buffered_from codec sink tried res last w ts).writer.status
        ≡ some (first_status w.status)
  unfolding run_buffered_from
  status_from [] tried res last w = refl
  status_from (t ∷ ts) tried res last w =
      status_step (answer codec t) t ts tried res last w refl
        λ r e. status_from ts (tried ++ t.step ∷ []) r (some e) w

  -- `RunBuffered` over at least one step commits the status 200, or keeps the one that was committed before it, on
  -- every path, also when it returns the error of a step that failed for good or of a cascade that is exhausted.
  pub run_buffered_status :
      (w : Writer) (t : Try) (ts : List Try)
      → (run_buffered codec sink w (t ∷ ts)).writer.status ≡ some (first_status w.status)
  unfolding run_buffered
  run_buffered_status w t ts = status_from (t ∷ ts) [] empty_result none w
