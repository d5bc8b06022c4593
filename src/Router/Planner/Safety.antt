-- ===== src/Router/Planner/Safety.antt =====
-- internal/router/planner.go: what every plan keeps, whatever it is wired to.
use nexus_proxy.Shared.{
  ◌≤◌, ◌≡◌, ◌≢◌, refl, String, Bool, true, false, ◌&&◌, not, List, [], ◌∷◌, none, some, inl, inr,
  ◌⊎◌, Bool-cases, arith, if◌then◌else◌,
}
use nexus_proxy.Shared.Int.{pos_part, nonpos}
use nexus_proxy.Router.Types.{Route, DecisionSource, CacheHitKind, Decision, Floats, Env}
use nexus_proxy.Router.Dsl.{guardrail}
use nexus_proxy.Router.Planner.{
  Effect, Answer, PlanRequest, Planner, Outcome, decided, panicked, early, budget_exhausted,
  routing_text, promoted, fast_pass, cache_get, must_escalate, on_cache_hit, on_answer, ask_slm,
  plan, hit_confidence, wired, routed, failed,
}
use nexus_proxy.Router.Planner.Stages.{
  slm_calls, stores, slm_calls-stored, stores-stored, hit_confidence-calls, plan_cases,
  pattern_cases, slm_cases, ask_cases,
}

-- A statement about the decision of an outcome, if there is one.
abbrev pub Decides {ℓ} : {F : Floats} → (Decision F.F → List Effect → Type ℓ) → Outcome F → Type ℓ
Decides P (decided d es) = P d es
Decides P panicked = Unit

-- No earlier stage than the routing model has an answer.
unfoldable pub reaches_slm : (fl : Floats) → Planner fl → Env → PlanRequest → Bool
reaches_slm fl p env req =
    let text = routing_text req in
    not (wired (guardrail env req.prompt req.guardrail_budget))
    && (not (budget_exhausted fl p env req)
        && (not (wired (promoted fl p text))
            && (not (wired (fast_pass fl p env text)) && not (wired (cache_get fl p text)))))

module _ (fl : Floats) (p : Planner fl) (env : Env) (req : PlanRequest) where
  abbrev pub CallsOnce : Bool → Outcome fl → Type 0
  CallsOnce reached (decided d es) = slm_calls es ≡ (if reached then 1 else 0)
  CallsOnce reached panicked = (reached ≡ true) × (p.slm ≡ none)

  on_answer-calls :
      (c : String) (conf : fl.F) (es : List Effect) (a : Answer)
      → slm_calls es ≡ 1
      → CallsOnce true (on_answer fl p env req c conf es a)
  unfolding on_answer
  on_answer-calls c conf es (failed m) h = h
  on_answer-calls c conf es (routed r) h = ground (arith, slm_calls-stored es (routing_text req) r)

  -- A route that the hard override lets pass: no threshold or no store is set, or the route is the
  -- frontier, or the confidence is not below the threshold.
  abbrev pub Cleared : Route → fl.F → Type 0
  Cleared route confidence =
      (fl.ltb fl.zero p.confidence_threshold ≡ false)
      ⊎ ((wired p.confidence ≡ false)
          ⊎ ((route ≡ Route.frontier) ⊎ (fl.ltb confidence p.confidence_threshold ≡ false)))

  must_escalate-Cleared :
      (route : Route) (confidence : fl.F)
      → must_escalate fl p route confidence ≡ false
      → Cleared route confidence
  unfolding must_escalate
  must_escalate-Cleared route confidence h = ground arith

  -- What is kept about decisions of the routing stage and of its cache.
  abbrev pub Guarded : Decision fl.F → Type 0
  Guarded d =
      (d.source ≡ DecisionSource.slm → Cleared d.route d.confidence)
      × (d.source ≡ DecisionSource.slm_escalation → d.route ≡ Route.frontier)
      × (d.source ≡ DecisionSource.slm_error → d.route ≡ Route.frontier)
      × (d.source ≢ DecisionSource.escalation)

  on_answer-Guarded :
      (c : String) (conf : fl.F) (es : List Effect) (a : Answer)
      → Decides {F = fl} (λ d _. Guarded d) (on_answer fl p env req c conf es a)
  unfolding on_answer
  on_answer-Guarded c conf es (failed m) = ground arith
  on_answer-Guarded c conf es (routed r) = elim (Bool-cases (must_escalate fl p r conf)) [
    | inl e ↦ rw (e, on_answer) (ground arith)
    | inr e ↦
        rw (e, on_answer)
          ((λ _. must_escalate-Cleared r conf e), ground arith, ground arith, ground arith)
  ]

  on_cache_hit-Guarded :
      (c : String) (h : Route × CacheHitKind)
      → Decides {F = fl} (λ d _. Guarded d) (on_cache_hit fl p env req c h)
  unfolding on_cache_hit
  on_cache_hit-Guarded c h = elim (Bool-cases (must_escalate fl p h.0 (hit_confidence fl p c).0)) [
    | inl e ↦ rw (e, on_cache_hit) (ground arith)
    | inr e ↦
        rw (e, on_cache_hit)
          (
            (λ _. must_escalate-Cleared h.0 (hit_confidence fl p c).0 e),
            ground arith,
            ground arith,
            ground arith,
          )
  ]

  -- A decision that the routing model or its cache made never sends a request to the local model or the
  -- fusion panel on a confidence below the threshold (when a threshold and a confidence store are set);
  -- a failed call and an overridden answer go to the frontier; and no plan has the source `escalation`.
  pub plan-Guarded : Decides {F = fl} (λ d _. Guarded d) (plan fl p env req)
  unfolding early
  plan-Guarded =
      plan_cases fl p env req (Decides (λ d _. Guarded d)) (λ r e. ground arith)
        (λ e b. ground arith)
        λ e b.
          pattern_cases fl p env req (Decides (λ d _. Guarded d)) (λ m _ h. ground arith)
            (λ m n h. ground arith)
            λ n f.
              slm_cases fl p env req (Decides (λ d _. Guarded d))
                (λ h c _. on_cache_hit-Guarded c h)
                λ c _.
                  ask_cases fl p env req (Decides (λ d _. Guarded d)) c (λ _. tt)
                    λ conf es a _ _. on_answer-Guarded c conf es a

  -- What a plan leaves in the cache of routing decisions.
  abbrev pub StoresOwn : Decision fl.F → List Effect → Type 0
  StoresOwn d es =
      (stores es ≡ [])
      ⊎ ((stores es ≡ (routing_text req, d.route) ∷ [])
          × (d.source ≡ DecisionSource.slm)
          × (d.cache_hit ≡ false)
          × (must_escalate fl p d.route d.confidence ≡ false))

  on_answer-StoresOwn :
      (c : String) (conf : fl.F) (es : List Effect) (a : Answer)
      → stores es ≡ []
      → Decides {F = fl} StoresOwn (on_answer fl p env req c conf es a)
  unfolding on_answer
  on_answer-StoresOwn c conf es (failed m) h = inl h
  on_answer-StoresOwn c conf es (routed r) h = elim (Bool-cases (must_escalate fl p r conf)) [
    | inl e ↦ rw (e, on_answer) (inl h)
    | inr e ↦ elim (Bool-cases (wired p.slm_cache)) [
      | inl w ↦
          rw (e, on_answer)
            (rw (w, on_answer) (inr (stores-stored es (routing_text req) r h, refl, refl, e)))
      | inr w ↦ rw (e, on_answer) (rw (w, on_answer) (inl h))
    ]
  ]

  on_cache_hit-StoresOwn :
      (c : String) (h : Route × CacheHitKind)
      → Decides {F = fl} StoresOwn (on_cache_hit fl p env req c h)
  unfolding on_cache_hit
  on_cache_hit-StoresOwn c h =
      let none_stored = (hit_confidence-calls fl p env req c).1 in
      elim (Bool-cases (must_escalate fl p h.0 (hit_confidence fl p c).0)) [
        | inl e ↦ rw (e, on_cache_hit) (inl none_stored)
        | inr e ↦ rw (e, on_cache_hit) (inl none_stored)
      ]

  -- A plan stores at most one entry in the routing cache: its own route under the text that it routed,
  -- and only if the routing model gave that route in this plan and it was not overridden.
  pub plan-StoresOwn : Decides {F = fl} StoresOwn (plan fl p env req)
  plan-StoresOwn =
      plan_cases fl p env req (Decides StoresOwn) (λ r e. inl refl) (λ e b. inl refl)
        λ e b.
          pattern_cases fl p env req (Decides StoresOwn) (λ m _ h. inl refl) (λ m n h. inl refl)
            λ n f.
              slm_cases fl p env req (Decides StoresOwn) (λ h c _. on_cache_hit-StoresOwn c h)
                λ c _.
                  ask_cases fl p env req (Decides StoresOwn) c (λ _. tt)
                    λ conf es a _ empty. on_answer-StoresOwn c conf es a empty

  -- How the two stages before all patterns bound the rest.
  abbrev pub Fits : Decision fl.F → Type 0
  Fits d =
      ((d.source ≡ DecisionSource.guardrail) × (d.route ≡ Route.frontier))
      ⊎ ((nonpos req.guardrail_budget ≡ true)
          ⊎ (env.estimate_tokens req.prompt ≤ pos_part req.guardrail_budget))

  guardrail-frontier :
      (r : Route) → guardrail env req.prompt req.guardrail_budget ≡ some r → r ≡ Route.frontier
  unfolding guardrail
  guardrail-frontier r h = ground arith

  guardrail-none :
      guardrail env req.prompt req.guardrail_budget ≡ none
      → (nonpos req.guardrail_budget ≡ true)
        ⊎ (env.estimate_tokens req.prompt ≤ pos_part req.guardrail_budget)
  unfolding guardrail
  guardrail-none h = ground arith

  Decides-always :
      (P : Type 0) (Q : Decision fl.F → Type 0)
      → ((d : Decision fl.F) → P → Q d)
      → P
      → (o : Outcome fl) → Decides {F = fl} (λ d _. Q d) o
  Decides-always P Q f x (decided d es) = f d x
  Decides-always P Q f x panicked = tt

  -- The video memory is protected: a prompt whose estimate exceeds a positive budget goes to the frontier
  -- as the guardrail's decision, whatever the other stages would say; so a local or fusion route is only
  -- taken for a prompt that fits, or with the guardrail switched off.
  pub plan-Fits : Decides {F = fl} (λ d _. Fits d) (plan fl p env req)
  unfolding early
  plan-Fits =
      plan_cases fl p env req (Decides (λ d _. Fits d)) (λ r e. inl (refl, guardrail-frontier r e))
        (λ e _. inr (guardrail-none e))
        λ e _. Decides-always _ Fits (λ d x. inr x) (guardrail-none e) _

  abbrev pub KeptLocal : Decision fl.F → List Effect → Type 0
  KeptLocal d es =
      ((d.source ≡ DecisionSource.guardrail)
        ⊎ ((d.route ≡ Route.local) × (d.source ≡ DecisionSource.budget_down_tier)))
      × (es ≡ [])

  -- With the budget exhausted a plan has no effect, and its decision is the guardrail's or the local
  -- route: also a request that a pattern, the cache or the routing model would send elsewhere stays local.
  pub plan_exhausted :
      budget_exhausted fl p env req ≡ true → Decides {F = fl} KeptLocal (plan fl p env req)
  unfolding early
  plan_exhausted h =
      plan_cases fl p env req (Decides KeptLocal) (λ r e. (inl refl, refl))
        (λ e _. (inr (refl, refl), refl)) λ e b. cc

  -- If no earlier stage answers and no routing model is wired, the plan panics.
  pub plan_nil : p.slm ≡ none → reaches_slm fl p env req ≡ true → plan fl p env req ≡ panicked
  unfolding reaches_slm ask_slm
  plan_nil nil h =
      plan_cases fl p env req (λ o. o ≡ panicked) (λ r e. absurd (ground arith))
        (λ e b. absurd (ground arith))
        λ e b.
          pattern_cases fl p env req (λ o. o ≡ panicked) (λ m _ f. absurd (ground arith))
            (λ m n f. absurd (ground arith))
            λ n f.
              slm_cases fl p env req (λ o. o ≡ panicked) (λ g c i. absurd (ground arith))
                (λ c i. rw (nil, ask_slm))
