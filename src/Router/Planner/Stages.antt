-- ===== src/Router/Planner/Stages.antt =====
-- internal/router/planner.go, by stages: for each stage, a rule that splits on how it ends. The proofs
-- about `plan` go through these rules and keep the stages shut.
use mathlib.Core.List.{◌++◌ as append_list}
use nexus_proxy.Shared.{
  ℕ, suc, ◌≡◌, refl, String, Bool, true, false, List, [], ◌∷◌, none, some, inl, inr, Option-cases,
  Bool-cases, arith,
}
use nexus_proxy.Router.Types.{Route, DecisionSource, CacheHitKind, Floats, Env}
use nexus_proxy.Router.Dsl.{guardrail}
use nexus_proxy.Router.Planner.{
  Effect, slm_called, cache_stored, promoted_counted, confidence_failed, Answer, PlanRequest,
  Planner, Outcome, decided, panicked, early, budget_exhausted, routing_text, promoted, fast_pass,
  cache_get, on_cache_hit, on_answer, ask_slm, slm_stage, pattern_stages, plan, hook_effects,
  hit_confidence,
}

abbrev pub slm_calls : List Effect → ℕ
slm_calls [] = 0
slm_calls (slm_called t ∷ es) = suc (slm_calls es)
slm_calls (promoted_counted ∷ es) = slm_calls es
slm_calls (confidence_failed c ∷ es) = slm_calls es
slm_calls (cache_stored t r ∷ es) = slm_calls es

abbrev pub stores : List Effect → List (String × Route)
stores [] = []
stores (cache_stored t r ∷ es) = (t, r) ∷ stores es
stores (slm_called t ∷ es) = stores es
stores (promoted_counted ∷ es) = stores es
stores (confidence_failed c ∷ es) = stores es

pub slm_calls-stored :
    (es : List Effect) (t : String) (r : Route)
    → slm_calls (append_list es (cache_stored t r ∷ [])) ≡ slm_calls es
slm_calls-stored [] t r = refl
slm_calls-stored (slm_called u ∷ es) t r = omega (arith, slm_calls-stored es t r)
slm_calls-stored (promoted_counted ∷ es) t r = slm_calls-stored es t r
slm_calls-stored (confidence_failed c ∷ es) t r = slm_calls-stored es t r
slm_calls-stored (cache_stored u s ∷ es) t r = slm_calls-stored es t r

pub stores-stored :
    (es : List Effect) (t : String) (r : Route)
    → stores es ≡ []
    → stores (append_list es (cache_stored t r ∷ [])) ≡ (t, r) ∷ []
stores-stored [] t r h = refl
stores-stored (slm_called u ∷ es) t r h = stores-stored es t r h
stores-stored (promoted_counted ∷ es) t r h = stores-stored es t r h
stores-stored (confidence_failed c ∷ es) t r h = stores-stored es t r h
stores-stored (cache_stored u s ∷ es) t r h = cc

module _ (fl : Floats) (p : Planner fl) (env : Env) (req : PlanRequest) where
  pub hook_effects-calls :
      (c : String) (err : Bool)
      → (slm_calls (hook_effects fl p c err) ≡ 0) × (stores (hook_effects fl p c err) ≡ [])
  unfolding hook_effects
  hook_effects-calls c err = ground arith

  pub hook_effects-slm_called :
      (c : String) (err : Bool) (t : String)
      → let es = append_list (hook_effects fl p c err) (slm_called t ∷ []) in
        (slm_calls es ≡ 1) × (stores es ≡ [])
  unfolding hook_effects
  hook_effects-slm_called c err t = ground arith

  pub hit_confidence-calls :
      (c : String)
      → (slm_calls (hit_confidence fl p c).1 ≡ 0) × (stores (hit_confidence fl p c).1 ≡ [])
  unfolding hit_confidence
  hit_confidence-calls c = ground arith

  pub plan_cases {ℓ} :
      (P : Outcome fl → Type ℓ)
      → ((r : Route)
          → guardrail env req.prompt req.guardrail_budget ≡ some r
          → P (decided (early fl env req r DecisionSource.guardrail "vram") []))
      → (guardrail env req.prompt req.guardrail_budget ≡ none
          → budget_exhausted fl p env req ≡ true
          → P (
              decided
                (early fl env req Route.local DecisionSource.budget_down_tier "budget-exhausted")
                []))
      → (guardrail env req.prompt req.guardrail_budget ≡ none
          → budget_exhausted fl p env req ≡ false
          → P (pattern_stages fl p env req))
      → P (plan fl p env req)
  unfolding plan
  plan_cases P vram budget rest =
      elim (Option-cases (guardrail env req.prompt req.guardrail_budget)) [
        | inr (r, e) ↦ rw (e, plan) (vram r e)
        | inl e ↦ elim (Bool-cases (budget_exhausted fl p env req)) [
          | inl b ↦ rw (e, plan) (rw b (budget e b))
          | inr b ↦ rw (e, plan) (rw b (rest e b))
        ]
      ]

  pub pattern_cases {ℓ} :
      (P : Outcome fl → Type ℓ)
      → ((m : Route × String) (reason : String)
          → promoted fl p (routing_text req) ≡ some m
          → P (
              decided
                (early fl env req m.0 DecisionSource.dsl_promoted reason)
                (promoted_counted ∷ [])))
      → ((m : Route × String)
          → promoted fl p (routing_text req) ≡ none
          → fast_pass fl p env (routing_text req) ≡ some m
          → P (decided (early fl env req m.0 DecisionSource.dsl m.1) []))
      → (promoted fl p (routing_text req) ≡ none
          → fast_pass fl p env (routing_text req) ≡ none
          → P (slm_stage fl p env req))
      → P (pattern_stages fl p env req)
  unfolding pattern_stages
  pattern_cases P hit fast rest = elim (Option-cases (promoted fl p (routing_text req))) [
    | inr (m, e) ↦ rw (e, pattern_stages) (hit m _ e)
    | inl e ↦ elim (Option-cases (fast_pass fl p env (routing_text req))) [
      | inr (m, f) ↦ rw (e, pattern_stages) (rw (f, pattern_stages) (fast m e f))
      | inl f ↦ rw (e, pattern_stages) (rw (f, pattern_stages) (rest e f))
    ]
  ]

  pub slm_cases {ℓ} :
      (P : Outcome fl → Type ℓ)
      → ((h : Route × CacheHitKind) (c : String)
          → cache_get fl p (routing_text req) ≡ some h
          → P (on_cache_hit fl p env req c h))
      → ((c : String) → cache_get fl p (routing_text req) ≡ none → P (ask_slm fl p env req c))
      → P (slm_stage fl p env req)
  unfolding slm_stage
  slm_cases P hit rest = elim (Option-cases (cache_get fl p (routing_text req))) [
    | inr (h, e) ↦ rw (e, slm_stage) (hit h _ e)
    | inl e ↦ rw (e, slm_stage) (rest _ e)
  ]

  pub ask_cases {ℓ} :
      (P : Outcome fl → Type ℓ) (c : String)
      → (p.slm ≡ none → P panicked)
      → ((conf : fl.F) (es : List Effect) (a : Answer)
          → slm_calls es ≡ 1
          → stores es ≡ []
          → P (on_answer fl p env req c conf es a))
      → P (ask_slm fl p env req c)
  unfolding ask_slm hook_effects
  ask_cases P c nil answer = elim (Option-cases p.slm) [
    | inl e ↦ rw (e, ask_slm) (nil e)
    | inr (s, e) ↦ elim (Option-cases p.confidence) [
      | inl f ↦ rw (e, ask_slm) (rw (f, ask_slm) (answer _ _ _ refl refl))
      | inr (store, f) ↦ elim (Option-cases s.comparative) [
        | inl g ↦
            let calls = hook_effects-slm_called c (store.local_confidence c).1 _ in
            rw (e, ask_slm) (rw (f, ask_slm) (rw (g, ask_slm) (answer _ _ _ calls.0 calls.1)))
        | inr (decide, g) ↦
            let calls = hook_effects-slm_called c (store.comparative_confidence c).2 _ in
            rw (e, ask_slm) (rw (f, ask_slm) (rw (g, ask_slm) (answer _ _ _ calls.0 calls.1)))
      ]
    ]
  ]
