-- ===== src/Router/Planner.antt =====
-- internal/router/planner.go: the pipeline guardrail, budget, promoted patterns, patterns, cache, routing
-- model. A plan returns its decision with the effects it had on the parts it is wired to, in order; a
-- call through a nil `SLM` is a panic.
pub mod Stages
pub mod Safety
mod Examples
use Prim.Native.String.{◌++◌}
use text.Mathlib.Text.{◌==◌ as str_eq}
use mathlib.Core.List.{◌++◌ as append_list}
use nexus_proxy.Shared.{
  ℕ, ◌≡◌, refl, String, Bool, true, false, ◌&&◌, ◌||◌, not, List, [], ◌∷◌, Option, none, some,
  if◌then◌else◌,
}
use nexus_proxy.Shared.Int.{ℤ}
use nexus_proxy.Router.Types.{
  Route, DecisionSource, CacheHitKind, no_hit, Decision, Floats, Regex, Env,
}
use nexus_proxy.Router.Dsl.{
  guardrail, dsl, categorize, default_formatting_patterns, default_fusion_patterns,
  default_local_patterns, default_unicode_patterns,
}

-- What the planner does to the parts that it is wired to.
pub data Effect : Type 0 where
  promoted_counted : Effect  -- Promoter.IncPromotedTotal
  confidence_failed : String → Effect  -- ConfidenceErrorHook, with the category
  slm_called : String → Effect  -- a call of the routing model, with its prompt
  cache_stored : String → Route → Effect  -- SLMCache.Set

-- `(Route, error)` of the routing model.
pub data Answer : Type 0 where
  routed : Route → Answer
  failed : String → Answer

pub record PlanRequest : Type 0 where
  pub prompt : String
  pub guardrail_budget : ℤ
  pub guardrail_source : String
  pub conversation_context : String

unfoldable pub routing_text : PlanRequest → String
routing_text req =
    if str_eq req.conversation_context ""
    then req.prompt
    else req.conversation_context ++ ("\n" ++ req.prompt)

abbrev pub or_patterns : List Regex → List Regex → List Regex
or_patterns [] defaults = defaults
or_patterns (re ∷ rs) defaults = re ∷ rs

abbrev pub local_or_fusion : Route → Bool
local_or_fusion Route.local = true
local_or_fusion Route.fusion = true
local_or_fusion Route.frontier = false

abbrev pub wired {ℓ} : {A : Type ℓ} → Option A → Bool
wired none = false
wired (some a) = true

module _ (fl : Floats) where
  open fl use {F, ltb, leb, mul, div, of_ℕ, zero, neutral}

  -- `SLMDecider`, with the optional `ComparativeSLMDecider`.
  pub record SlmDecider : Type 0 where
    pub decide : String → Answer
    pub decide_with_confidence : String → F → Answer
    pub comparative : Option (String → F → F → Answer)

  -- `ConfidenceStore`: a value with a flag that is set when an error came with it.
  pub record ConfidenceStore : Type 0 where
    pub local_confidence : String → F × Bool
    pub comparative_confidence : String → F × F × Bool

  pub record Planner : Type 0 where
    pub slm : Option SlmDecider
    pub confidence : Option ConfidenceStore
    pub formatting_regex : List Regex
    pub fusion_patterns : List Regex
    pub local_patterns_regex : List Regex
    pub unicode_patterns_regex : List Regex
    pub slm_cache : Option (String → Option (Route × CacheHitKind))
    pub confidence_threshold : F
    pub confidence_error_hook : Bool
    pub budget : Option (F → Bool)  -- WouldExceed
    pub frontier_cost_per_1k : F
    pub promoter : Option (String → Option (Route × String))
    pub slm_token_hint : Bool

  pub data Outcome : Type 0 where
    decided : Decision F → List Effect → Outcome
    panicked : Outcome

  unfoldable pub estimate_frontier_cost : ℕ → F → F
  estimate_frontier_cost tokens cost_per_1k =
      if leb cost_per_1k zero
      then div (of_ℕ tokens) (of_ℕ 1000000)
      else div (mul (of_ℕ tokens) cost_per_1k) (of_ℕ 1000)

  -- The fields that every decision of one plan shares; the stage names the rest.
  unfoldable pub early : Env → PlanRequest → Route → DecisionSource → String → Decision F
  early env req route source reason = record {
    route = route;
    source = source;
    reason = reason;
    confidence = neutral;
    task_type = "";
    estimated_tokens = env.estimate_tokens req.prompt;
    budget_source = req.guardrail_source;
    budget_tokens = req.guardrail_budget;
    slm_err = "";
    cache_hit = false;
    cache_hit_kind = no_hit;
  }

  -- Stage 1b: the cost of a frontier call would exceed what is left of the budget.
  unfoldable pub budget_exhausted : Planner → Env → PlanRequest → Bool
  unfolding estimate_frontier_cost
  budget_exhausted p env req = elim p.budget [
    | none ↦ false
    | some would_exceed ↦
        let cost = estimate_frontier_cost (env.estimate_tokens req.prompt) p.frontier_cost_per_1k in
        ltb zero cost && would_exceed cost
  ]

  unfoldable pub slm_prompt : Planner → Env → PlanRequest → String
  unfolding routing_text
  slm_prompt p env req =
      if p.slm_token_hint
      then "[tokens: ~"
        ++ (env.decimal (env.estimate_tokens req.prompt) ++ ("]\n" ++ routing_text req))
      else routing_text req

  -- Stage 2a.
  unfoldable pub promoted : Planner → String → Option (Route × String)
  promoted p text = elim p.promoter [ none ↦ none | some match_text ↦ match_text text ]

  -- Stage 2b: the fast-pass, with the default patterns where none are configured.
  unfoldable pub fast_pass : Planner → Env → String → Option (Route × String)
  fast_pass p env text =
      dsl env text (or_patterns p.fusion_patterns (default_fusion_patterns env))
        (or_patterns p.formatting_regex (default_formatting_patterns env))
        (or_patterns p.local_patterns_regex (default_local_patterns env))
        (or_patterns p.unicode_patterns_regex (default_unicode_patterns env))

  -- The hard override: a local or fusion answer with a confidence below a positive threshold.
  unfoldable pub must_escalate : Planner → Route → F → Bool
  must_escalate p route confidence =
      ltb zero p.confidence_threshold
      && (wired p.confidence && (local_or_fusion route && ltb confidence p.confidence_threshold))

  -- What a lookup's error leaves: the hook's effect, and the confidence as it was.
  unfoldable pub hook_effects : Planner → String → Bool → List Effect
  hook_effects p category err =
      if err && p.confidence_error_hook then confidence_failed category ∷ [] else []

  unfoldable pub confidence_or_neutral : F → Bool → F
  confidence_or_neutral conf err = if err then neutral else conf

  unfoldable pub late :
      Env → PlanRequest → Route → DecisionSource → String → F → String → Decision F
  late env req route source reason confidence category = record {
    route = route;
    source = source;
    reason = reason;
    confidence = confidence;
    task_type = category;
    estimated_tokens = env.estimate_tokens req.prompt;
    budget_source = req.guardrail_source;
    budget_tokens = req.guardrail_budget;
    slm_err = "";
    cache_hit = false;
    cache_hit_kind = no_hit;
  }

  -- The lookup that a cache hit makes for the hard override.
  unfoldable pub hit_confidence : Planner → String → F × List Effect
  unfolding hook_effects confidence_or_neutral
  hit_confidence p category = elim p.confidence [
    | none ↦ (neutral, [])
    | some store ↦
        let (conf, _, err) = store.comparative_confidence category in
        (confidence_or_neutral conf err, hook_effects p category err)
  ]

  -- A hit in the cache of routing decisions.
  unfoldable pub on_cache_hit :
      Planner → Env → PlanRequest → String → Route × CacheHitKind → Outcome
  unfolding hit_confidence must_escalate late
  on_cache_hit p env req category (cached, kind) =
      let (confidence, effects) = hit_confidence p category in
      if must_escalate p cached confidence
      then decided
          (record (late env req Route.frontier DecisionSource.slm_escalation "low_confidence"
            confidence category) { cache_hit = true; cache_hit_kind = kind })
          effects
      else decided
          (record (late env req cached DecisionSource.slm "" confidence category) {
            cache_hit = true;
            cache_hit_kind = kind;
          })
          effects

  unfoldable pub on_answer :
      Planner → Env → PlanRequest → String → F → List Effect → Answer → Outcome
  unfolding must_escalate late routing_text
  on_answer p env req category confidence effects (failed msg) =
      decided
        (record (late env req Route.frontier DecisionSource.slm_error msg confidence category) {
          slm_err = msg;
        })
        effects
  on_answer p env req category confidence effects (routed dec) =
      if must_escalate p dec confidence
      then decided
          (late env req Route.frontier DecisionSource.slm_escalation "low_confidence" confidence
            category)
          effects
      else decided (late env req dec DecisionSource.slm "" confidence category) (
          if wired p.slm_cache
          then append_list effects (cache_stored (routing_text req) dec ∷ [])
          else effects)

  -- Stage 3: which entry of the routing model is called, and with what confidence. On an error of the
  -- comparative lookup the values that came with the error are passed on.
  unfoldable pub ask_slm : Planner → Env → PlanRequest → String → Outcome
  unfolding on_answer slm_prompt hook_effects confidence_or_neutral
  ask_slm p env req category =
      let prompt = slm_prompt p env req in
      elim p.slm [
        | none ↦ panicked
        | some s ↦ elim p.confidence [
          | none ↦ on_answer p env req category neutral (slm_called prompt ∷ []) (s.decide prompt)
          | some store ↦ elim s.comparative [
            | some decide_comparative ↦
                let (l, f, err) = store.comparative_confidence category in
                on_answer p env req category (confidence_or_neutral l err)
                  (append_list (hook_effects p category err) (slm_called prompt ∷ []))
                  (decide_comparative prompt l f)
            | none ↦
                let (conf, err) = store.local_confidence category in
                let confidence = confidence_or_neutral conf err in
                on_answer p env req category confidence
                  (append_list (hook_effects p category err) (slm_called prompt ∷ []))
                  (s.decide_with_confidence prompt confidence)
          ]
        ]
      ]

  unfoldable pub cache_get : Planner → String → Option (Route × CacheHitKind)
  cache_get p text = elim p.slm_cache [ none ↦ none | some get ↦ get text ]

  -- The stages from the cache on.
  unfoldable pub slm_stage : Planner → Env → PlanRequest → Outcome
  unfolding routing_text cache_get on_cache_hit ask_slm
  slm_stage p env req =
      let text = routing_text req in
      let category = categorize env env.category_patterns text in
      elim (cache_get p text) [
        | some hit ↦ on_cache_hit p env req category hit
        | none ↦ ask_slm p env req category
      ]

  -- The stages from the promoted patterns on.
  unfoldable pub pattern_stages : Planner → Env → PlanRequest → Outcome
  unfolding routing_text promoted fast_pass early slm_stage
  pattern_stages p env req =
      let text = routing_text req in
      elim (promoted p text) [
        | some (route, pattern) ↦
            decided (early env req route DecisionSource.dsl_promoted ("promoted:" ++ pattern))
              (promoted_counted ∷ [])
        | none ↦ elim (fast_pass p env text) [
          | some (route, reason) ↦ decided (early env req route DecisionSource.dsl reason) []
          | none ↦ slm_stage p env req
        ]
      ]

  -- `Plan`.
  unfoldable pub plan : Planner → Env → PlanRequest → Outcome
  unfolding early budget_exhausted pattern_stages
  plan p env req = elim (guardrail env req.prompt req.guardrail_budget) [
    | some route ↦ decided (early env req route DecisionSource.guardrail "vram") []
    | none ↦
        if budget_exhausted p env req
        then decided (early env req Route.local DecisionSource.budget_down_tier "budget-exhausted")
            []
        else pattern_stages p env req
  ]
