-- ===== src/Router/Types.antt =====
-- The vocabulary of internal/router: routes (dsl.go), decision sources and decisions (planner.go), and
-- what the router takes from outside its sources: floating-point numbers, the token counter, the
-- regular expressions and the formatting of numbers.
use Prim.Native.Char.{Char}
use nexus_proxy.Shared.{ℕ, String, Bool, List}
use nexus_proxy.Shared.Int.{ℤ}

-- RouteLocal, RouteFrontier and RouteFusion.
pub data Route : Type 0 where
  local frontier fusion : Route

pub data DecisionSource : Type 0 where
  guardrail dsl slm slm_error escalation slm_escalation budget_down_tier dsl_promoted :
      DecisionSource
  unknown : String → DecisionSource

-- `TraceReason`, the label under which a decision's source is traced.
unfoldable pub trace_reason : DecisionSource → String
trace_reason guardrail = "guardrail"
trace_reason dsl = "dsl"
trace_reason slm = "slm"
trace_reason slm_error = "slm-error"
trace_reason escalation = "slm-no-client"
trace_reason slm_escalation = "slm-low-confidence"
trace_reason budget_down_tier = "budget-down-tier"
trace_reason dsl_promoted = "dsl-promoted"
trace_reason (unknown s) = "slm"

-- The empty kind, "exact" and "semantic".
pub data CacheHitKind : Type 0 where
  no_hit exact semantic : CacheHitKind

pub record Decision (F : Type 0) : Type 0 where
  pub route : Route
  pub source : DecisionSource
  pub reason : String
  pub confidence : F
  pub task_type : String
  pub estimated_tokens : ℕ
  pub budget_source : String
  pub budget_tokens : ℤ
  pub slm_err : String
  pub cache_hit : Bool
  pub cache_hit_kind : CacheHitKind

-- float64: the operations that the router uses, with no law assumed.
pub record Floats : Type 1 where
  pub F : Type 0
  pub ltb : F → F → Bool
  pub leb : F → F → Bool
  pub mul : F → F → F
  pub div : F → F → F
  pub of_ℕ : ℕ → F
  pub zero : F
  pub neutral : F  -- NeutralConfidence, 0.5
  pub default_floor : F  -- DefaultConfidenceFloor, 0.4
  pub default_ceiling : F  -- DefaultConfidenceCeiling, 0.85

-- A compiled regular expression, as its `MatchString`.
abbrev pub Regex : Type 0
Regex = String → Bool

-- What other packages and the Go library compute for the router, and `categoryPatterns`, which the
-- package compiles from its keyword table when it is loaded.
pub record Env : Type 0 where
  pub estimate_tokens : String → ℕ  -- telemetry.EstimateTokens
  pub to_lower : Char → Char  -- unicode.ToLower
  pub compile : String → Regex  -- regexp.MustCompile
  pub decimal : ℕ → String  -- the verb %d
  pub category_patterns : List (String × Regex)
