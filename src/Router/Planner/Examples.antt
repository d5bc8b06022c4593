-- ===== src/Router/Planner/Examples.antt =====
-- internal/router/planner.go at concrete inputs: a request of 40 tokens, numbers in thousandths.
use Prim.Native.Char.{Char, char, code}
use nexus_proxy.Shared.{◌==◌, if◌then◌else◌, ℕ, ◌*◌, ◌/◌, true, false, [], none, some, leb, ltb}
use nexus_proxy.Shared.Int.{pos}
use nexus_proxy.Router.Types.{Route, Floats, Env}
use nexus_proxy.Router.Planner.{PlanRequest, Planner, ConfidenceStore, routed, plan}
use nexus_proxy.Router.Planner.Safety.{
  Decides, Guarded, StoresOwn, Fits, plan-Guarded, plan-StoresOwn, plan-Fits,
}

abbrev milli : Floats
milli = record {
  F = ℕ;
  ltb = ltb;
  leb = leb;
  mul = λ a b. a * b / 1000;
  div = λ a b. a * 1000 / b;
  of_ℕ = λ n. n * 1000;
  zero = 0;
  neutral = 500;
  default_floor = 400;
  default_ceiling = 850;
}

abbrev lower_a : Char
lower_a = char 97 tt

abbrev env : Env
env = record {
  estimate_tokens = λ s. 40;
  to_lower = λ c. c;
  compile = λ e s. false;
  decimal = λ n. "40";
  category_patterns = [];
}

abbrev doubtful_store : ConfidenceStore milli
doubtful_store = record {
  local_confidence = λ c. (200, false);
  comparative_confidence = λ c. (200, 700, false);
}

-- The routing model would answer `local`; the store has a confidence of 0.2, the threshold is 0.3.
abbrev doubtful : Planner milli
doubtful = record {
  slm = some (record {
    decide = λ s. routed Route.local;
    decide_with_confidence = λ s c. routed Route.local;
    comparative = none;
  });
  confidence = some doubtful_store;
  formatting_regex = [];
  fusion_patterns = [];
  local_patterns_regex = [];
  unicode_patterns_regex = [];
  slm_cache = some (λ s. none);
  confidence_threshold = 300;
  confidence_error_hook = true;
  budget = some (λ cost. false);
  frontier_cost_per_1k = 5000;
  promoter = none;
  slm_token_hint = true;
}

-- The same without a store: the answer stands, and is cached.
abbrev trusting : Planner milli
trusting = record doubtful { confidence = none }

abbrev spent : Planner milli
spent = record doubtful { budget = some (λ cost. true) }

abbrev nil_client : Planner milli
nil_client = record doubtful { slm = none }

abbrev request : PlanRequest
request = record {
  prompt = "fix it";
  guardrail_budget = pos 100;
  guardrail_source = "ollama-ps";
  conversation_context = "earlier";
}

abbrev oversized : PlanRequest
oversized = record request { guardrail_budget = pos 30 }

plan-Guarded_example :
    Decides {F = milli}
      (λ d _. Guarded milli doubtful env request d)
      (plan milli doubtful env request)
plan-Guarded_example = plan-Guarded milli doubtful env request

plan-StoresOwn_example :
    Decides {F = milli} (StoresOwn milli trusting env request) (plan milli trusting env request)
plan-StoresOwn_example = plan-StoresOwn milli trusting env request

plan-Fits_example :
    Decides {F = milli}
      (λ d _. Fits milli doubtful env oversized d)
      (plan milli doubtful env oversized)
plan-Fits_example = plan-Fits milli doubtful env oversized

-- The floor is the default, 0.4: both confidences lie below it.
-- Lowering that knows one letter.
abbrev ascii : Env
ascii = record env { to_lower = λ c. if code c == 65 then lower_a else c }
