-- ===== src/Router/Dsl.antt =====
-- internal/router/dsl.go: the VRAM guardrail, the pattern fast-pass and lowering; and `Categorize` of
-- internal/router/confidence.go, over its compiled patterns.
pub mod Lowering
use nexus_proxy.Shared.{
  String, Bool, false, ◌||◌, not, List, [], ◌∷◌, Option, none, some, ltb, if◌then◌else◌, ◌==◌,
}
use Prim.Native.Char.{code}
use nexus_proxy.Shared.Int.{ℤ, pos_part, nonpos}
use nexus_proxy.Router.Types.{Route, Env, Regex}

-- `Guardrail`: the frontier route when the estimate exceeds a positive budget.
unfoldable pub guardrail : Env → String → ℤ → Option Route
guardrail env prompt max_tokens =
    if nonpos max_tokens
    then none
    else (if ltb (pos_part max_tokens) (env.estimate_tokens prompt)
        then some Route.frontier
        else none)

-- A rune that `unicode.ToLower` changes.
unfoldable pub has_upper_unicode : Env → String → Bool
has_upper_unicode env String.[] = false
has_upper_unicode env (String.◌∷◌ r s) =
    not (code r == code (env.to_lower r)) || has_upper_unicode env s

-- The builder loop of `toUnicodeLower`.
unfoldable pub lower_runes : Env → String → String
lower_runes env String.[] = String.[]
lower_runes env (String.◌∷◌ r s) = String.◌∷◌ (env.to_lower r) (lower_runes env s)

unfoldable pub to_unicode_lower : Env → String → String
to_unicode_lower env s = if has_upper_unicode env s then lower_runes env s else s

-- One `for _, re := range patterns` loop.
unfoldable pub any_match : List Regex → String → Bool
any_match [] s = false
any_match (re ∷ rs) s = re s || any_match rs s

unfoldable pub dsl :
    Env
    → String
    → (fusion_patterns formatting_patterns local_patterns unicode_patterns : List Regex)
    → Option (Route × String)
dsl env prompt fusion_patterns formatting_patterns local_patterns unicode_patterns =
    let lower = to_unicode_lower env prompt in
    if any_match fusion_patterns lower
    then some (Route.fusion, "fusion")
    else (if any_match formatting_patterns lower
        then some (Route.local, "formatting")
        else (if any_match local_patterns lower
            then some (Route.local, "local")
            else (if any_match unicode_patterns prompt
                then some (Route.local, "unicode")
                else none)))

unfoldable pub default_formatting_patterns : Env → List Regex
default_formatting_patterns env =
    env.compile
      "(?i)\\b(css|format|docstring|lint|typo|boilerplate|debug|fix bug|git commit|sql query|parse json|validate input|regex|api endpoint|test|optimize|readme)\\b"
    ∷ []

unfoldable pub default_fusion_patterns : Env → List Regex
default_fusion_patterns env =
    env.compile "(?i)\\b(architectural design|system architecture)\\b" ∷ []

unfoldable pub default_local_patterns : Env → List Regex
default_local_patterns env =
    env.compile
      "(?i)\\b(refactor|security scan|generate tests|explain this code|performance analysis)\\b"
    ∷ []

unfoldable pub default_unicode_patterns : Env → List Regex
default_unicode_patterns env = env.compile "(?i)\\p{Han}" ∷ env.compile "(?i)\\p{Arabic}" ∷ []

-- `Categorize`: the category of the first pattern that matches the lowered prompt.
unfoldable pub first_category : List (String × Regex) → String → String
first_category [] lower = "other"
first_category ((c, re) ∷ ps) lower = if re lower then c else first_category ps lower

unfoldable pub categorize : Env → List (String × Regex) → String → String
categorize env category_patterns prompt =
    first_category category_patterns (to_unicode_lower env prompt)
