-- ===== src/Router/Slm/Examples.antt =====
-- internal/router/slm.go at concrete inputs: an answer with prose around its object, and one that lowering
-- lengthens.
use nexus_proxy.Shared.{
  ◌+◌, ◌≡◌, ◌↔◌, ◌≤◌, refl, true, false, Option, none, some, [], ◌∷◌, ◌++◌, ◌==◌, ltb, ◌&&◌,
  if◌then◌else◌, length, arith,
}
use nexus_proxy.Router.Types.{Route, local}
use nexus_proxy.Router.Slm.Scan.{Bytes, put_before, scan, from_brace, extract_first_json_object}
use nexus_proxy.Router.Slm.Balanced.{raw, Body, done, plain, quoted, spell, print, object}
use nexus_proxy.Router.Slm.First.{FirstObject, extract_first_json_object_lem}
use nexus_proxy.Router.Slm.Parse.{
  Library, has_prefix, index, decision, reply, SlmError, decided, crashed, block_from, try_opener,
  extract_fenced_json, or_else, parse_object, parse_block, parse_slm_decision, route_of, decided_by,
  decide_content, decide_body, slm_decide, same_text, local_name,
}
use nexus_proxy.Router.Slm.Answers.{FromDecision, slm_decide_safe, parse_prose}
use nexus_proxy.Router.Slm.Returns.{slm_decide_returns}

-- {"a":"}"}
abbrev braced : Body
braced = quoted (raw 97 ∷ []) (plain 58 (quoted (raw 125 ∷ []) done))

-- Ok {"a":"}"} {}
abbrev answer : Bytes
answer = 79 ∷ 107 ∷ 32 ∷ (object braced ++ (32 ∷ 123 ∷ 125 ∷ []))

abbrev lower_ascii : Bytes → Bytes
lower_ascii [] = []
lower_ascii (c ∷ cs) =
    let rest = lower_ascii cs in (if ltb 64 c && ltb c 91 then c + 32 else c) ∷ rest

lower_ascii_lem : (cs : Bytes) → length (lower_ascii cs) ≤ length cs
lower_ascii_lem [] = omega arith
lower_ascii_lem (c ∷ cs) = omega (arith, lower_ascii_lem cs)

-- A text that is the object above names the local route, nothing else is JSON.
unfoldable ascii : Library
unfolding object
ascii = record {
  to_lower = lower_ascii;
  trim_space = λ cs. cs;
  unmarshal = λ d cs. if same_text cs (object braced) then (local_name, true) else (d, false);
  decode = λ body. some body;
}

-- The object of `answer` is found where it stands.
extract_first_json_object_lem_example :
    (extract_first_json_object answer ≡ some (object braced)) ↔ FirstObject answer (object braced)
extract_first_json_object_lem_example = extract_first_json_object_lem answer (object braced)

parse_prose_example : parse_slm_decision ascii answer ≡ decision local_name
unfolding ascii object print spell index has_prefix same_text
parse_prose_example =
    parse_prose ascii (79 ∷ 107 ∷ 32 ∷ []) (32 ∷ 123 ∷ 125 ∷ []) [] local_name braced
      (omega arith, (omega arith, (omega arith, tt)))
      (
        ((omega arith, omega arith), tt),
        ((omega arith, (omega arith, omega arith)), (((omega arith, omega arith), tt), tt)),
      )
      refl refl refl refl

abbrev no_error : Option SlmError
no_error = none

slm_decide_safe_example : (no_error ≡ none) × FromDecision ascii (reply 200 answer) local
unfolding ascii object print spell index has_prefix same_text slm_decide decide_body decide_content
    parse_slm_decision or_else parse_block parse_object extract_fenced_json try_opener
    extract_first_json_object from_brace scan put_before decided_by route_of
slm_decide_safe_example =
    slm_decide_safe ascii (reply 200 answer) local no_error refl (λ e. ground arith)

slm_decide_returns_example :
    (r : Route) × ((e : Option SlmError) × (slm_decide ascii (reply 200 answer) ≡ decided r e))
unfolding ascii
slm_decide_returns_example =
    slm_decide_returns ascii (reply 200 answer) (λ content said. lower_ascii_lem content)

-- Two letters U+023A and a fence: two bytes each, three bytes each in lower case.
abbrev lengthened : Bytes
lengthened = 200 ∷ 186 ∷ 200 ∷ 186 ∷ 96 ∷ 96 ∷ 96 ∷ []

abbrev lower_wide : Bytes → Bytes
lower_wide [] = []
lower_wide (c ∷ cs) =
    let rest = lower_wide cs in
    if c == 200 then 226 ∷ 177 ∷ rest else (if c == 186 then 165 ∷ rest else c ∷ rest)

abbrev wide : Library
wide = record {
  to_lower = lower_wide;
  trim_space = λ cs. cs;
  unmarshal = λ d cs. (d, false);
  decode = λ body. some body;
}

-- The fence is looked for in the lowered text and sliced off the text itself, behind its end.
slice_behind_end : slm_decide wide (reply 200 lengthened) ≡ crashed
unfolding slm_decide decide_body decide_content parse_slm_decision or_else parse_block
    extract_fenced_json try_opener index has_prefix block_from decided_by
slice_behind_end = refl
