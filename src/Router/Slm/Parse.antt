-- ===== src/Router/Slm/Parse.antt =====
-- internal/router/slm.go: how the answer of the routing model is read, `decide` behind the call,
-- `parseSLMDecision` and `extractFencedJSON`. A text is its bytes.
use nexus_proxy.Shared.{
  ℕ, zero, suc, ◌+◌, Bool, true, false, Option, none, some, [], ◌∷◌, ◌==◌, ltb, length,
  if◌then◌else◌,
}
use nexus_proxy.Router.Types.{Route, local, frontier, fusion}
use nexus_proxy.Router.Slm.Scan.{Bytes, extract_first_json_object}

-- Functions of the standard library that stand on Unicode tables or on encoding/json. `unmarshal d t` is
-- what json.Unmarshal makes of the route in `d`, and whether it returned no error.
pub record Library : Type 0 where
  pub to_lower : Bytes → Bytes
  pub trim_space : Bytes → Bytes
  pub unmarshal : Bytes → Bytes → Bytes × Bool
  pub decode : Bytes → Option Bytes  -- the content of the message in the body, or an error

-- strings.HasPrefix.
unfoldable pub has_prefix : Bytes → Bytes → Bool
has_prefix cs [] = true
has_prefix [] (p ∷ ps) = false
has_prefix (c ∷ cs) (p ∷ ps) = let rest = has_prefix cs ps in if c == p then rest else false

-- strings.Index.
unfoldable pub index : Bytes → Bytes → Option ℕ
unfolding has_prefix
index [] p = if has_prefix [] p then some 0 else none
index (c ∷ cs) p =
    let rest = index cs p in
    if has_prefix (c ∷ cs) p then some 0 else (elim rest [ none ↦ none | some i ↦ some (suc i) ])

-- `s[n:]` and `s[:n]`, of a text that is long enough.
unfoldable pub drop : ℕ → Bytes → Bytes
drop zero cs = cs
drop (suc n) [] = []
drop (suc n) (c ∷ cs) = drop n cs

unfoldable pub take : ℕ → Bytes → Bytes
take zero cs = []
take (suc n) [] = []
take (suc n) (c ∷ cs) = c ∷ take n cs

abbrev pub fence : Bytes
fence = 96 ∷ 96 ∷ 96 ∷ []

-- "```json"
abbrev pub json_fence : Bytes
json_fence = 96 ∷ 96 ∷ 96 ∷ 106 ∷ 115 ∷ 111 ∷ 110 ∷ []

-- A slice out of range panics.
pub data Fenced : Type 0 where
  no_block : Fenced
  block : Bytes → Fenced
  out_of_range : Fenced

pub data Parsed : Type 0 where
  decision : Bytes → Parsed
  unparseable : Parsed
  panicked : Parsed

-- What the call of the routing model comes to: an error of building, sending or reading, or a reply.
pub data Exchange : Type 0 where
  call_failed : Exchange
  reply : ℕ → Bytes → Exchange

pub data SlmError : Type 0 where
  transport bad_status bad_body empty_content no_decision : SlmError

pub data Decided : Type 0 where
  decided : Route → Option SlmError → Decided
  crashed : Decided

-- One line break behind the opener is skipped.
unfoldable pub skip_break : Bytes → Bytes
unfolding has_prefix drop
skip_break rest =
    if has_prefix rest (13 ∷ 10 ∷ [])
    then drop 2 rest
    else (if has_prefix rest (10 ∷ []) then drop 1 rest else rest)

-- Equality of two texts.
unfoldable pub same_text : Bytes → Bytes → Bool
same_text [] [] = true
same_text [] (d ∷ ds) = false
same_text (c ∷ cs) [] = false
same_text (c ∷ cs) (d ∷ ds) = let rest = same_text cs ds in if c == d then rest else false

-- "local" and "fusion".
abbrev pub local_name : Bytes
local_name = 108 ∷ 111 ∷ 99 ∷ 97 ∷ 108 ∷ []

abbrev pub fusion_name : Bytes
fusion_name = 102 ∷ 117 ∷ 115 ∷ 105 ∷ 111 ∷ 110 ∷ []

module _ (lib : Library) where
  -- `extractFencedJSON`, behind the opener; the test that follows the slice never holds.
  unfoldable pub block_from : Bytes → ℕ → Fenced
  unfolding skip_break drop index take
  block_from content start =
      let body = skip_break (drop start content) in
      if ltb (length content) start then out_of_range else (elim (index body fence) [
        | none ↦ no_block
        | some end ↦ block (lib.trim_space (take end body))
      ])

  -- `extractFencedJSON`, one opener.
  unfoldable pub try_opener : Bytes → Bytes → Fenced
  unfolding block_from index
  try_opener content opener = elim (index (lib.to_lower content) opener) [
    | none ↦ no_block
    | some i ↦ block_from content (i + length opener)
  ]

  -- `extractFencedJSON`.
  unfoldable pub extract_fenced_json : Bytes → Fenced
  unfolding try_opener
  extract_fenced_json content = elim (try_opener content json_fence) [
    | no_block ↦ try_opener content fence
    | block t ↦ block t
    | out_of_range ↦ out_of_range
  ]

  -- `parseSLMDecision`, a candidate: the empty text is none.
  unfoldable pub or_else : Bytes × Bool → (Bytes → Parsed) → Parsed
  or_else (d, ok) next = if ok then decision d else next d

  -- `parseSLMDecision`, the third way, with what the earlier ones left in the decision.
  unfoldable pub parse_object : Bytes → Bytes → Parsed
  unfolding or_else
  parse_object content d = elim (extract_first_json_object content) [
    | none ↦ unparseable
    | some o ↦ or_else (lib.unmarshal d o) (λ _. unparseable)
  ]

  -- `parseSLMDecision`, the second way and the third behind it.
  unfoldable pub parse_block : Bytes → Bytes → Fenced → Parsed
  unfolding or_else parse_object
  parse_block content d no_block = parse_object content d
  parse_block content d (block []) = parse_object content d
  parse_block content d (block (c ∷ cs)) = or_else (lib.unmarshal d (c ∷ cs)) (parse_object content)
  parse_block content d out_of_range = panicked

  -- `parseSLMDecision`.
  unfoldable pub parse_slm_decision : Bytes → Parsed
  unfolding or_else parse_block extract_fenced_json
  parse_slm_decision content =
      let trimmed = lib.trim_space content in
      or_else (lib.unmarshal [] trimmed) (λ d. parse_block trimmed d (extract_fenced_json trimmed))

  -- `decide`, the route that a decision names.
  unfoldable pub route_of : Bytes → Route
  unfolding same_text
  route_of name =
      let lower = lib.to_lower name in
      if same_text lower local_name
      then local
      else (if same_text lower fusion_name then fusion else frontier)

  -- `decide`, behind the parsing.
  unfoldable pub decided_by : Parsed → Decided
  unfolding route_of
  decided_by (decision d) = decided (route_of d) none
  decided_by unparseable = decided frontier (some no_decision)
  decided_by panicked = crashed

  -- `decide`, behind the decoding.
  unfoldable pub decide_content : Bytes → Decided
  unfolding parse_slm_decision decided_by
  decide_content content = elim (lib.trim_space content) [
    | [] ↦ decided frontier (some empty_content)
    | c ∷ cs ↦ decided_by (parse_slm_decision (c ∷ cs))
  ]

  unfoldable pub decide_body : Option Bytes → Decided
  unfolding decide_content
  decide_body none = decided frontier (some bad_body)
  decide_body (some content) = decide_content content

  -- `decide`, behind the call.
  unfoldable pub slm_decide : Exchange → Decided
  unfolding decide_body
  slm_decide call_failed = decided frontier (some transport)
  slm_decide (reply status body) =
      if status == 200 then decide_body (lib.decode body) else decided frontier (some bad_status)
